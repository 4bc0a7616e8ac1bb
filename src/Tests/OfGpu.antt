-- ===== src/Tests/OfGpu.antt =====
-- The theorems on devices, slices and resources at the sample pools.
use ghostgpu.Base.{
  ◌*◌, ◌^◌, ◌≤◌, some, none, [], ◌∷◌, ◌≡◌, ◌↔◌, refl, arith, codes, text_eq, All, map, keep, length,
}
use ghostgpu.Base.Dict.{lookup}
use ghostgpu.Base.Int.{pos, ◌≤ℤ◌, ◌*ℤ◌, quot}
use ghostgpu.Platform.Memory.{memory}
use ghostgpu.Api.{Labels, mig_enabled}
use ghostgpu.Gpu.Occupancy.{validate_occupancy, validate_occupancy_entries}
use ghostgpu.Gpu.Occupancy.Selectors.{declared_busy}
use ghostgpu.Gpu.Faults.{taint_of, state_for, validate_faults, validate_fault_entries}
use ghostgpu.Gpu.Faults.States.{declared_fault, state_for-declared}
use ghostgpu.Gpu.Resources.{gpu_resource_name, max_instances, node_allocatable}
use ghostgpu.Gpu.Resources.Capacity.{max_instances-Fits_iff}
use ghostgpu.Gpu.WholeSlice.{taint_list, build_resource_slice}
use ghostgpu.Gpu.WholeSlice.Devices.{is_free, node_allocatable-free}
use ghostgpu.Gpu.MigSlices.{build_mig_slices, mig_device, instances_for}
use ghostgpu.Gpu.MigSlices.Shards.Coverage.{
  all_devices, IsWithinLimits, build_mig_slices-devices, build_mig_slices-IsWithinLimits,
}
use ghostgpu.Gpu.MigSlices.Shards.Consistency.{DrawsOn, counter_set_names, build_mig_slices-DrawsOn}
use ghostgpu.Tests.Samples.{whole_pool, mig_pool, model, table, state, kwok_node, large}

abbrev selector : Labels
selector = (codes "zone", codes "a") ∷ []

abbrev labels : Labels
labels = (codes "zone", codes "b") ∷ []

state_for-declared_example :
    let s = state_for memory whole_pool kwok_node in
    (s.busy ≡ declared_busy kwok_node.labels whole_pool.spec.occupancy)
    × (s.faulted ≡ elim (declared_fault kwok_node.labels whole_pool.spec.faults) [
      | none ↦ pos 0
      | some f ↦ f.gpus
    ])
    × (s.xid ≡ elim (declared_fault kwok_node.labels whole_pool.spec.faults) [
      | none ↦ pos 0
      | some f ↦ f.xid
    ])
unfolding validate_occupancy validate_occupancy_entries validate_faults validate_fault_entries
    text_eq
state_for-declared_example = state_for-declared memory whole_pool kwok_node refl refl

max_instances-Fits_iff_example :
    (pos 2 ≤ℤ max_instances memory large table.budget)
    ↔ ((2 * 3 ≤ 7) × (2 * 21474836480 ≤ 42949672960))
unfolding quot
max_instances-Fits_iff_example =
    max_instances-Fits_iff memory large table.budget 2 21474836479 7 42949672960 2 refl refl refl
      refl

node_allocatable-free_example :
    let s = state_for memory whole_pool kwok_node in
    let free =
      keep
        (is_free memory)
        (build_resource_slice memory whole_pool model (codes "kwok-0") s).spec.devices in
    lookup gpu_resource_name (node_allocatable memory whole_pool table s)
    ≡ some (pos (length free) *ℤ pos (10 ^ 9))
unfolding mig_enabled text_eq
node_allocatable-free_example =
    node_allocatable-free memory whole_pool model table kwok_node 2 refl (omega arith) refl

build_mig_slices-devices_example :
    all_devices memory (build_mig_slices memory mig_pool model table (codes "kwok-0") state)
    ≡ map
        (λ i. record (mig_device memory mig_pool model i (codes "kwok-0")) {
          taints = taint_list (taint_of state i.gpu_index);
        })
        (instances_for memory mig_pool table)
build_mig_slices-devices_example =
    build_mig_slices-devices memory mig_pool model table (codes "kwok-0") state

build_mig_slices-IsWithinLimits_example :
    All
      (IsWithinLimits memory)
      (build_mig_slices memory mig_pool model table (codes "kwok-0") state)
build_mig_slices-IsWithinLimits_example =
    build_mig_slices-IsWithinLimits memory mig_pool model table (codes "kwok-0") state

build_mig_slices-DrawsOn_example :
    let slices = build_mig_slices memory mig_pool model table (codes "kwok-0") state in
    All (DrawsOn memory (counter_set_names memory slices)) (all_devices memory slices)
build_mig_slices-DrawsOn_example =
    build_mig_slices-DrawsOn memory mig_pool model table (codes "kwok-0") state
