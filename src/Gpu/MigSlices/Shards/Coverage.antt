-- ===== src/Gpu/MigSlices/Shards/Coverage.antt =====
-- internal/gpu/migslices.go: the devices and counter sets of all shards together.
use mathlib.Core.Path.{ap₂}
use ghostgpu.Base.{
  ℕ, ◌+◌, ◌-◌, ◌*◌, ◌/◌, ◌^◌, ◌≤◌, ◌<◌, min, ◌⊎◌, inl, inr, List, [], ◌++◌, map, ◌≡◌, refl, sym,
  ◌∙◌, ap, arith, Text, length, length-map, length-append, length-count_from, flat_map,
  flat_map-append, flat_map-map, flat_map-nil, append-nil, map-flat_map, count_from, All,
  All-append, All-imp, map-All,
}
use ghostgpu.Base.Int.{ℤ, pos, pos_part, ◌+ℤ◌, wrap32, wrap32_id, add_pos}
use ghostgpu.Platform.{Platform}
use ghostgpu.Api.{GpuPool, GpuModel, Device, CounterSet, ResourceSlice}
use ghostgpu.Mig.{Table}
use ghostgpu.Mig.Expand.{Instance}
use ghostgpu.Gpu.Faults.{NodeState, taint_of}
use ghostgpu.Gpu.WholeSlice.{taint_list}
use ghostgpu.Gpu.MigSlices.{
  max_counter_sets_per_slice, max_mig_devices_per_slice, mig_device, tainted_device, instances_for,
  counter_sets, counter_set_of, new_mig_slice, counter_slice, device_slice, build_mig_slices,
}
use ghostgpu.Gpu.MigSlices.Shards.Chunks.{
  ceil_div_eight, ceil_div_64, shard_of, length-shard_of, shards_from, range_of, ranges_from,
}

from_zero : (n : ℕ) → n - 0 * 8 ≡ n
from_zero n = omega arith

module _ (P : Platform) where
  -- All devices, and all counter sets, of a node's DRA pool.
  abbrev pub all_devices : List (ResourceSlice P) → List (Device P)
  all_devices = flat_map (λ s. s.spec.devices)

  abbrev pub all_counter_sets : List (ResourceSlice P) → List (CounterSet P)
  all_counter_sets = flat_map (λ s. s.spec.shared_counters)

  -- The limits of the API on one slice; counter sets and devices never share one.
  abbrev pub IsWithinLimits : ResourceSlice P → Type 0
  IsWithinLimits s =
      (length s.spec.shared_counters ≤ max_counter_sets_per_slice)
      × (length s.spec.devices ≤ max_mig_devices_per_slice)
      × ((s.spec.shared_counters ≡ []) ⊎ (s.spec.devices ≡ []))

  module _ (pool : GpuPool P) (model : GpuModel P) (table : Table P) (node : Text)
      (state : NodeState) where
    abbrev gpus : ℕ
    gpus = pos_part pool.spec.gpus_per_node

    abbrev instances : List (Instance P)
    instances = instances_for P pool table

    -- How many slices of each kind there are.
    abbrev counter_shards : ℕ
    counter_shards = (gpus + 7) / 8

    abbrev device_shards : ℕ
    device_shards = (length instances + 63) / 64

    abbrev slices : List (ResourceSlice P)
    slices = build_mig_slices P pool model table node state

    abbrev total : ℤ
    total = wrap32 (pos counter_shards +ℤ pos device_shards)

    abbrev counter_part : List (ResourceSlice P)
    counter_part =
        map (counter_slice P pool model table node state total) (count_from 0 counter_shards)

    abbrev device_part : List (ResourceSlice P)
    device_part =
        map (device_slice P pool model table node state total instances)
          (count_from 0 device_shards)

    slices-eq : slices ≡ counter_part ++ device_part
    unfolding build_mig_slices
    slices-eq = rw (ceil_div_eight pool.spec.gpus_per_node, ceil_div_64 (length instances))

    counter_part-devices : all_devices counter_part ≡ []
    unfolding counter_slice new_mig_slice
    counter_part-devices =
        flat_map-map (λ (s : ResourceSlice P). s.spec.devices)
          (counter_slice P pool model table node state total) (count_from 0 counter_shards)
        ∙ flat_map-nil _ (count_from 0 counter_shards) (λ i. refl)

    device_part-counter_sets : all_counter_sets device_part ≡ []
    unfolding device_slice new_mig_slice
    device_part-counter_sets =
        flat_map-map (λ (s : ResourceSlice P). s.spec.shared_counters)
          (device_slice P pool model table node state total instances) (count_from 0 device_shards)
        ∙ flat_map-nil _ (count_from 0 device_shards) (λ i. refl)

    device_part-devices :
        all_devices device_part ≡ map (tainted_device P pool model node state) instances
    unfolding device_slice new_mig_slice
    device_part-devices =
        flat_map-map (λ (s : ResourceSlice P). s.spec.devices)
          (device_slice P pool model table node state total instances) (count_from 0 device_shards)
        ∙ sym (
            map-flat_map (tainted_device P pool model node state) (shard_of instances)
              (count_from 0 device_shards))
        ∙ ap (map (tainted_device P pool model node state))
            (shards_from instances 0 device_shards (omega arith))

    counter_part-counter_sets : all_counter_sets counter_part ≡ counter_sets P table.budget 0 gpus
    unfolding counter_slice new_mig_slice counter_sets
    counter_part-counter_sets =
        flat_map-map (λ (s : ResourceSlice P). s.spec.shared_counters)
          (counter_slice P pool model table node state total) (count_from 0 counter_shards)
        ∙ sym (
            map-flat_map (counter_set_of P table.budget) (range_of gpus)
              (count_from 0 counter_shards))
        ∙ ap (map (counter_set_of P table.budget))
            (ranges_from gpus 0 counter_shards (omega arith) ∙ ap (count_from 0) (from_zero gpus))

    -- The devices of all slices of a partitioned node, shard after shard, are one for each
    -- instance, in the order of the instances, each with the taint of its card.
    pub build_mig_slices-devices :
        all_devices slices
        ≡ map
            (λ i. record (mig_device P pool model i node) {
              taints = taint_list (taint_of state i.gpu_index);
            })
            instances
    unfolding tainted_device
    build_mig_slices-devices =
        ap all_devices slices-eq
        ∙ flat_map-append (λ (s : ResourceSlice P). s.spec.devices) counter_part device_part
        ∙ rw counter_part-devices device_part-devices

    -- The counter sets of all slices of a partitioned node, shard after shard, are one for each
    -- GPU, in order.
    pub build_mig_slices-counter_sets : all_counter_sets slices ≡ counter_sets P table.budget 0 gpus
    build_mig_slices-counter_sets =
        ap all_counter_sets slices-eq
        ∙ flat_map-append (λ (s : ResourceSlice P). s.spec.shared_counters) counter_part device_part
        ∙ rw (device_part-counter_sets, append-nil (all_counter_sets counter_part))
            counter_part-counter_sets

    counter_slice-IsWithinLimits :
        (i : ℕ) → IsWithinLimits (counter_slice P pool model table node state total i)
    unfolding counter_slice new_mig_slice counter_sets
    counter_slice-IsWithinLimits i = (
      omega (
        arith,
        length-map (counter_set_of P table.budget) (range_of gpus i),
        length-count_from (i * 8) (min (i * 8 + 8) gpus - i * 8),
      ),
      omega arith,
      inr refl,
    )

    device_slice-IsWithinLimits :
        (i : ℕ) → IsWithinLimits (device_slice P pool model table node state total instances i)
    unfolding device_slice new_mig_slice
    device_slice-IsWithinLimits i = (
      omega arith,
      omega (
        arith,
        length-map (tainted_device P pool model node state) (shard_of instances i),
        length-shard_of instances i,
      ),
      inl refl,
    )

    -- No slice of a partitioned node has more than 8 counter sets or more than 64 devices, and none
    -- has both.
    pub build_mig_slices-IsWithinLimits : All IsWithinLimits slices
    build_mig_slices-IsWithinLimits = rw slices-eq (
        All-append IsWithinLimits counter_part device_part
          (map-All IsWithinLimits (counter_slice P pool model table node state total)
            (count_from 0 counter_shards) counter_slice-IsWithinLimits)
          (map-All IsWithinLimits (device_slice P pool model table node state total instances)
            (count_from 0 device_shards) device_slice-IsWithinLimits))

    total_throughout : All (λ s. s.spec.resource_slice_count ≡ total) slices
    unfolding counter_slice device_slice new_mig_slice
    total_throughout = rw slices-eq (
        All-append (λ (s : ResourceSlice P). s.spec.resource_slice_count ≡ total) counter_part
          device_part
          (map-All (λ (s : ResourceSlice P). s.spec.resource_slice_count ≡ total)
            (counter_slice P pool model table node state total) (count_from 0 counter_shards)
            (λ i. refl))
          (map-All (λ (s : ResourceSlice P). s.spec.resource_slice_count ≡ total)
            (device_slice P pool model table node state total instances)
            (count_from 0 device_shards) (λ i. refl)))

    -- The pool's slice count, which every slice states, is the number of its slices.
    pub build_mig_slices-counted :
        counter_shards + device_shards < 2 ^ 31
        → All (λ s. s.spec.resource_slice_count ≡ pos (length slices)) slices
    build_mig_slices-counted room =
        let e : total ≡ pos (counter_shards + device_shards) =
          ap wrap32 (add_pos counter_shards device_shards)
          ∙ wrap32_id (pos (counter_shards + device_shards)) (omega arith) in
        let n : length slices ≡ counter_shards + device_shards =
          ap length slices-eq
          ∙ length-append counter_part device_part
          ∙ ap₂ (λ a b. a + b)
              (length-map _ (count_from 0 counter_shards) ∙ length-count_from 0 counter_shards)
              (length-map _ (count_from 0 device_shards) ∙ length-count_from 0 device_shards) in
        let same : total ≡ pos (length slices) = e ∙ ap pos (sym n) in
        All-imp (λ s h. h ∙ same) slices total_throughout
