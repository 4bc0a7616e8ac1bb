-- ===== src/Gpu/Resources.antt =====
-- internal/gpu/migresources.go: the extended resources that a node advertises.
pub mod Capacity
pub mod Keys
use ghostgpu.Base.{
  ℕ, Bool, true, false, Option, none, some, List, [], ◌∷◌, ◌++◌, Text, codes, text_eq, ◌==◌,
  if◌then◌else◌,
}
use ghostgpu.Base.Dict.{Dict, insert, get_or}
use ghostgpu.Base.Int.{ℤ, pos, leb_ℤ, ltb_ℤ, min_ℤ, max_ℤ, quot, sub32, mul64}
use ghostgpu.Platform.{Platform, decimal_si}
use ghostgpu.Api.{GpuPool, MigPartitionEntry, ResourceList, mig_enabled}
use ghostgpu.Mig.{Profile, Budget, Table}
use ghostgpu.Mig.Partition.{counts_of}
use ghostgpu.Gpu.Faults.{NodeState, unavailable}

abbrev pub gpu_resource_name : Text
gpu_resource_name = codes "nvidia.com/gpu"

abbrev pub mig_resource_prefix : Text
mig_resource_prefix = codes "nvidia.com/mig-"

unfoldable pub mig_resource_name : Text → Text
mig_resource_name profile = mig_resource_prefix ++ profile

module _ (P : Platform) where
  -- How many times the profile's memory goes into the budget's.
  abbrev pub by_memory : ℤ → ℤ → ℤ
  by_memory bytes budget = if ltb_ℤ (pos 0) bytes then quot budget bytes else pos 0

  unfoldable pub max_instances : Profile P → Budget P → ℤ
  unfolding quot
  max_instances profile budget =
      if leb_ℤ profile.slices (pos 0)
      then pos 0
      else min_ℤ (quot budget.slices profile.slices)
          (by_memory (P.quantity_value profile.memory) (P.quantity_value budget.memory))

  -- The instances of a profile on one card: as declared, or as many as the card could hold.
  unfoldable pub per_card : List MigPartitionEntry → Budget P → Profile P → ℤ
  unfolding max_instances counts_of
  per_card [] budget profile = max_instances profile budget
  per_card (e ∷ es) budget profile = get_or profile.name (counts_of [] (e ∷ es)) (pos 0)

  -- The loop over the table's profiles.
  unfoldable pub mig_resources :
      List MigPartitionEntry → Budget P → ℤ → ResourceList P → List (Profile P) → ResourceList P
  unfolding per_card mig_resource_name insert
  mig_resources declared budget gpus resources [] = resources
  mig_resources declared budget gpus resources (p ∷ ps) =
      let n = per_card declared budget p in
      mig_resources declared budget gpus
        (if leb_ℤ n (pos 0)
          then resources
          else insert (mig_resource_name p.name) (P.new_quantity (mul64 n gpus) decimal_si)
              resources)
        ps

  unfoldable pub node_resources_for : GpuPool P → Table P → ℤ → ResourceList P
  unfolding mig_resources mig_enabled
  node_resources_for pool table gpus =
      let whole = λ (n : ℤ). (gpu_resource_name, P.new_quantity n decimal_si) ∷ [] in
      if mig_enabled P pool.spec
      then mig_resources pool.spec.mig_partition table.budget gpus (whole (pos 0)) table.profiles
      else whole gpus

  unfoldable pub node_resources : GpuPool P → Table P → ResourceList P
  unfolding node_resources_for
  node_resources pool table = node_resources_for pool table pool.spec.gpus_per_node

  unfoldable pub node_allocatable : GpuPool P → Table P → NodeState → ResourceList P
  unfolding node_resources_for unavailable
  node_allocatable pool table state =
      node_resources_for pool table
        (max_ℤ (pos 0) (sub32 pool.spec.gpus_per_node (unavailable state)))
