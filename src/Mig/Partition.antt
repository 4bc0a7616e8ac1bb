-- ===== src/Mig/Partition.antt =====
-- internal/mig/partition.go: a declared partition, checked against one card and realised on every
-- GPU of a node.
pub mod Larger
pub mod Steps
pub mod Validate
pub mod Layout
use ghostgpu.Base.{
  ℕ, zero, suc, Bool, true, false, Option, none, some, List, [], ◌∷◌, ◌++◌, map, flat_map,
  count_from, Result, ok, err, Text, codes, text_eq, ◌==◌, length, if◌then◌else◌,
}
use ghostgpu.Base.Dict.{Dict, lookup, insert, get_or}
use ghostgpu.Base.Int.{ℤ, pos, pos_part, ltb_ℤ, add32, mul32}
use ghostgpu.Text.{format_int}
use ghostgpu.Platform.{Platform, binary_si}
use ghostgpu.Api.{MigPartitionEntry}
use ghostgpu.Mig.{Profile, Budget, Table}
use ghostgpu.Mig.Expand.{Instance, device_name, counter_set_name}
use ghostgpu.Mig.Resolve.{exceeds}

unfoldable pub partition_device_name : ℤ → Text → ℤ → Text
unfolding device_name format_int
partition_device_name gpu profile ordinal = device_name gpu profile ++ (b'-' ∷ format_int ordinal)

module _ (P : Platform) where
  pub data PartitionError : Type 0 where
    unknown_profile : (profile : Text) (available : List Text) → PartitionError
    slices_exceed : (used budget : ℤ) → PartitionError
    memory_exceeds : (used budget : P.Quantity) → PartitionError

  -- `byName`: a later profile of the same name replaces an earlier one.
  unfoldable pub by_name : Dict Text (Profile P) → List (Profile P) → Dict Text (Profile P)
  by_name d [] = d
  by_name d (p ∷ ps) = by_name (insert p.name p d) ps

  -- `for range e.Count { usedMemory.Add(instanceMemory) }`
  unfoldable pub add_times : ℕ → P.Quantity → P.Quantity → P.Quantity
  add_times zero m used = used
  add_times (suc n) m used = add_times n m (P.add used m)

  -- The loop over the entries: the slices and the memory that they use together.
  unfoldable pub usage :
      Table P → List MigPartitionEntry → ℤ → P.Quantity → Result PartitionError (ℤ × P.Quantity)
  unfolding by_name add_times
  usage table [] slices memory = ok (slices, memory)
  usage table (e ∷ es) slices memory = elim (lookup e.profile (by_name [] table.profiles)) [
    | none ↦ err (unknown_profile e.profile (map (λ p. p.name) table.profiles))
    | some p ↦
        usage table es (add32 slices (mul32 p.slices e.count))
          (add_times (pos_part e.count) p.memory memory)
  ]

  -- The two comparisons with the budget; `none` is the nil error.
  abbrev pub over_budget : Budget P → ℤ × P.Quantity → Option PartitionError
  over_budget budget (slices, memory) =
      if ltb_ℤ budget.slices slices
      then some (slices_exceed slices budget.slices)
      else if exceeds P memory budget.memory
      then some (memory_exceeds memory budget.memory)
      else none

  abbrev pub judged : Budget P → Result PartitionError (ℤ × P.Quantity) → Option PartitionError
  judged budget (err e) = some e
  judged budget (ok used) = over_budget budget used

  unfoldable pub validate_partition : List MigPartitionEntry → Table P → Option PartitionError
  unfolding usage
  validate_partition [] table = none
  validate_partition (e ∷ es) table =
      judged table.budget (usage table (e ∷ es) (pos 0) (P.new_quantity (pos 0) binary_si))

-- `counts[e.Profile] += e.Count`
unfoldable pub counts_of : Dict Text ℤ → List MigPartitionEntry → Dict Text ℤ
counts_of counts [] = counts
counts_of counts (e ∷ es) =
    counts_of (insert e.profile (add32 (get_or e.profile counts (pos 0)) e.count) counts) es

module _ (P : Platform) where
  unfoldable pub partition_instance : ℤ → Profile P → ℤ → ℤ → Instance P
  unfolding partition_device_name counter_set_name
  partition_instance gpu p ordinal next_id = record {
    gpu_index = gpu;
    device_name = partition_device_name gpu p.name ordinal;
    counter_set = counter_set_name gpu;
    instance_id = next_id;
    profile = p;
  }

  -- The innermost loop, over the ordinals from `ordinal` up; `next_id` runs along.
  unfoldable pub ordinals : ℤ → Profile P → ℕ → ℕ → ℤ → List (Instance P)
  unfolding partition_instance
  ordinals gpu p zero ordinal next_id = []
  ordinals gpu p (suc n) ordinal next_id =
      partition_instance gpu p (pos ordinal) next_id
      ∷ ordinals gpu p n (suc ordinal) (add32 next_id (pos 1))

  -- `nextID` behind `n` increments.
  unfoldable pub bump : ℕ → ℤ → ℤ
  bump zero id = id
  bump (suc n) id = bump n (add32 id (pos 1))

  -- The loop over the table's profiles on one GPU.
  unfoldable pub on_gpu : ℤ → Dict Text ℤ → List (Profile P) → ℤ → List (Instance P)
  unfolding ordinals bump
  on_gpu gpu counts [] next_id = []
  on_gpu gpu counts (p ∷ ps) next_id =
      let n = pos_part (get_or p.name counts (pos 0)) in
      ordinals gpu p n 0 next_id ++ on_gpu gpu counts ps (bump n next_id)

  unfoldable pub expand_partitioned : ℤ → Table P → List MigPartitionEntry → List (Instance P)
  unfolding counts_of on_gpu
  expand_partitioned gpus_per_node table entries =
      flat_map (λ gpu. on_gpu (pos gpu) (counts_of [] entries) table.profiles (pos 0))
        (count_from 0 (pos_part gpus_per_node))
