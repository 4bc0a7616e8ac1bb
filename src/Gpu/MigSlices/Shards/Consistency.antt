-- ===== src/Gpu/MigSlices/Shards/Consistency.antt =====
-- internal/gpu/migslices.go: the counter sets that the devices of a node draw on.
use mathlib.Core.Path.{subst}
use ghostgpu.Base.{
  ℕ, zero, suc, ◌+◌, ◌≤◌, ◌<◌, List, [], ◌∷◌, map, ◌≡◌, ◌⊎◌, refl, sym, arith, Text, In, In-map_of,
  inl, inr, flat_map, count_from, All, All-append, map-All,
}
use ghostgpu.Base.Dict.{Dict}
use ghostgpu.Base.Int.{ℤ, pos, pos_part}
use ghostgpu.Platform.{Platform}
use ghostgpu.Api.{MigPartitionEntry, GpuPool, GpuModel, Device, CounterSet, ResourceSlice}
use ghostgpu.Mig.{Profile, Table}
use ghostgpu.Mig.Expand.{Instance, counter_set_name, instance_of, expand}
use ghostgpu.Mig.Partition.{partition_instance, ordinals, on_gpu, counts_of, expand_partitioned}
use ghostgpu.Gpu.Faults.{NodeState}
use ghostgpu.Gpu.MigSlices.{
  mig_device, tainted_device, instances_for, counter_sets, counter_set_of, build_mig_slices,
}
use ghostgpu.Gpu.MigSlices.Shards.Coverage.{
  all_devices, all_counter_sets, build_mig_slices-devices, build_mig_slices-counter_sets,
}

In-count_from : (s n i : ℕ) → s ≤ i → i < s + n → In i (count_from s n)
In-count_from s zero i low high = absurd (omega arith)
In-count_from s (suc n) i low high = elim (split s i low) [
  | inl e ↦ inl (sym e)
  | inr later ↦ inr (In-count_from (suc s) n i later (omega arith))
]
  where
    split : (s i : ℕ) → s ≤ i → (s ≡ i) ⊎ (suc s ≤ i)
    split s i h = grind arith

module _ (P : Platform) where
  -- The instance is carved from a GPU below `n`, and draws on that GPU's counter set.
  abbrev pub IsOn : ℕ → Instance P → Type 0
  IsOn n inst =
      (i : ℕ) × (i < n) × (inst.gpu_index ≡ pos i) × (inst.counter_set ≡ counter_set_name (pos i))

  each_round :
      (g : ℕ → List (Instance P)) (s m n : ℕ)
      → s + m ≤ n
      → ((i : ℕ) → i < n → All (IsOn n) (g i))
      → All (IsOn n) (flat_map g (count_from s m))
  each_round g s zero n h each = tt
  each_round g s (suc m) n h each =
      All-append (IsOn n) (g s) (flat_map g (count_from (suc s) m)) (each s (omega arith))
        (each_round g (suc s) m n (omega arith) each)

  expand-IsOn : (gpus : ℤ) (table : Table P) → All (IsOn (pos_part gpus)) (expand P gpus table)
  unfolding expand instance_of
  expand-IsOn gpus table =
      each_round (λ i. map (instance_of P (pos i)) table.profiles) 0 (pos_part gpus) (pos_part gpus)
        (omega arith)
        (λ i h.
          map-All (IsOn (pos_part gpus)) (instance_of P (pos i)) table.profiles
            (λ p. (i, h, refl, refl)))

  ordinals-IsOn :
      (n i : ℕ) (p : Profile P) (k o : ℕ) (id : ℤ)
      → i < n
      → All (IsOn n) (ordinals P (pos i) p k o id)
  unfolding ordinals partition_instance
  ordinals-IsOn n i p zero o id h = tt
  ordinals-IsOn n i p (suc k) o id h = ((i, h, refl, refl), ordinals-IsOn n i p k (suc o) _ h)

  on_gpu-IsOn :
      (n i : ℕ) (counts : Dict Text ℤ) (ps : List (Profile P)) (id : ℤ)
      → i < n
      → All (IsOn n) (on_gpu P (pos i) counts ps id)
  unfolding on_gpu
  on_gpu-IsOn n i counts [] id h = tt
  on_gpu-IsOn n i counts (p ∷ ps) id h =
      All-append (IsOn n) _ _ (ordinals-IsOn n i p _ 0 id h) (on_gpu-IsOn n i counts ps _ h)

  expand_partitioned-IsOn :
      (gpus : ℤ) (table : Table P) (es : List MigPartitionEntry)
      → All (IsOn (pos_part gpus)) (expand_partitioned P gpus table es)
  unfolding expand_partitioned
  expand_partitioned-IsOn gpus table es =
      each_round (λ i. on_gpu P (pos i) (counts_of [] es) table.profiles (pos 0)) 0 (pos_part gpus)
        (pos_part gpus) (omega arith)
        (λ i h. on_gpu-IsOn (pos_part gpus) i (counts_of [] es) table.profiles (pos 0) h)

  pub instances_for-IsOn :
      (pool : GpuPool P) (table : Table P)
      → All (IsOn (pos_part pool.spec.gpus_per_node)) (instances_for P pool table)
  unfolding instances_for
  instances_for-IsOn pool table = declared pool.spec.mig_partition
    where
      declared :
          (es : List MigPartitionEntry)
          → All (IsOn (pos_part pool.spec.gpus_per_node)) (elim es [
            | [] ↦ expand P pool.spec.gpus_per_node table
            | e ∷ rest ↦ expand_partitioned P pool.spec.gpus_per_node table (e ∷ rest)
          ])
      declared [] = expand-IsOn pool.spec.gpus_per_node table
      declared (e ∷ rest) = expand_partitioned-IsOn pool.spec.gpus_per_node table (e ∷ rest)

  -- Every counter set that the device draws on is one of those.
  abbrev pub DrawsOn : List Text → Device P → Type 0
  DrawsOn names d = All (λ c. In c.counter_set names) d.consumes_counters

  abbrev pub counter_set_names : List (ResourceSlice P) → List Text
  counter_set_names slices = map (λ c. c.name) (all_counter_sets P slices)

  module _ (pool : GpuPool P) (model : GpuModel P) (table : Table P) (node : Text)
      (state : NodeState) where
    named :
        (n i : ℕ)
        → i < n
        → In (counter_set_name (pos i)) (map (λ c. c.name) (counter_sets P table.budget 0 n))
    unfolding counter_sets counter_set_of
    named n i h =
        In-map_of (λ (c : CounterSet P). c.name) (counter_sets P table.budget 0 n)
          (counter_set_of P table.budget i)
          (In-map_of (counter_set_of P table.budget) (count_from 0 n) i
            (In-count_from 0 n i (omega arith) (omega arith)))

    each_draws :
        (n : ℕ) (instances : List (Instance P))
        → All (IsOn n) instances
        → All
            (DrawsOn (map (λ (c : CounterSet P). c.name) (counter_sets P table.budget 0 n)))
            (map (tainted_device P pool model node state) instances)
    unfolding tainted_device mig_device
    each_draws n [] h = tt
    each_draws n (inst ∷ rest) ((i, below, _, e), h) = (
      (
        subst (λ t. In t (map (λ (c : CounterSet P). c.name) (counter_sets P table.budget 0 n)))
            (sym e) (named n i below),
        tt,
      ),
      each_draws n rest h,
    )

    -- Every counter set that a device of a partitioned node draws on is declared by one of the
    -- node's slices.
    pub build_mig_slices-DrawsOn :
        let slices = build_mig_slices P pool model table node state in
        All (DrawsOn (counter_set_names slices)) (all_devices P slices)
    unfolding tainted_device
    build_mig_slices-DrawsOn =
        rw
          (
            build_mig_slices-devices P pool model table node state,
            build_mig_slices-counter_sets P pool model table node state,
          )
          (each_draws (pos_part pool.spec.gpus_per_node) (instances_for P pool table)
            (instances_for-IsOn pool table))
