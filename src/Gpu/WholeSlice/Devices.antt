-- ===== src/Gpu/WholeSlice/Devices.antt =====
-- internal/gpu/resourceslice.go: the devices of a whole-GPU slice, and how many of them are free.
use ghostgpu.Base.{
  ℕ, zero, suc, ◌+◌, ◌-◌, ◌^◌, ◌<◌, Bool, true, false, some, List, [], ◌∷◌, map, keep, length,
  length-keep, count_from, drop, ◌≡◌, refl, sym, ap, ◌∙◌, arith, Text, text_eq, All, Distinct,
  map-Distinct, In, inl, inr, leb, max,
}
use ghostgpu.Base.Dict.{lookup}
use ghostgpu.Base.Int.{ℤ, pos, pos_part, ◌≤ℤ◌, max_ℤ, sub32, ◌-ℤ◌, wrap32}
use ghostgpu.Text.{format_int}
use ghostgpu.Text.Decimal.{decimal_inj}
use ghostgpu.Platform.{Platform, decimal_si}
use ghostgpu.Api.{GpuPool, GpuModel, Node, Device, mig_enabled}
use ghostgpu.Mig.{Table}
use ghostgpu.Gpu.Identity.{device_name}
use ghostgpu.Gpu.Faults.{NodeState, unavailable, taint_of, state_for, is_faulted, is_occupied}
use ghostgpu.Gpu.Faults.States.{state_for_bounds}
use ghostgpu.Gpu.Resources.{gpu_resource_name, node_allocatable, node_resources_for}
use ghostgpu.Gpu.WholeSlice.{whole_device, build_resource_slice}

count_from-Distinct : (s n : ℕ) → Distinct (count_from s n)
count_from-Distinct s zero = tt
count_from-Distinct s (suc n) = (later s (suc s) n (omega arith), count_from-Distinct (suc s) n)
  where
    later : (i s n : ℕ) → i < s → ¬ In i (count_from s n)
    later i s zero h at = absurd at
    later i s (suc n) h (inl e) = absurd (omega arith)
    later i s (suc n) h (inr at) = later i (suc s) n (omega arith) at

abbrev Anything : ℕ → Type 0
Anything i = Unit

module _ (P : Platform) where
  -- A device that carries no taint.
  abbrev pub is_free : Device P → Bool
  is_free d = elim d.taints [ [] ↦ true | _ ∷ _ ↦ false ]

  device_name-count_from :
      (pool : GpuPool P) (model : GpuModel P) (node : Text) (state : NodeState) (s n : ℕ)
      → map
          (λ (d : Device P). d.name)
          (map (λ i. whole_device P pool model node state (pos i)) (count_from s n))
        ≡ map (λ i. device_name node (pos i)) (count_from s n)
  unfolding whole_device
  device_name-count_from pool model node state s zero = refl
  device_name-count_from pool model node state s (suc n) =
      ap (λ t. device_name node (pos s) ∷ t)
        (device_name-count_from pool model node state (suc s) n)

  -- No two devices of a node's whole-GPU slice have the same name.
  pub build_resource_slice-Distinct :
      (pool : GpuPool P) (model : GpuModel P) (node : Text) (state : NodeState)
      → Distinct (map (λ d. d.name) (build_resource_slice P pool model node state).spec.devices)
  unfolding build_resource_slice
  build_resource_slice-Distinct pool model node state =
      rw (device_name-count_from pool model node state 0 (pos_part pool.spec.gpus_per_node)) (
        map-Distinct Anything (λ i. device_name node (pos i)) _ (λ i j _ _. inj i j) (always _)
          (count_from-Distinct 0 _))
    where
      inj : (i j : ℕ) → device_name node (pos i) ≡ device_name node (pos j) → i ≡ j
      inj i j e = unfold device_name format_int in decimal_inj i j (ap (drop 4) e)

      always : (xs : List ℕ) → All Anything xs
      always [] = tt
      always (x ∷ xs) = (tt, always xs)

  is_free-whole_device :
      (pool : GpuPool P) (model : GpuModel P) (node : Text) (state : NodeState) (i : ℕ)
      → is_free (whole_device P pool model node state (pos i))
        ≡ leb (pos_part (unavailable state)) i
  unfolding whole_device taint_of is_faulted is_occupied unavailable
  is_free-whole_device pool model node state i = ground arith

  free_from :
      (pool : GpuPool P) (model : GpuModel P) (node : Text) (state : NodeState) (s n : ℕ)
      → length
          (keep is_free (map (λ i. whole_device P pool model node state (pos i)) (count_from s n)))
        ≡ (s + n) - max s (pos_part (unavailable state))
  free_from pool model node state s zero = omega arith
  free_from pool model node state s (suc n) =
      rw
        (
          length-keep is_free (whole_device P pool model node state (pos s)),
          is_free-whole_device pool model node state s,
        )
        (ground (arith, free_from pool model node state (suc s) n))

  -- The GPUs that are left, from an int32 subtraction that does not wrap.
  remaining :
      (gpus : ℕ) (busy faulted : ℤ)
      → gpus < 2 ^ 31
      → pos 0 ≤ℤ busy
      → busy ≤ℤ pos gpus
      → pos 0 ≤ℤ faulted
      → faulted ≤ℤ pos gpus
      → max_ℤ (pos 0) (sub32 (pos gpus) (max_ℤ busy faulted))
        ≡ pos (0 + gpus - max 0 (pos_part (max_ℤ busy faulted)))
  unfolding ◌-ℤ◌ wrap32
  remaining gpus busy faulted small hb hb2 hf hf2 = ground arith

  allocatable_whole :
      (pool : GpuPool P) (table : Table P) (state : NodeState)
      → mig_enabled P pool.spec ≡ false
      → lookup gpu_resource_name (node_allocatable P pool table state)
        ≡ some (
            P.new_quantity
              (max_ℤ (pos 0) (sub32 pool.spec.gpus_per_node (max_ℤ state.busy state.faulted)))
              decimal_si)
  unfolding node_allocatable node_resources_for lookup unavailable text_eq
  allocatable_whole pool table state whole = rw whole refl

  free_devices :
      (pool : GpuPool P) (model : GpuModel P) (node : Text) (state : NodeState)
      → length (keep is_free (build_resource_slice P pool model node state).spec.devices)
        ≡ 0 + pos_part pool.spec.gpus_per_node - max 0 (pos_part (max_ℤ state.busy state.faulted))
  unfolding build_resource_slice unavailable
  free_devices pool model node state = free_from pool model node state 0 _

  -- What a node advertises as allocatable is what its slice offers: outside MIG, and for a number of
  -- GPUs that an int32 holds, the allocatable `nvidia.com/gpu` is the number of devices that carry
  -- no taint.
  pub node_allocatable-free :
      (pool : GpuPool P) (model : GpuModel P) (table : Table P) (node : Node P) (gpus : ℕ)
      → pool.spec.gpus_per_node ≡ pos gpus
      → gpus < 2 ^ 31
      → mig_enabled P pool.spec ≡ false
      → let state = state_for P pool node in
        let free = keep is_free (build_resource_slice P pool model node.name state).spec.devices in
        lookup gpu_resource_name (node_allocatable P pool table state)
        ≡ some (P.new_quantity (pos (length free)) decimal_si)
  node_allocatable-free pool model table node gpus e small whole =
      let state = state_for P pool node in
      let (b0, b1, f0, f1) = state_for_bounds P pool node gpus e in
      allocatable_whole pool table state whole
      ∙ ap (λ n. some (P.new_quantity n decimal_si))
          (ap (λ g. max_ℤ (pos 0) (sub32 g (max_ℤ state.busy state.faulted))) e
            ∙ remaining gpus state.busy state.faulted small b0 b1 f0 f1
            ∙ ap (λ g. pos (0 + pos_part g - max 0 (pos_part (max_ℤ state.busy state.faulted))))
                (sym e)
            ∙ ap pos (sym (free_devices pool model node.name state)))
