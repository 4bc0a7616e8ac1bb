-- ===== src/Gpu/Faults/States.antt =====
-- internal/gpu/faults.go: which GPUs of a node are failed, busy or free.
use ghostgpu.Base.{
  ℕ, Option, none, some, List, [], ◌∷◌, ◌≡◌, ◌↔◌, refl, arith, text_eq, if◌then◌else◌,
}
use ghostgpu.Base.Int.{ℤ, pos, ◌≤ℤ◌}
use ghostgpu.Platform.{Platform}
use ghostgpu.Api.{Labels, FaultEntry, GpuPool, Node}
use ghostgpu.Gpu.Occupancy.{selector_matches, busy_gpus, validate_occupancy}
use ghostgpu.Gpu.Occupancy.Selectors.{busy_of_bounds, declared_busy, busy_of-validated}
use ghostgpu.Gpu.Faults.{
  NodeState, unavailable, is_faulted, is_occupied, taint_of, fault_state, busy_state, state_for,
  validate_fault_entries, validate_faults,
}

-- A GPU carries no taint exactly when its index is not below the greater of the busy and the failed
-- count.
pub taint_of-none_iff : (s : NodeState) (i : ℤ) → (taint_of s i ≡ none) ↔ (unavailable s ≤ℤ i)
unfolding taint_of is_faulted is_occupied unavailable
taint_of-none_iff s i = ground arith

module _ (P : Platform) where
  -- For a pool with a number of GPUs that is not negative, the busy and the failed GPUs of a node's
  -- state lie between zero and that number, whatever the pool declares.
  pub state_for_bounds :
      (pool : GpuPool P) (node : Node P) (gpus : ℕ)
      → pool.spec.gpus_per_node ≡ pos gpus
      → let s = state_for P pool node in
        (pos 0 ≤ℤ s.busy) × (s.busy ≤ℤ pos gpus) × (pos 0 ≤ℤ s.faulted) × (s.faulted ≤ℤ pos gpus)
  unfolding state_for busy_gpus fault_state
  state_for_bounds pool node gpus e =
      rw e (bounds pool.spec.faults _ (busy_of_bounds gpus node.labels pool.spec.occupancy))
    where
      bounds :
          (fs : List FaultEntry) (busy : ℤ)
          → (pos 0 ≤ℤ busy) × (busy ≤ℤ pos gpus)
          → let s = fault_state (pos gpus) node.labels fs (busy_state P busy) in
            (pos 0 ≤ℤ s.busy)
            × (s.busy ≤ℤ pos gpus)
            × (pos 0 ≤ℤ s.faulted)
            × (s.faulted ≤ℤ pos gpus)
      bounds [] busy h = ground arith
      bounds (f ∷ fs) busy h = ground (arith, bounds fs busy h)

-- The first fault entry whose selector accepts the labels.
abbrev pub declared_fault : Labels → List FaultEntry → Option FaultEntry
declared_fault labels [] = none
declared_fault labels (f ∷ fs) =
    let rest = declared_fault labels fs in
    if selector_matches f.node_selector labels then some f else rest

module _ (P : Platform) where
  -- For a pool whose occupancy and faults are valid, the state of a node is what the pool declares:
  -- the busy GPUs of the first occupancy entry that accepts the node's labels, and the failed GPUs
  -- and error of the first such fault, neither clamped.
  pub state_for-declared :
      (pool : GpuPool P) (node : Node P)
      → validate_occupancy P pool ≡ none
      → validate_faults P pool ≡ none
      → let s = state_for P pool node in
        (s.busy ≡ declared_busy node.labels pool.spec.occupancy)
        × (s.faulted
            ≡ elim (declared_fault node.labels pool.spec.faults) [ none ↦ pos 0 | some f ↦ f.gpus ])
        × (s.xid
            ≡ elim (declared_fault node.labels pool.spec.faults) [ none ↦ pos 0 | some f ↦ f.xid ])
  unfolding state_for busy_gpus fault_state validate_occupancy validate_faults
      validate_fault_entries
  state_for-declared pool node ho hf =
      faults pool.spec.faults _
        (busy_of-validated pool.spec.gpus_per_node node.labels pool.spec.occupancy ho) hf
    where
      faults :
          (fs : List FaultEntry) (busy : ℤ)
          → busy ≡ declared_busy node.labels pool.spec.occupancy
          → validate_fault_entries pool.spec.gpus_per_node fs ≡ none
          → let s = fault_state pool.spec.gpus_per_node node.labels fs (busy_state P busy) in
            (s.busy ≡ declared_busy node.labels pool.spec.occupancy)
            × (s.faulted ≡ elim (declared_fault node.labels fs) [ none ↦ pos 0 | some f ↦ f.gpus ])
            × (s.xid ≡ elim (declared_fault node.labels fs) [ none ↦ pos 0 | some f ↦ f.xid ])
      faults [] busy e h = (e, refl, refl)
      faults (f ∷ fs) busy e h = ground (arith, faults fs busy e)
