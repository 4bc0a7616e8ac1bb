-- ===== src/Mig/Partition/Larger.antt =====
-- internal/mig/partition.go: `ValidatePartition` on cards of different memory.
use ghostgpu.Base.{
  none, List, [], ◌∷◌, ◌≡◌, refl, inl, inr, arith, Option-cases, Result, ok, err, text_eq,
}
use ghostgpu.Base.Dict.{lookup}
use ghostgpu.Base.Int.{ℤ, add32, mul32, ◌≤ℤ◌}
use ghostgpu.Platform.{Platform, IsLawful}
use ghostgpu.Api.{MigPartitionEntry}
use ghostgpu.Mig.{Budget, Table}
use ghostgpu.Mig.Partition.{PartitionError, validate_partition, by_name, usage, judged, over_budget}
use ghostgpu.Mig.Resolve.Laws.{exceeds-false_iff}

module _ (P : Platform) where
  -- A layout depends on the table's profiles only until it is compared with the budget.
  usage-budget :
      (t : Table P) (b : Budget P) (es : List MigPartitionEntry) (n : ℤ) (m : P.Quantity)
      → usage P (record t { budget = b }) es n m ≡ usage P t es n m
  unfolding usage
  usage-budget t b [] n m = refl
  usage-budget t b (e ∷ es) n m = elim (Option-cases (lookup e.profile (by_name P [] t.profiles))) [
    | inl missing ↦ rw (usage, missing) refl
    | inr (p, found) ↦ rw (usage, found) (usage-budget t b es (add32 n (mul32 p.slices e.count)) _)
  ]

  module _ (L : IsLawful P) where
    -- A card with at least the memory carries what another carries.
    over_budget_mono :
        (small large : Budget P) (used : ℤ × P.Quantity)
        → large.slices ≡ small.slices
        → L.amount small.memory ≤ℤ L.amount large.memory
        → over_budget P small used ≡ none
        → over_budget P large used ≡ none
    over_budget_mono small large (slices, memory) same more e =
        let inside = exceeds-false_iff P L memory small.memory in
        let outside = exceeds-false_iff P L memory large.memory in ground (arith, inside, outside)

    judged_mono :
        (small large : Budget P) (used : Result (PartitionError P) (ℤ × P.Quantity))
        → large.slices ≡ small.slices
        → L.amount small.memory ≤ℤ L.amount large.memory
        → judged P small used ≡ none
        → judged P large used ≡ none
    judged_mono small large (err x) same more e = cc
    judged_mono small large (ok used) same more e = over_budget_mono small large used same more e

    pub validate_partition_mono :
        (t : Table P) (large : Budget P) (es : List MigPartitionEntry)
        → large.slices ≡ t.budget.slices
        → L.amount t.budget.memory ≤ℤ L.amount large.memory
        → validate_partition P es t ≡ none
        → validate_partition P es (record t { budget = large }) ≡ none
    unfolding validate_partition
    validate_partition_mono t large [] same more e = refl
    validate_partition_mono t large (x ∷ es) same more e =
        rw (usage-budget t large (x ∷ es)) (judged_mono t.budget large _ same more e)
