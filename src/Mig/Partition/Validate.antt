-- ===== src/Mig/Partition/Validate.antt =====
-- internal/mig/partition.go: the layouts that `ValidatePartition` accepts.
use mathlib.Core.Path.{subst}
use ghostgpu.Base.{
  ℕ, zero, suc, ◌+◌, ◌*◌, ◌^◌, ◌<◌, Option, none, some, List, [], ◌∷◌, map, Result, ok, err, ◌≡◌,
  ◌↔◌, ◌∙◌, arith, Text, text_eq, ◌==◌, All, Distinct, length, inl, inr, Option-cases, Bool-cases,
}
use ghostgpu.Base.Int.{
  ℤ, pos, pos_part, ◌+ℤ◌, ◌*ℤ◌, ◌≤ℤ◌, add32, mul32, mul_pos, int_laws, mul-zero, mul-suc,
}
use ghostgpu.Platform.{Platform, IsLawful, binary_si}
use ghostgpu.Api.{MigPartitionEntry}
use ghostgpu.Mig.{Profile, Budget, Table}
use ghostgpu.Mig.Expand.Names.{profile_names}
use ghostgpu.Mig.Resolve.Laws.{exceeds-false_iff}
use ghostgpu.Mig.Partition.{
  PartitionError, unknown_profile, add_times, usage, judged, validate_partition,
}
use ghostgpu.Mig.Partition.Steps.{find_profile, lookup-by_name, product_le, part_le, slices_step}

module _ (P : Platform) (L : IsLawful P) where
  amount-add_times :
      (n : ℕ) (m used : P.Quantity)
      → L.amount (add_times P n m used) ≡ L.amount used +ℤ L.amount m *ℤ pos n
  unfolding add_times
  amount-add_times zero m used = rw (mul-zero (L.amount m)) (omega int_laws)
  amount-add_times (suc n) m used =
      rw (amount-add_times n m (P.add used m), L.amount-add used m, mul-suc (L.amount m) n)
        (omega int_laws)

  -- The demand with one more entry.
  abbrev add_demand : Profile P → MigPartitionEntry → Option (ℕ × ℤ) → Option (ℕ × ℤ)
  add_demand p e none = none
  add_demand p e (some (slices, memory)) =
      let n = pos_part e.count in
      some (pos_part p.slices * n + slices, L.amount p.memory *ℤ pos n +ℤ memory)

  -- The compute slices and the memory that a layout takes from one card, as exact numbers; `none` if
  -- it names a profile that the card does not support.
  pub demand : List (Profile P) → List MigPartitionEntry → Option (ℕ × ℤ)
  demand ps [] = some (0, pos 0)
  demand ps (e ∷ es) = elim (find_profile P e.profile ps) [
    | none ↦ none
    | some p ↦ add_demand p e (demand ps es)
  ]

  -- The bounds that the API server enforces on a profile's slices and on an entry's count.
  abbrev pub SlicesInBounds : Profile P → Type 0
  SlicesInBounds p = (pos 0 ≤ℤ p.slices) × (p.slices ≤ℤ pos 8)

  abbrev pub CountInBounds : MigPartitionEntry → Type 0
  CountInBounds e = (pos 0 ≤ℤ e.count) × (e.count ≤ℤ pos 8)

  find_profile-All :
      (R : Profile P → Type 0) (name : Text) (ps : List (Profile P)) (p : Profile P)
      → All R ps
      → find_profile P name ps ≡ some p
      → R p
  find_profile-All R name [] p h e = cc
  find_profile-All R name (q ∷ qs) p (hq, h) e = elim (Bool-cases (name == q.name)) [
    | inl same ↦ let found : q ≡ p = ground arith in subst R found hq
    | inr other ↦ find_profile-All R name qs p h (ground arith)
  ]

  -- What the loop over the entries returns, by the exact demand.
  abbrev Outcome :
      Option (ℕ × ℤ) → ℕ → P.Quantity → Result (PartitionError P) (ℤ × P.Quantity) → Type 0
  Outcome none n memory r = (e : PartitionError P) × (r ≡ err e)
  Outcome (some (slices, m)) n memory r =
      (used : P.Quantity) × (r ≡ ok (pos (n + slices), used))
      × (L.amount used ≡ L.amount memory +ℤ m)

  module _ (table : Table P) (distinct : Distinct (profile_names P table))
      (bounded : All SlicesInBounds table.profiles) where
    demand_missing :
        (e : MigPartitionEntry) (es : List MigPartitionEntry)
        → find_profile P e.profile table.profiles ≡ none
        → demand table.profiles (e ∷ es) ≡ none
    unfolding demand
    demand_missing e es missing = ground arith

    demand_found :
        (e : MigPartitionEntry) (es : List MigPartitionEntry) (p : Profile P)
        → find_profile P e.profile table.profiles ≡ some p
        → demand table.profiles (e ∷ es) ≡ add_demand p e (demand table.profiles es)
    unfolding demand
    demand_found e es p found = ground arith

    usage_found :
        (e : MigPartitionEntry) (es : List MigPartitionEntry) (p : Profile P) (slices : ℤ)
        (memory : P.Quantity)
        → find_profile P e.profile table.profiles ≡ some p
        → usage P table (e ∷ es) slices memory
          ≡ usage P table es
              (add32 slices (mul32 p.slices e.count))
              (add_times P (pos_part e.count) p.memory memory)
    unfolding usage
    usage_found e es p slices memory found =
        ground (arith, lookup-by_name P e.profile table.profiles distinct)

    Outcome-step :
        (e : MigPartitionEntry) (p : Profile P) (d : Option (ℕ × ℤ)) (n : ℕ) (memory : P.Quantity)
        (r : Result (PartitionError P) (ℤ × P.Quantity))
        → Outcome d
            (n + pos_part p.slices * pos_part e.count)
            (add_times P (pos_part e.count) p.memory memory)
            r
        → Outcome (add_demand p e d) n memory r
    Outcome-step e p none n memory r h = h
    Outcome-step e p (some (slices, m)) n memory r (used, same, exact) = (
      used,
      same ∙ ground arith,
      rw (amount-add_times (pos_part e.count) p.memory memory) at exact ∙ omega int_laws,
    )

    usage-Outcome :
        (es : List MigPartitionEntry) (n : ℕ) (memory : P.Quantity)
        → All CountInBounds es
        → n + 64 * length es < 2 ^ 31
        → Outcome (demand table.profiles es) n memory (usage P table es (pos n) memory)
    unfolding usage demand
    usage-Outcome [] n memory _ room = (memory, ground arith, omega int_laws)
    usage-Outcome (e ∷ es) n memory (he, hs) room =
        elim (Option-cases (find_profile P e.profile table.profiles)) [
          | inl missing ↦ rw (demand_missing e es missing) (
            unknown_profile e.profile (map (λ p. p.name) table.profiles),
            ground (arith, lookup-by_name P e.profile table.profiles distinct),
          )
          | inr (p, found) ↦
              let fits = find_profile-All SlicesInBounds e.profile table.profiles p bounded found in
              let step = slices_step n p.slices e.count fits.0 fits.1 he.0 he.1 (omega arith) in
              let small =
                product_le (pos_part p.slices) (pos_part e.count) (part_le p.slices fits.0 fits.1)
                  (part_le e.count he.0 he.1) in
              rw (demand_found e es p found, usage_found e es p (pos n) memory found, step)
                (Outcome-step e p (demand table.profiles es) n memory
                  (usage P table es (pos (n + pos_part p.slices * pos_part e.count))
                    (add_times P (pos_part e.count) p.memory memory))
                  (usage-Outcome es (n + pos_part p.slices * pos_part e.count)
                    (add_times P (pos_part e.count) p.memory memory) hs (omega arith)))
        ]

  -- Whether a demand fits the budget of the card.
  abbrev pub FitsCard : Budget P → Option (ℕ × ℤ) → Type 0
  FitsCard b none = ⊥
  FitsCard b (some (slices, memory)) = (pos slices ≤ℤ b.slices) × (memory ≤ℤ L.amount b.memory)

  judged-none_iff :
      (b : Budget P) (d : Option (ℕ × ℤ)) (m : P.Quantity)
      (r : Result (PartitionError P) (ℤ × P.Quantity))
      → L.amount m ≡ pos 0
      → Outcome d 0 m r
      → (judged P b r ≡ none) ↔ FitsCard b d
  judged-none_iff b none m r start (e, same) = rw same (λ h. cc, λ h. absurd h)
  judged-none_iff b (some (slices, memory)) m r start (used, same, exact) =
      let total : L.amount used ≡ memory = exact ∙ rw start (omega int_laws) in
      let within = exceeds-false_iff P L used b.memory in rw same (ground arith)

  -- For lawful quantities, a table of distinct names with 0 to 8 slices each and fewer than 2 ^ 24
  -- entries of counts from 0 to 8, a declared layout that is not empty is accepted exactly when all
  -- its profiles are in the table and its instances fit the slices and the memory of the card
  -- together, counted without wrap-around.
  pub validate_partition-none_iff :
      (table : Table P) (e : MigPartitionEntry) (es : List MigPartitionEntry)
      → Distinct (profile_names P table)
      → All SlicesInBounds table.profiles
      → All CountInBounds (e ∷ es)
      → length (e ∷ es) < 2 ^ 24
      → (validate_partition P (e ∷ es) table ≡ none)
        ↔ FitsCard table.budget (demand table.profiles (e ∷ es))
  unfolding validate_partition
  validate_partition-none_iff table e es distinct bounded counts room =
      judged-none_iff table.budget (demand table.profiles (e ∷ es))
        (P.new_quantity (pos 0) binary_si)
        (usage P table (e ∷ es) (pos 0) (P.new_quantity (pos 0) binary_si))
        (L.amount-new_quantity (pos 0) binary_si ∙ mul_pos 0 (10 ^ 9))
        (usage-Outcome table distinct bounded (e ∷ es) 0 (P.new_quantity (pos 0) binary_si) counts
          (omega arith))
