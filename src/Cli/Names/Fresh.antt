-- ===== src/Cli/Names/Fresh.antt =====
-- The names that a namer hands out.
use ghostgpu.Base.{
  ℕ, zero, suc, ◌≤◌, ◌<◌, false, List, [], ◌∷◌, ◌++◌, length, ◌≡◌, refl, ap, ◌⊎◌, inl, inr, arith,
  Bool-cases, All, In, Distinct, Text, text_eq, is_in, is_in-In, not-is_in, pigeonhole,
}
use ghostgpu.Text.{format_int, decimal}
use ghostgpu.Text.Decimal.{decimal_inj}
use ghostgpu.Cli.Names.{pick_from, pick}

candidate : Text → ℕ → Text
candidate base i = base ++ (b'-' ∷ decimal i)

append-cancel : (base s t : Text) → base ++ s ≡ base ++ t → s ≡ t
append-cancel [] s t e = e
append-cancel (c ∷ base) s t e = append-cancel base s t (ground arith)

candidate_inj : (base : Text) (i j : ℕ) → candidate base i ≡ candidate base j → i ≡ j
unfolding candidate
candidate_inj base i j e =
    let tails : b'-' ∷ decimal i ≡ b'-' ∷ decimal j =
      append-cancel base (b'-' ∷ decimal i) (b'-' ∷ decimal j) e in
    decimal_inj i j (ground arith)

candidates : Text → ℕ → ℕ → List Text
candidates base i zero = []
candidates base i (suc n) = candidate base i ∷ candidates base (suc i) n

length-candidates : (base : Text) (i n : ℕ) → length (candidates base i n) ≡ n
unfolding candidates
length-candidates base i zero = refl
length-candidates base i (suc n) = ap suc (length-candidates base (suc i) n)

candidate-fresh : (base : Text) (k i n : ℕ) → k < i → ¬ In (candidate base k) (candidates base i n)
unfolding candidates
candidate-fresh base k i zero h at = absurd at
candidate-fresh base k i (suc n) h (inl e) =
    let same : k ≡ i = candidate_inj base k i e in absurd (omega arith)
candidate-fresh base k i (suc n) h (inr at) = candidate-fresh base k (suc i) n (omega arith) at

candidates-Distinct : (base : Text) (i n : ℕ) → Distinct (candidates base i n)
unfolding candidates
candidates-Distinct base i zero = tt
candidates-Distinct base i (suc n) =
    (candidate-fresh base i (suc i) n (omega arith), candidates-Distinct base (suc i) n)

-- The search ends with a name that is not taken, or all its candidates are.
pick_from-fresh :
    (fuel i : ℕ) (base : Text) (taken : List Text)
    → (is_in (pick_from fuel i base taken) taken ≡ false)
      ⊎ All (λ c. In c taken) (candidates base i fuel)
unfolding pick_from candidates candidate format_int
pick_from-fresh zero i base taken = inr tt
pick_from-fresh (suc fuel) i base taken =
    elim (Bool-cases (is_in (base ++ (b'-' ∷ decimal i)) taken)) [
      | inl there ↦ elim (pick_from-fresh fuel (suc i) base taken) [
        | inl fresh ↦ inl (rw there fresh)
        | inr all ↦ inr (is_in-In (base ++ (b'-' ∷ decimal i)) taken there, all)
      ]
      | inr free ↦ inl (rw free free)
    ]

-- A name that is picked was not taken, so the search has ended within its fuel.
pub pick-fresh : (taken : List Text) (base : Text) → is_in (pick taken base).0 taken ≡ false
unfolding pick
pick-fresh taken base = elim (Bool-cases (is_in base taken)) [
  | inl there ↦ elim (pick_from-fresh (suc (length taken)) 2 base taken) [
    | inl fresh ↦ rw there fresh
    | inr all ↦
        let many : length (candidates base 2 (suc (length taken))) ≤ length taken =
          pigeonhole (candidates base 2 (suc (length taken))) taken
            (candidates-Distinct base 2 (suc (length taken))) all in
        absurd (omega (arith, length-candidates base 2 (suc (length taken))))
  ]
  | inr free ↦ rw free free
]

-- A name that is picked is put with those taken.
pub pick-taken :
    (taken : List Text) (base : Text) → (pick taken base).1 ≡ (pick taken base).0 ∷ taken
unfolding pick
pick-taken taken base = ground arith

pub pick-Distinct :
    (taken : List Text) (base : Text) → Distinct taken → Distinct (pick taken base).1
pick-Distinct taken base d =
    rw (pick-taken taken base) (not-is_in (pick taken base).0 taken (pick-fresh taken base), d)
