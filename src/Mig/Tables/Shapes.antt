-- ===== src/Mig/Tables/Shapes.antt =====
-- internal/mig/profiles.go: the built-in tables, their names and their budgets.
use ghostgpu.Base.{
  ℕ, List, map, Bool, ◌^◌, ◌≤◌, ◌<◌, true, false, Option, none, some, [], ◌∷◌, ◌++◌, ◌≡◌, refl, sym,
  ◌∙◌, arith, Text, codes, All, if◌then◌else◌,
}
use mathlib.Core.Path.{subst}
use ghostgpu.Base.Int.{pos, ◌≤ℤ◌}
use ghostgpu.Text.{decimal, contains}
use ghostgpu.Platform.{Platform, IsLawful}
use ghostgpu.Mig.{Profile, Budget, Table}
use ghostgpu.Mig.Parse.{parse_profile_name, profile_of}
use ghostgpu.Mig.Parse.RoundTrip.{profile_name, parse_profile_name_wrapped, memory-eq-named_iff}
use ghostgpu.Mig.Tables.{
  profiles_for, normalize, profile, a100_40, a100_80, h100_80, family_a100, family_h100,
  capacity_40,
}
use ghostgpu.Mig.Tables.Lookup.{profiles_for-eq_table_of}

module _ (P : Platform) (L : IsLawful P) where
  -- The profile's own name describes its slices and its memory.
  abbrev pub IsNamed : Profile P → Type 0
  IsNamed p =
      (q : Profile P) × (parse_profile_name P p.name ≡ some q)
      × (q.slices ≡ p.slices)
      × (L.amount q.memory ≡ L.amount p.memory)

  -- The profile can be allocated on a card that has this budget.
  abbrev pub Fits : Budget P → Profile P → Type 0
  Fits b p = (p.slices ≤ℤ b.slices) × (L.amount p.memory ≤ℤ L.amount b.memory)

  profile-IsNamed :
      (slices gib : ℕ)
      → 0 < slices
      → slices < 2 ^ 31
      → 0 < gib
      → gib < 2 ^ 33
      → IsNamed (profile P (profile_name slices gib) (decimal gib ++ codes "Gi") (pos slices))
  profile-IsNamed slices gib h0 h1 h2 h3 =
      let name = profile_name slices gib in
      let read = parse_profile_name_wrapped P slices gib h0 h1 h2 (omega arith) in
      let p = profile_of P name (pos slices) (pos gib) in
      let exact = (memory-eq-named_iff P L slices gib p h0 h1 h2 (omega arith) read).1 h3 in
      (p, read, refl, exact ∙ sym (L.amount-must_parse gib))

  -- One slice count and memory size of a table: the name agrees, and the budget holds it.
  entry :
      (slices gib total : ℕ)
      → 0 < slices
      → slices ≤ 7
      → 0 < gib
      → gib ≤ total
      → total < 2 ^ 33
      → let p = profile P (profile_name slices gib) (decimal gib ++ codes "Gi") (pos slices) in
        let b : Budget P = record {
          memory = P.must_parse (decimal total ++ codes "Gi");
          slices = pos 7;
        } in
        IsNamed p × Fits b p
  entry slices gib total h0 h1 h2 h3 h4 = (
    profile-IsNamed slices gib h0 (omega arith) h2 (omega arith),
    (omega arith, rw (L.amount-must_parse gib, L.amount-must_parse total) (omega arith)),
  )

  abbrev card : ℕ → Budget P
  card total = record { memory = P.must_parse (decimal total ++ codes "Gi"); slices = pos 7 }

  abbrev row : ℕ × ℕ → Profile P
  row (slices, gib) = profile P (profile_name slices gib) (decimal gib ++ codes "Gi") (pos slices)

  abbrev InRange : ℕ → ℕ × ℕ → Type 0
  InRange total (slices, gib) = (0 < slices) × (slices ≤ 7) × (0 < gib) × (gib ≤ total)

  rows :
      (total : ℕ) (es : List (ℕ × ℕ))
      → total < 2 ^ 33
      → All (InRange total) es
      → All (λ p. IsNamed p × Fits (card total) p) (map row es)
  rows total [] h _ = tt
  rows total ((slices, gib) ∷ es) h ((h0, h1, h2, h3), rest) =
      (entry slices gib total h0 h1 h2 h3 h, rows total es h rest)

  -- Each profile's name describes it, and the budget can carry it.
  abbrev pub AgreesWithNames : Table P → Type 0
  AgreesWithNames t = All (λ p. IsNamed p × Fits t.budget p) t.profiles

  a100_40-AgreesWithNames : AgreesWithNames (a100_40 P)
  unfolding decimal
  a100_40-AgreesWithNames =
      rows 40 ((1, 5) ∷ (2, 10) ∷ (3, 20) ∷ (4, 20) ∷ (7, 40) ∷ []) (omega arith) (omega arith)

  a100_80-AgreesWithNames : AgreesWithNames (a100_80 P)
  unfolding decimal
  a100_80-AgreesWithNames =
      rows 80 ((1, 10) ∷ (2, 20) ∷ (3, 40) ∷ (4, 40) ∷ (7, 80) ∷ []) (omega arith) (omega arith)

  h100_80-AgreesWithNames : AgreesWithNames (h100_80 P)
  unfolding decimal
  h100_80-AgreesWithNames =
      rows 80 ((1, 10) ∷ (1, 20) ∷ (2, 20) ∷ (3, 40) ∷ (4, 40) ∷ (7, 80) ∷ []) (omega arith)
        (omega arith)

  abbrev OnSome : (Table P → Type 0) → Option (Table P) → Type 0
  OnSome R none = Unit
  OnSome R (some t) = R t

  table_of-cases :
      (a c h : Bool)
      → OnSome AgreesWithNames (
          if a
          then (if c then some (a100_40 P) else some (a100_80 P))
          else (if h then some (h100_80 P) else none))
  table_of-cases true true h = a100_40-AgreesWithNames
  table_of-cases true false h = a100_80-AgreesWithNames
  table_of-cases false c true = h100_80-AgreesWithNames
  table_of-cases false c false = tt

  -- For lawful quantities, whatever table a product finds, the name of each of its profiles reads
  -- as that profile's slices and memory, and the table's budget holds the profile.
  pub profiles_for-AgreesWithNames :
      (product : Text) (t : Table P) → profiles_for P product ≡ some t → AgreesWithNames t
  profiles_for-AgreesWithNames product t e =
      subst (OnSome AgreesWithNames) (sym (profiles_for-eq_table_of P product) ∙ e) (
        table_of-cases (contains family_a100 (normalize product))
          (contains capacity_40 (normalize product)) (contains family_h100 (normalize product)))
