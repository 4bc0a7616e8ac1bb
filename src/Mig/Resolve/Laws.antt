-- ===== src/Mig/Resolve/Laws.antt =====
-- internal/mig/resolve.go: the tables that `Resolve` accepts.
use ghostgpu.Base.{
  Bool, true, false, none, List, [], ◌∷◌, map, ok, ◌≡◌, ◌≢◌, ◌↔◌, arith, Text, text_eq, All,
  All-imp, In, Distinct, inl, inr,
}
use ghostgpu.Base.Dict.{Dict, lookup, insert, lookup-insert, lookup-nil}
use ghostgpu.Base.Int.{◌≤ℤ◌}
use ghostgpu.Platform.{Platform, IsLawful}
use ghostgpu.Api.{GpuModel}
use ghostgpu.Mig.{Profile, Budget, Table}
use ghostgpu.Mig.Expand.Names.{profile_names}
use ghostgpu.Mig.Tables.Shapes.{Fits}
use ghostgpu.Mig.Resolve.{resolve, validate, base_table, exceeds, finish}

module _ (P : Platform) (L : IsLawful P) where
  pub exceeds-false_iff : (a b : P.Quantity) → (exceeds P a b ≡ false) ↔ (L.amount a ≤ℤ L.amount b)
  exceeds-false_iff a b = ground (arith, L.cmp-amount a b)

  -- No profile's name was seen before, and each differs from those behind it.
  abbrev Unseen : Dict Text Bool → List (Profile P) → Type 0
  Unseen seen [] = Unit
  Unseen seen (p ∷ ps) = (lookup p.name seen ≡ none) × Unseen (insert p.name true seen) ps

  Unseen-step :
      (name other : Text) (seen : Dict Text Bool)
      → (lookup other (insert name true seen) ≡ none)
        ↔ ((name ≢ other) × (lookup other seen ≡ none))
  Unseen-step name other seen = rw (lookup-insert other name true seen) (ground arith)

  Unseen-Distinct :
      (seen : Dict Text Bool) (ps : List (Profile P))
      → Unseen seen ps
      → Distinct (map (λ p. p.name) ps) × All (λ p. lookup p.name seen ≡ none) ps
  Unseen-Distinct seen [] h = (tt, tt)
  Unseen-Distinct seen (p ∷ ps) (fresh, h) =
      let (distinct, apart) = Unseen-Distinct (insert p.name true seen) ps h in
      let split = All-imp (λ q e. (Unseen-step p.name q.name seen).0 e) ps apart in
      ((not-In ps split, distinct), (fresh, All-imp (λ q e. e.1) ps split))
    where
      not-In :
          (qs : List (Profile P))
          → All (λ q. (p.name ≢ q.name) × (lookup q.name seen ≡ none)) qs
          → ¬ In p.name (map (λ q. q.name) qs)
      not-In [] _ i = absurd i
      not-In (q ∷ qs) (d, ds) (inl e) = d.0 e
      not-In (q ∷ qs) (d, ds) (inr i) = not-In qs ds i

  Distinct-Unseen :
      (seen : Dict Text Bool) (ps : List (Profile P))
      → Distinct (map (λ p. p.name) ps)
      → All (λ p. lookup p.name seen ≡ none) ps
      → Unseen seen ps
  Distinct-Unseen seen [] d h = tt
  Distinct-Unseen seen (p ∷ ps) (fresh, d) (new, h) =
      (new, Distinct-Unseen (insert p.name true seen) ps d (still ps fresh h))
    where
      still :
          (qs : List (Profile P))
          → ¬ In p.name (map (λ q. q.name) qs)
          → All (λ q. lookup q.name seen ≡ none) qs
          → All (λ q. lookup q.name (insert p.name true seen) ≡ none) qs
      still [] out _ = tt
      still (q ∷ qs) out (e, es) = (
        (Unseen-step p.name q.name seen).1 (λ same. out (inl same), e),
        still qs (λ i. out (inr i)) es,
      )

  validate-none_iff :
      (model : Text) (budget : Budget P) (seen : Dict Text Bool) (ps : List (Profile P))
      → (validate P model budget seen ps ≡ none) ↔ (Unseen seen ps × All (Fits P L budget) ps)
  unfolding validate
  validate-none_iff model budget seen [] = ground arith
  validate-none_iff model budget seen (p ∷ ps) = ground (
    arith,
    validate-none_iff model budget (insert p.name true seen) ps,
    exceeds-false_iff p.memory budget.memory,
  )

  abbrev nothing_seen : Dict Text Bool
  nothing_seen = []

  unseen_at_first : (ps : List (Profile P)) → All (λ p. lookup p.name nothing_seen ≡ none) ps
  unseen_at_first [] = tt
  unseen_at_first (p ∷ ps) = (lookup-nil p.name, unseen_at_first ps)

  -- What a table must be: some profile, no name twice, and every profile within the budget.
  pub record IsUsable (t : Table P) : Type 0 where
    pub some_profile : t.profiles ≢ []
    pub distinct : Distinct (profile_names P t)
    pub fits : All (Fits P L t.budget) t.profiles

  validate-IsUsable :
      (model : Text) (t : Table P)
      → t.profiles ≢ []
      → (validate P model t.budget [] t.profiles ≡ none) ↔ IsUsable t
  validate-IsUsable model t ne =
      let both = validate-none_iff model t.budget [] t.profiles in
      (
        λ e.
            let (unseen, fits) = both.0 e in
            record {
              some_profile = ne;
              distinct = (Unseen-Distinct [] t.profiles unseen).0;
              fits = fits;
            },
        λ u. both.1 (Distinct-Unseen [] t.profiles u.distinct (unseen_at_first t.profiles), u.fits),
      )

  finish-ok :
      (model : GpuModel P) (t u : Table P)
      → finish P model t t.profiles ≡ ok u
      → (u ≡ t) × (t.profiles ≢ []) × (validate P model.name t.budget [] t.profiles ≡ none)
  finish-ok model t u e = ground arith

  finish_usable :
      (model : GpuModel P) (t : Table P) → IsUsable t → finish P model t t.profiles ≡ ok t
  finish_usable model t u =
      let valid = (validate-IsUsable model.name t u.some_profile).1 u in
      ground (arith, u.some_profile)

  -- For lawful quantities, `Resolve` succeeds exactly with the model's table, when that table has a
  -- profile, no two of the same name, and each fits the budget alone.
  pub resolve-ok_iff :
      (model : GpuModel P) (t : Table P)
      → (resolve P model ≡ ok t) ↔ ((t ≡ base_table P model) × IsUsable t)
  unfolding resolve
  resolve-ok_iff model t = (
    λ e.
        let (same, ne, valid) = finish-ok model (base_table P model) t e in
        (same, rw same ((validate-IsUsable model.name (base_table P model) ne).0 valid)),
    λ (same, u). rw same (finish_usable model (base_table P model) (rw same at u)),
  )
