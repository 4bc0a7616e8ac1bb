-- ===== src/Cli/Up/Selection.antt =====
-- internal/cli/up.go: the profiles that `migSelection` takes of a table.
use ghostgpu.Base.{
  not, Option, none, some, List, [], ◌∷◌, map, keep, ◌≡◌, refl, ◌⊎◌, inl, inr, arith, Bool-cases,
  ok, Text, text_eq, ◌==◌, All, In, Distinct, is_in,
}
use ghostgpu.Platform.{Platform}
use ghostgpu.Api.{MigProfileSpec}
use ghostgpu.Mig.{Profile, Table}
use ghostgpu.Mig.Tables.{profiles_for}
use ghostgpu.Text.Split.{split, trim_space}
use ghostgpu.Cli.Up.{
  UpOptions, spec_of, select_profiles, wanted_names, selected_or_missing, selection_from,
  mig_selection,
}

module _ (P : Platform) where
  abbrev pub spec_names : List (MigProfileSpec P) → List Text
  spec_names = map (λ s. s.name)

  -- The profiles of a list, some left out and their order kept.
  pub data Selects : List (Profile P) → List (MigProfileSpec P) → Type 0 where
    nothing : Selects [] []
    leave :
        (p : Profile P) {ps : List (Profile P)} {ss : List (MigProfileSpec P)}
        → Selects ps ss
        → Selects (p ∷ ps) ss
    choose :
        (p : Profile P) {ps : List (Profile P)} {ss : List (MigProfileSpec P)}
        → Selects ps ss
        → Selects (p ∷ ps) (spec_of P p ∷ ss)

  select_profiles-Selects :
      (wanted : List Text) (ps : List (Profile P)) → Selects ps (select_profiles P wanted ps).0
  unfolding select_profiles
  select_profiles-Selects wanted [] = nothing
  select_profiles-Selects wanted (p ∷ ps) = elim (Bool-cases (is_in p.name wanted)) [
    | inl h ↦ rw h (choose p (select_profiles-Selects (keep (λ n. not (n == p.name)) wanted) ps))
    | inr h ↦ rw h (leave p (select_profiles-Selects wanted ps))
  ]

  pub Selects-All :
      (Q : MigProfileSpec P → Type 0) {ps : List (Profile P)} {ss : List (MigProfileSpec P)}
      → Selects ps ss
      → All (λ p. Q (spec_of P p)) ps
      → All Q ss
  Selects-All Q nothing h = tt
  Selects-All Q (leave p s) (q, h) = Selects-All Q s h
  Selects-All Q (choose p s) (q, h) = (q, Selects-All Q s h)

  Selects-In :
      (n : Text) {ps : List (Profile P)} {ss : List (MigProfileSpec P)}
      → Selects ps ss
      → In n (spec_names ss)
      → In n (map (λ p. p.name) ps)
  Selects-In n nothing i = absurd i
  Selects-In n (leave p s) i = inr (Selects-In n s i)
  Selects-In n (choose p s) (inl e) = inl e
  Selects-In n (choose p s) (inr i) = inr (Selects-In n s i)

  pub Selects-Distinct :
      {ps : List (Profile P)} {ss : List (MigProfileSpec P)}
      → Selects ps ss
      → Distinct (map (λ (p : Profile P). p.name) ps)
      → Distinct (spec_names ss)
  Selects-Distinct nothing d = tt
  Selects-Distinct (leave p s) (f, d) = Selects-Distinct s d
  Selects-Distinct (choose p s) (f, d) = (λ i. f (Selects-In p.name s i), Selects-Distinct s d)

  -- The selection that is returned without an error: none, or profiles of the table.
  abbrev Sound : Option (Table P) → List (MigProfileSpec P) → Type 0
  Sound table ss = (t : Table P) × (table ≡ some t) × ((ss ≡ []) ⊎ Selects t.profiles ss)

  selected-eq :
      (product : Text) (t : Table P) (r : List (MigProfileSpec P) × List Text)
      (ss : List (MigProfileSpec P))
      → selected_or_missing P product t r ≡ ok ss
      → ss ≡ r.0
  selected-eq product t (selected, []) ss e = cc
  selected-eq product t (selected, w ∷ ws) ss e = cc

  selection_from-Sound :
      (product profiles : Text) (table : Option (Table P)) (ss : List (MigProfileSpec P))
      → selection_from P product profiles table ≡ ok ss
      → Sound table ss
  selection_from-Sound product profiles none ss e = cc
  selection_from-Sound product profiles (some t) ss e =
      elim (Bool-cases (trim_space profiles == [])) [
        | inl blank ↦ (t, refl, inl (ground arith))
        | inr more ↦
            let wanted = wanted_names [] (split b',' profiles) in
            let chosen : selected_or_missing P product t (select_profiles P wanted t.profiles)
                ≡ ok ss =
              rw more at e in
            (
              t,
              refl,
              inr (
                  rw (selected-eq product t (select_profiles P wanted t.profiles) ss chosen)
                    (select_profiles-Selects wanted t.profiles)),
            )
      ]

  pub mig_selection-Sound :
      (opts : UpOptions) (ss : List (MigProfileSpec P))
      → mig_selection P opts ≡ ok ss
      → (t : Table P) × (profiles_for P opts.product ≡ some t) × ((ss ≡ []) ⊎ Selects t.profiles ss)
  unfolding mig_selection
  mig_selection-Sound opts ss e =
      selection_from-Sound opts.product opts.mig_profiles (profiles_for P opts.product) ss e
