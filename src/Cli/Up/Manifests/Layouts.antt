-- ===== src/Cli/Up/Manifests/Layouts.antt =====
-- The MIG parts of the manifests of `ghostgpu up`: the table that the operator makes of the model, and
-- the layout on it.
use mathlib.Core.Path.{subst}
use ghostgpu.Base.{
  Option, none, some, List, [], ◌∷◌, map, ◌≡◌, refl, sym, ap, ◌⊎◌, inl, inr, arith, Result, ok, err,
  >>=-eq-ok, >>-eq-ok, text_eq, All, All-imp, Distinct,
}
use ghostgpu.Base.Int.{◌≤ℤ◌}
use ghostgpu.Platform.{Platform, IsLawful}
use ghostgpu.Api.{MigPartitionEntry, MigProfileSpec, OccupancyEntry}
use ghostgpu.Mig.{Profile, Table}
use ghostgpu.Mig.Tables.{profiles_for}
use ghostgpu.Mig.Tables.Shapes.{Fits}
use ghostgpu.Mig.Partition.{PartitionError, validate_partition}
use ghostgpu.Mig.Partition.Larger.{validate_partition_mono}
use ghostgpu.Mig.Resolve.{resolve, base_table, base_profiles, override_budget}
use ghostgpu.Mig.Resolve.Laws.{IsUsable, resolve-ok_iff}
use ghostgpu.Mig.Resolve.BuiltIn.{profiles_for-IsUsable}
use ghostgpu.Gpu.Occupancy.{validate_occupancy_entries}
use ghostgpu.Cli.Up.{UpOptions, mig_selection, parse_partition}
use ghostgpu.Cli.Up.Selection.{Selects, Selects-All, Selects-Distinct, mig_selection-Sound}
use ghostgpu.Cli.Up.Manifests.{
  Checks, MigParts, wrapped, fits, mig_parts, checked_layout, restricted, checked_occupancy,
  up_model, selection_error, partition_error,
}

module _ (P : Platform) (K : Checks P) where
  -- The occupancy of accepted options is one that the operator accepts.
  pub occupancy-valid :
      (opts : UpOptions) (occupancy : List OccupancyEntry)
      → checked_occupancy P K opts ≡ ok occupancy
      → validate_occupancy_entries opts.gpus_per_node occupancy ≡ none
  unfolding checked_occupancy validate_occupancy_entries
  occupancy-valid opts occupancy e = ground arith

  -- What accepted MIG options are made of.
  pub record MigAccepted (opts : UpOptions) (parts : MigParts P K) : Type 0 where
    pub profiles_lem : mig_selection P opts ≡ ok parts.0
    pub layout_lem : checked_layout P K parts.1 parts.0 (profiles_for P opts.product) ≡ ok tt

  wrapped-eq-ok :
      {D E A : Type 0} (f : D → E) (r : Result D A) (a : A) → wrapped f r ≡ ok a → r ≡ ok a
  wrapped-eq-ok f (ok b) a e = ground arith
  wrapped-eq-ok f (err d) a e = cc

  ok_pair :
      {E A B : Type 0} (p : A × B) (c : A) (d : B)
      → ◌≡◌ {A = Result E (A × B)} (ok (c, d)) (ok p)
      → (c ≡ p.0) × (d ≡ p.1)
  ok_pair p c d e = ground arith

  pub mig_parts-MigAccepted :
      (opts : UpOptions) (parts : MigParts P K)
      → mig_parts P K opts ≡ ok parts
      → MigAccepted opts parts
  unfolding mig_parts
  mig_parts-MigAccepted opts parts e =
      let (profiles, e0, h0) = >>=-eq-ok (wrapped selection_error (mig_selection P opts)) _ e in
      let (partition, e1, h1) =
        >>=-eq-ok (wrapped partition_error (parse_partition opts.mig_partition)) _ h0 in
      let (a, e2, h2) =
        >>-eq-ok (checked_layout P K partition profiles (profiles_for P opts.product)) _ h1 in
      let same = ok_pair parts profiles partition h2 in
      record {
        profiles_lem =
            rw (← same.0) (wrapped-eq-ok selection_error (mig_selection P opts) profiles e0);
        layout_lem = rw (← same.0, ← same.1) e2;
      }

  module _ (L : IsLawful P) where
    -- The table that the operator makes of the manifest: the profiles are those that the layout was
    -- checked against, the memory is the model's.
    unfoldable pub operator_table : Table P → P.Quantity → List (MigProfileSpec P) → Table P
    operator_table t memory specs = record (restricted P K t specs) {
      budget = record { memory = memory; slices = t.budget.slices };
    }

    pub base_table-up_model :
        (opts : UpOptions) (memory : P.Quantity) (specs : List (MigProfileSpec P)) (t : Table P)
        → profiles_for P opts.product ≡ some t
        → base_table P (up_model P K opts memory specs) ≡ operator_table t memory specs
    unfolding base_table operator_table up_model restricted base_profiles override_budget
    base_table-up_model opts memory [] t e = rw e refl
    base_table-up_model opts memory (s ∷ ss) t e = rw e refl

    abbrev converted : MigProfileSpec P → Profile P
    converted x = record { name = x.name; memory = x.memory; slices = x.slices }

    converted_names :
        (ss : List (MigProfileSpec P))
        → map (λ (p : Profile P). p.name) (map converted ss)
          ≡ map (λ (x : MigProfileSpec P). x.name) ss
    converted_names [] = refl
    converted_names (s ∷ ss) = ap (◌∷◌ s.name) (converted_names ss)

    All-converted :
        (Q : Profile P → Type 0) (ss : List (MigProfileSpec P))
        → All (λ x. Q (converted x)) ss
        → All Q (map converted ss)
    All-converted Q [] h = tt
    All-converted Q (s ∷ ss) (q, h) = (q, All-converted Q ss h)

    abbrev Carries : Table P → P.Quantity → MigProfileSpec P → Type 0
    Carries t memory x =
        Fits P L (record { memory = memory; slices = t.budget.slices }) (converted x)

    restricted-budget :
        (t : Table P) (specs : List (MigProfileSpec P)) → (restricted P K t specs).budget ≡ t.budget
    unfolding restricted
    restricted-budget t [] = refl
    restricted-budget t (s ∷ ss) = refl

    fits-none : (r : Option (PartitionError P)) → fits P K r ≡ ok tt → r ≡ none
    fits-none none e = refl
    fits-none (some x) e = cc

    layout_accepted :
        (t : Table P) (memory : P.Quantity) (specs : List (MigProfileSpec P))
        (es : List MigPartitionEntry)
        → L.amount t.budget.memory ≤ℤ L.amount memory
        → checked_layout P K es specs (some t) ≡ ok tt
        → validate_partition P es (operator_table t memory specs) ≡ none
    unfolding operator_table checked_layout
    layout_accepted t memory specs [] more e = unfold validate_partition in refl
    layout_accepted t memory specs (x ∷ xs) more e =
        validate_partition_mono P L (restricted P K t specs)
          (record { memory = memory; slices = t.budget.slices }) (x ∷ xs)
          (rw (restricted-budget t specs) refl) (rw (restricted-budget t specs) more)
          (fits-none _ e)

    operator_table-IsUsable :
        (t : Table P) (memory : P.Quantity) (specs : List (MigProfileSpec P))
        → IsUsable P L t
        → L.amount t.budget.memory ≤ℤ L.amount memory
        → (specs ≡ []) ⊎ Selects P t.profiles specs
        → IsUsable P L (operator_table t memory specs)
    unfolding operator_table restricted
    operator_table-IsUsable t memory [] u more chosen = record {
      some_profile = u.some_profile;
      distinct = u.distinct;
      fits = All-imp (λ p f. wider p f) t.profiles u.fits;
    }
      where
        wider :
            (p : Profile P)
            → Fits P L t.budget p
            → Fits P L (record { memory = memory; slices = t.budget.slices }) p
        wider p (s, m) = (s, omega arith)
    operator_table-IsUsable t memory (s ∷ ss) u more (inl e) = absurd (cc)
    operator_table-IsUsable t memory (s ∷ ss) u more (inr chosen) = record {
      some_profile = λ e. cc;
      distinct =
          subst Distinct (sym (converted_names (s ∷ ss))) (Selects-Distinct P chosen u.distinct);
      fits =
          All-converted (Fits P L (record { memory = memory; slices = t.budget.slices })) (s ∷ ss) (
            Selects-All P (λ x. Carries t memory x) chosen
              (All-imp (λ p (f : Fits P L t.budget p). (f.0, omega arith)) t.profiles u.fits));
    }

    -- With at least the memory of the product's card, the operator resolves the model and accepts
    -- the layout.
    pub mig_table-accepted :
        (opts : UpOptions) (memory : P.Quantity) (parts : MigParts P K)
        → MigAccepted opts parts
        → ((t : Table P)
            → profiles_for P opts.product ≡ some t
            → L.amount t.budget.memory ≤ℤ L.amount memory)
        → (t : Table P) × (resolve P (up_model P K opts memory parts.0) ≡ ok t)
          × (validate_partition P parts.1 t ≡ none)
    mig_table-accepted opts memory parts a more =
        let (t, known, chosen) = mig_selection-Sound P opts parts.0 a.profiles_lem in
        let usable =
          operator_table-IsUsable t memory parts.0 (profiles_for-IsUsable P L opts.product t known)
            (more t known) chosen in
        let base = base_table-up_model opts memory parts.0 t known in
        (
          operator_table t memory parts.0,
          (resolve-ok_iff P L (up_model P K opts memory parts.0)
                (operator_table t memory parts.0)).1
              (sym base, usable),
          layout_accepted t memory parts.0 parts.1 (more t known) (rw known at a.layout_lem),
        )
