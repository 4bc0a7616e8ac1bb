-- ===== src/Cli/Up/Manifests/Operator.antt =====
-- The manifests of `ghostgpu up` in the eyes of the operator: what `BuildManifests` accepts, and what
-- `Reconcile` then says of it.
use mathlib.Core.Path.{subst}
use ghostgpu.Base.{
  true, some, List, [], ◌∷◌, ◌≡◌, refl, ◌∙◌, ap, inl, inr, arith, Bool-cases, Result-cases, ok,
  Text, text_eq, ◌==◌, All, Any,
}
use ghostgpu.Base.Int.{◌≤ℤ◌, ◌<ℤ◌}
use ghostgpu.Platform.{Platform, IsLawful}
use ghostgpu.Api.{OccupancyEntry, GpuModel, GpuPool, Labels, sharing_mode_mig, mig_enabled}
use ghostgpu.Mig.{Profile, Budget, Table}
use ghostgpu.Mig.Tables.{profiles_for}
use ghostgpu.Mig.Tables.Shapes.{Fits}
use ghostgpu.Mig.Resolve.{resolve, base_table}
use ghostgpu.Mig.Resolve.Laws.{IsUsable, resolve-ok_iff}
use ghostgpu.Mig.Resolve.BuiltIn.{profiles_for-HasWhole}
use ghostgpu.Gpu.Occupancy.{validate_occupancy}
use ghostgpu.Gpu.Faults.{validate_faults, validate_fault_entries}
use ghostgpu.Controller.Reconcile.{validated, mig_table, zero_table}
use ghostgpu.Controller.Reconcile.Rejects.{IsUnfit, unresolved}
use ghostgpu.Cli.Up.{UpOptions}
use ghostgpu.Cli.Up.Manifests.{
  Checks, MigParts, checked_mig, restricted, checked_occupancy, up_model, up_pool, build_manifests,
}
use ghostgpu.Cli.Up.Manifests.Accepted.{build_manifests-IsAccepted}
use ghostgpu.Cli.Up.Manifests.Layouts.{
  occupancy-valid, mig_parts-MigAccepted, operator_table, base_table-up_model, mig_table-accepted,
}

mig_is_mig : (sharing_mode_mig == sharing_mode_mig) ≡ true
unfolding text_eq
mig_is_mig = refl

module _ (P : Platform) (K : Checks P) where
  module _ (L : IsLawful P) where
    -- Every check of the operator passes on the parts of the manifest.
    validated-parts :
        (opts : UpOptions) (memory : P.Quantity) (mode : Text) (parts : MigParts P K)
        (occupancy : List OccupancyEntry) (selector : Labels)
        → checked_mig P K mode opts ≡ ok parts
        → checked_occupancy P K opts ≡ ok occupancy
        → ((t : Table P)
            → profiles_for P opts.product ≡ some t
            → L.amount t.budget.memory ≤ℤ L.amount memory)
        → (t : Table P) × (validated P
              (up_pool P K opts mode parts.1 occupancy selector)
              (up_model P K opts memory parts.0)
            ≡ ok t)
    unfolding validated mig_table mig_enabled validate_occupancy validate_faults
        validate_fault_entries up_pool checked_mig
    validated-parts opts memory mode parts occupancy selector e0 e1 more =
        let busy = occupancy-valid P K opts occupancy e1 in
        elim (Bool-cases (mode == sharing_mode_mig)) [
          | inl mig ↦
              let accepted = mig_parts-MigAccepted P K opts parts (rw mig at e0) in
              let (t, found, fit) = mig_table-accepted P K L opts memory parts accepted more in
              (t, rw (mig, found, fit, busy) refl)
          | inr whole ↦ (zero_table P, rw (whole, busy) refl)
        ]

    -- For lawful quantities, manifests that `up` accepts pass every check of the operator, MIG
    -- profiles, layout, occupancy and faults, if the memory that was asked for is at least that of
    -- the built-in card of the product, for a product that has one.
    pub build_manifests-validated :
        (opts : UpOptions) (model : GpuModel P) (pool : GpuPool P)
        → build_manifests P K opts ≡ ok (model, pool)
        → ((t : Table P)
            → profiles_for P opts.product ≡ some t
            → L.amount t.budget.memory ≤ℤ L.amount model.spec.memory)
        → (table : Table P) × (validated P pool model ≡ ok table)
    unfolding up_model
    build_manifests-validated opts model pool e more =
        let a = build_manifests-IsAccepted P K opts model pool e in
        let enough : (t : Table P)
            → profiles_for P opts.product ≡ some t
            → L.amount t.budget.memory ≤ℤ L.amount a.memory =
          λ t known.
            subst (λ (m : GpuModel P). L.amount t.budget.memory ≤ℤ L.amount m.spec.memory)
              a.model_lem (more t known) in
        let (table, h) =
          validated-parts opts a.memory a.mode a.parts a.occupancy a.selector a.parts_lem
            a.occupancy_lem enough in
        (table, rw (a.pool_lem, a.model_lem) h)

    whole-Fits :
        (t : Table P) (b : Budget P) (ps : List (Profile P))
        → Any (λ (p : Profile P). p.memory ≡ t.budget.memory) ps
        → All (Fits P L b) ps
        → L.amount t.budget.memory ≤ℤ L.amount b.memory
    whole-Fits t b [] i h = absurd i
    whole-Fits t b (p ∷ ps) (inl e) (f, h) = rw (← e) (f.1)
    whole-Fits t b (p ∷ ps) (inr i) (f, h) = whole-Fits t b ps i h

    -- A model of less memory than its product's card does not resolve, if it takes all profiles.
    undersized-unusable :
        (opts : UpOptions) (memory : P.Quantity) (t : Table P)
        → profiles_for P opts.product ≡ some t
        → L.amount memory <ℤ L.amount t.budget.memory
        → ¬ IsUsable P L (base_table P (up_model P K opts memory []))
    undersized-unusable opts memory t known less u =
        let v = subst (IsUsable P L) (base_table-up_model P K L opts memory [] t known) u in
        let enough : L.amount t.budget.memory ≤ℤ L.amount memory =
          unfold operator_table restricted in
          whole-Fits t (record { memory = memory; slices = t.budget.slices }) t.profiles
            (profiles_for-HasWhole P opts.product t known) v.fits in
        omega arith

    -- Manifests that `up` accepts can be ones that the operator rejects: a pool with MIG and all the
    -- profiles of a known product is unfit whenever the memory that was asked for is less than that
    -- of the product's built-in card, since the operator's budget is the model's memory.
    pub build_manifests-undersized :
        (opts : UpOptions) (model : GpuModel P) (pool : GpuPool P) (t : Table P)
        → build_manifests P K opts ≡ ok (model, pool)
        → pool.spec.sharing_mode ≡ sharing_mode_mig
        → model.spec.mig_profiles ≡ []
        → profiles_for P opts.product ≡ some t
        → L.amount model.spec.memory <ℤ L.amount t.budget.memory
        → IsUnfit P pool model
    unfolding up_model mig_enabled
    build_manifests-undersized opts model pool t e mig all known less =
        let a = build_manifests-IsAccepted P K opts model pool e in
        let none_named : a.parts.0 ≡ [] =
          subst (λ (m : GpuModel P). m.spec.mig_profiles ≡ []) a.model_lem all in
        let made : model ≡ up_model P K opts a.memory [] =
          a.model_lem ∙ ap (up_model P K opts a.memory) none_named in
        let smaller : L.amount a.memory <ℤ L.amount t.budget.memory =
          subst (λ (m : GpuModel P). L.amount m.spec.memory <ℤ L.amount t.budget.memory) a.model_lem
            less in
        elim (Result-cases (resolve P model)) [
          | inr (x, failed) ↦ unresolved x (rw mig mig_is_mig) failed
          | inl (u, found) ↦
              let (same, usable) = (resolve-ok_iff P L model u).0 found in
              absurd (
                undersized-unusable opts a.memory t known smaller (
                  subst (λ (m : GpuModel P). IsUsable P L (base_table P m)) made
                    (subst (IsUsable P L) same usable)))
        ]
