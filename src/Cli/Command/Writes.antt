-- ===== src/Cli/Command/Writes.antt =====
-- cmd/ghostgpu/main.go: what `ghostgpu up` changes in the cluster.
use mathlib.Core.Path.{subst}
use ghostgpu.Base.{
  codes, ◌-◌, ◌^◌, Bool, false, ◌||◌, List, [], ◌∷◌, ◌≡◌, refl, sym, ◌∙◌, ap, arith, ◌⊎◌, inl, inr,
  Bool-cases, Result, ok, err, Result-cases, >>=-eq-ok, Text, Option, none, some,
}
use ghostgpu.Base.Int.{ℤ, pos, negsuc, ltb_ℤ, wrap32, IsInt32, wrap32_id}
use ghostgpu.Platform.{Platform}
use ghostgpu.Api.{GpuModel, GpuPool}
use ghostgpu.Cli.Objects.{Object, model_object, pool_object}
use ghostgpu.Cli.Up.{UpOptions}
use ghostgpu.Cli.Up.Manifests.{Checks, build_manifests}
use ghostgpu.Cli.Apply.{Server, ApplyError, Line, Poll, apply}
use ghostgpu.Cli.Command.{
  UpFlags, CommandError, out_of_range, not_built, narrowed, up_options, built, up_objects, Outside,
  after_apply, connected, printed, run_up,
}

-- Each of the three numbers is one that an int32 holds.
abbrev pub AllFit : UpFlags → Type 0
AllFit flags = IsInt32 flags.gpus × IsInt32 flags.nvlink × IsInt32 flags.busy

-- The options as the user gave them, the three numbers as they were typed.
abbrev pub as_typed : UpFlags → UpOptions
as_typed flags = record (flags.given) {
  gpus_per_node = flags.gpus;
  nvlink_domain_size = flags.nvlink;
  busy_per_node = flags.busy;
}

module _ (P : Platform) where
  ok_inj : {A : Type 0} (a b : A) → ◌≡◌ {A = Result (CommandError P) A} (ok a) (ok b) → a ≡ b
  ok_inj a b e = cc

  err_is_not_ok :
      {A : Type 0} (why : CommandError P) (a : A)
      → ◌≡◌ {A = Result (CommandError P) A} (err why) (ok a)
      → ⊥
  err_is_not_ok why a e = cc

  narrowed-ok :
      (flag : Text) (value n : ℤ) → narrowed P flag value ≡ ok n → (n ≡ value) × IsInt32 value
  unfolding narrowed
  narrowed-ok flag value n e =
      elim (Bool-cases (ltb_ℤ (pos (2 ^ 31 - 1)) value || ltb_ℤ value (negsuc (2 ^ 31 - 1)))) [
        | inl outside ↦ absurd (err_is_not_ok (out_of_range flag value) n (rw outside at e))
        | inr inside ↦
            let fits : IsInt32 value = ground arith in
            (sym (ok_inj (wrap32 value) n (rw inside at e)) ∙ wrap32_id value fits, fits)
      ]

  IsInt32-narrowed : (flag : Text) (value : ℤ) → IsInt32 value → narrowed P flag value ≡ ok value
  unfolding narrowed
  IsInt32-narrowed flag value fits =
      let inside : ltb_ℤ (pos (2 ^ 31 - 1)) value || ltb_ℤ value (negsuc (2 ^ 31 - 1)) ≡ false =
        ground arith in
      rw (inside, wrap32_id value fits) refl

  up_options-ok :
      (flags : UpFlags) (opts : UpOptions)
      → up_options P flags ≡ ok opts
      → AllFit flags × (opts ≡ as_typed flags)
  unfolding up_options
  up_options-ok flags opts e =
      let (g, e0, rest0) = >>=-eq-ok (narrowed P (codes "gpus-per-node") flags.gpus) _ e in
      let (n, e1, rest1) =
        >>=-eq-ok (narrowed P (codes "nvlink-domain-size") flags.nvlink) _ rest0 in
      let (b, e2, rest2) = >>=-eq-ok (narrowed P (codes "busy-per-node") flags.busy) _ rest1 in
      let (g_same, g_fits) = narrowed-ok (codes "gpus-per-node") flags.gpus g e0 in
      let (n_same, n_fits) = narrowed-ok (codes "nvlink-domain-size") flags.nvlink n e1 in
      let (b_same, b_fits) = narrowed-ok (codes "busy-per-node") flags.busy b e2 in
      ((g_fits, n_fits, b_fits), sym (ok_inj _ opts rest2) ∙ rw (g_same, n_same, b_same) refl)

  AllFit-up_options : (flags : UpFlags) → AllFit flags → up_options P flags ≡ ok (as_typed flags)
  unfolding up_options
  AllFit-up_options flags (g, n, b) =
      rw
        (
          IsInt32-narrowed (codes "gpus-per-node") flags.gpus g,
          IsInt32-narrowed (codes "nvlink-domain-size") flags.nvlink n,
          IsInt32-narrowed (codes "busy-per-node") flags.busy b,
        )
        refl

  module _ (K : Checks P) where
    -- What has to hold for the command to write: it is no dry run, every number fits an int32, the
    -- manifests of what was typed are accepted, and the cluster is reached.
    pub record Goes (flags : UpFlags) (outside : Outside P) : Type 0 where
      pub model : GpuModel P
      pub pool : GpuPool P
      pub not_dry : flags.dry_run ≡ false
      pub fit : AllFit flags
      pub accepted : build_manifests P K (as_typed flags) ≡ ok (model, pool)
      pub reached : outside.connection ≡ ok tt

    up_objects-ok :
        (flags : UpFlags) (objects : List (Object P))
        → up_objects P K flags ≡ ok objects
        → AllFit flags
          × (model : GpuModel P) × (pool : GpuPool P) × (build_manifests P K (as_typed flags)
              ≡ ok (model, pool))
          × (objects ≡ model_object model ∷ pool_object pool ∷ [])
    unfolding up_objects
    up_objects-ok flags objects e =
        let (opts, e0, e1) = >>=-eq-ok (up_options P flags) (built P K) e in
        let (fit, same) = up_options-ok flags opts e0 in
        elim (Result-cases (build_manifests P K opts)) [
          | inl ((model, pool), made) ↦ (
            fit,
            model,
            pool,
            subst (λ o. build_manifests P K o ≡ ok (model, pool)) same made,
            sym (ok_inj _ objects (rw (made, built) at e1)),
          )
          | inr (why, refused) ↦
              absurd (err_is_not_ok (not_built why) objects (rw (refused, built) at e1))
        ]

    accepted-up_objects :
        (flags : UpFlags) (model : GpuModel P) (pool : GpuPool P)
        → AllFit flags
        → build_manifests P K (as_typed flags) ≡ ok (model, pool)
        → up_objects P K flags ≡ ok (model_object model ∷ pool_object pool ∷ [])
    unfolding up_objects
    accepted-up_objects flags model pool fit made =
        rw (AllFit-up_options flags fit, built, made) refl

    module _ (S : Server P) where
      after_apply-store :
          (error : Option ApplyError) (lines : List Line) (store : S.Store) (waits : Bool)
          (polls : List (Poll P))
          → (after_apply P S error lines store waits polls).store ≡ store
      after_apply-store none lines store waits polls = refl
      after_apply-store (some e) lines store waits polls = refl

      printed-store :
          (text : Result Text Text) (store : S.Store) → (printed P S text store).store ≡ store
      printed-store (ok text) store = refl
      printed-store (err e) store = refl

      -- The store of an application of the two manifests.
      abbrev pub applied_store : GpuModel P → GpuPool P → S.Store → S.Store
      applied_store model pool store =
          (apply P S (model_object model ∷ pool_object pool ∷ []) store).store

      connected-store :
          (waits : Bool) (outside : Outside P) (objects : List (Object P)) (store : S.Store)
          → (connected P S (ok tt) waits outside objects store).store
            ≡ (apply P S objects store).store
      connected-store waits outside objects store =
          let a = apply P S objects store in
          after_apply-store a.error a.lines a.store waits outside.polls

      run_up-connected :
          (flags : UpFlags) (outside : Outside P) (objects : List (Object P)) (store : S.Store)
          → up_objects P K flags ≡ ok objects
          → flags.dry_run ≡ false
          → (run_up P S K flags outside store).store
            ≡ (connected P S outside.connection flags.waits outside objects store).store
      unfolding run_up
      run_up-connected flags outside objects store made not_dry = rw (made, not_dry) refl

      -- When the command goes, what it leaves; the server is asked for nothing but the application.
      Goes-applied :
          (flags : UpFlags) (outside : Outside P) (store : S.Store) (g : Goes flags outside)
          → (run_up P S K flags outside store).store ≡ applied_store g.model g.pool store
      Goes-applied flags outside store g =
          let objects = model_object g.model ∷ pool_object g.pool ∷ [] in
          run_up-connected flags outside objects store
            (accepted-up_objects flags g.model g.pool g.fit g.accepted) g.not_dry
          ∙ ap (λ c. (connected P S c flags.waits outside objects store).store) g.reached
          ∙ connected-store flags.waits outside objects store

      -- The command goes, or it leaves the store as it was.
      decided :
          (flags : UpFlags) (outside : Outside P) (store : S.Store)
          → Goes flags outside
            ⊎ ((¬ Goes flags outside) × ((run_up P S K flags outside store).store ≡ store))
      unfolding run_up
      decided flags outside store = elim (Result-cases (up_objects P K flags)) [
        | inr (why, refused) ↦ inr (
          (λ g.
              let go = accepted-up_objects flags g.model g.pool g.fit g.accepted in
              err_is_not_ok why _ (sym refused ∙ go)),
          rw refused refl,
        )
        | inl (objects, made) ↦ elim (Bool-cases flags.dry_run) [
          | inl dry ↦ inr (
            (λ g. let off = g.not_dry in cc),
            rw (made, dry) (printed-store (outside.render objects) store),
          )
          | inr not_dry ↦ elim (Result-cases outside.connection) [
            | inr (error, unreached) ↦ inr (
              (λ g. let on = g.reached in cc),
              run_up-connected flags outside objects store made not_dry
                  ∙ ap (λ c. (connected P S c flags.waits outside objects store).store) unreached,
            )
            | inl (done, reached) ↦
                let (fit, model, pool, accepted, same) = up_objects-ok flags objects made in
                inl (record {
                  model = model;
                  pool = pool;
                  not_dry = not_dry;
                  fit = fit;
                  accepted = accepted;
                  reached = reached;
                })
          ]
        ]
      ]

      -- If it is no dry run, every number fits an int32, the manifests of what was typed are accepted
      -- and the cluster is reached, then what the command leaves in the cluster is what applying the
      -- model and the pool leaves; otherwise it leaves the cluster as it was.
      pub run_up-Goes :
          (flags : UpFlags) (outside : Outside P) (store : S.Store)
          → ((g : Goes flags outside) × ((run_up P S K flags outside store).store
                ≡ applied_store g.model g.pool store))
            ⊎ ((¬ Goes flags outside) × ((run_up P S K flags outside store).store ≡ store))
      run_up-Goes flags outside store = elim (decided flags outside store) [
        | inl g ↦ inl (g, Goes-applied flags outside store g)
        | inr stays ↦ inr stays
      ]
