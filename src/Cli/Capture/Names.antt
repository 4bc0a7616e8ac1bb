-- ===== src/Cli/Capture/Names.antt =====
-- internal/cli/capture.go: the names and the references of captured objects.
use ghostgpu.Base.{
  ℕ, suc, Bool, true, false, Option, none, some, List, [], ◌∷◌, ◌++◌, map, ◌≡◌, refl, inl, inr,
  arith, if◌then◌else◌, Bool-cases, Text, codes, text_eq, text_dec, ◌==◌, All, All-imp, All-append,
  In,
}
use ghostgpu.Base.Dict.{Dict, lookup, lookup-insert, lookup-nil}
use ghostgpu.Text.Split.{trim_suffix}
use ghostgpu.Platform.{Platform}
use ghostgpu.Api.{GpuModel, GpuPool, ResourceList}
use ghostgpu.Cli.Names.{base_name, pick}
use ghostgpu.Cli.Capture.Picked.{IsNamed, pick-IsNamed, In-snoc_left, In-snoc_last}
use ghostgpu.Cli.Objects.{NodeManifest}
use ghostgpu.Safety.{is_simulated_node}
use ghostgpu.Cli.Capture.{shape_label, CaptureOptions, NodeShape, ShapeGroup, model_key}
use ghostgpu.Cli.Capture.Manifests.{
  Assembly, nothing_assembled, with_model, with_pool, assemble_group, assemble_groups, build_model,
  build_pool, build_node, build_nodes, build_nodes_from,
}

module _ (P : Platform) where
  abbrev pub model_names_of : List (GpuModel P) → List Text
  model_names_of = map (λ (m : GpuModel P). m.name)

  abbrev pub pool_names_of : List (GpuPool P) → List Text
  pool_names_of = map (λ (p : GpuPool P). p.name)

  -- A node under kwok's annotation, with the label of one of the pools.
  abbrev pub IsLabelled : List (GpuPool P) → NodeManifest P → Type 0
  IsLabelled pools n =
      (is_simulated_node P (some n.node) ≡ true)
      × (name : Text) × (lookup shape_label n.node.labels ≡ some name)
      × In name (pool_names_of pools)

  -- What the loop of `assemble` keeps.
  pub record IsSound (a : Assembly P) : Type 0 where
    pub models_lem : IsNamed (λ (m : GpuModel P). m.name) a.models a.model_namer
    pub pools_lem : IsNamed (λ (p : GpuPool P). p.name) a.pools a.pool_namer
    pub known_lem :
        (key name : Text) → lookup key a.model_names ≡ some name → In name (model_names_of a.models)
    pub references_lem : All (λ p. In p.spec.model_ref (model_names_of a.models)) a.pools
    pub selectors_lem : All (λ p. p.spec.node_selector ≡ (shape_label, p.name) ∷ []) a.pools
    pub nodes_lem : All (IsLabelled a.pools) a.simulated

  some_inj : (x y : Text) → ◌≡◌ {A = Option Text} (some x) (some y) → x ≡ y
  some_inj x y e = ground arith

  -- The model of a shape, known or new, is among the models.
  with_model-IsSound :
      (o : Option Text) (shape : NodeShape P) (a : Assembly P)
      → lookup (model_key P shape) a.model_names ≡ o
      → IsSound a
      → IsSound (with_model P o shape a).1
        × In (with_model P o shape a).0 (model_names_of (with_model P o shape a).1.models)
  with_model-IsSound (some name) shape a e s = (s, s.known_lem (model_key P shape) name e)
  with_model-IsSound none shape a e s =
      let name = (pick a.model_namer (base_name shape.product)).0 in
      let made = build_model P name shape in
      let last : In name (model_names_of (a.models ++ (made ∷ []))) =
        unfold build_model in In-snoc_last (λ (m : GpuModel P). m.name) a.models made in
      (
        record {
          models_lem =
              unfold build_model in
              pick-IsNamed (λ (m : GpuModel P). m.name) a.models made a.model_namer
                (base_name shape.product) refl s.models_lem;
          pools_lem = s.pools_lem;
          known_lem = λ key known found.
              now_known key known made (s.known_lem key known) last
                (rw (lookup-insert key (model_key P shape) name a.model_names) at found);
          references_lem =
              All-imp
                (λ p i. In-snoc_left (λ (m : GpuModel P). m.name) p.spec.model_ref a.models made i)
                a.pools s.references_lem;
          selectors_lem = s.selectors_lem;
          nodes_lem = s.nodes_lem;
        },
        last,
      )
    where
      now_known :
          (key known : Text) (made : GpuModel P)
          → (lookup key a.model_names ≡ some known → In known (model_names_of a.models))
          → In
              (pick a.model_namer (base_name shape.product)).0
              (model_names_of (a.models ++ (made ∷ [])))
          → (if key == model_key P shape
              then some (pick a.model_namer (base_name shape.product)).0
              else lookup key a.model_names)
            ≡ some known
          → In known (model_names_of (a.models ++ (made ∷ [])))
      now_known key known made old last found = elim (Bool-cases (key == model_key P shape)) [
        | inl same ↦
            let eq : (pick a.model_namer (base_name shape.product)).0 ≡ known =
              some_inj _ known (rw same at found) in
            rw (← eq) last
        | inr other ↦
            In-snoc_left (λ (m : GpuModel P). m.name) known a.models made (old (rw other at found))
      ]

  build_nodes_from-IsLabelled :
      (pools : List (GpuPool P)) (name prefix : Text) (i : ℕ) (capacities : List (ResourceList P))
      → In name (pool_names_of pools)
      → All (IsLabelled pools) (build_nodes_from P name prefix i capacities)
  unfolding build_nodes_from build_node is_simulated_node lookup text_eq text_dec
  build_nodes_from-IsLabelled pools name prefix i [] at = tt
  build_nodes_from-IsLabelled pools name prefix i (c ∷ cs) at =
      ((refl, name, refl, at), build_nodes_from-IsLabelled pools name prefix (suc i) cs at)

  build_nodes-IsLabelled :
      (pools : List (GpuPool P)) (name : Text) (capacities : List (ResourceList P))
      → In name (pool_names_of pools)
      → All (IsLabelled pools) (build_nodes P name capacities)
  unfolding build_nodes
  build_nodes-IsLabelled pools name capacities at =
      build_nodes_from-IsLabelled pools name (trim_suffix (codes "-pool") name) 0 capacities at

  with_pool-IsSound :
      (opts : CaptureOptions) (base name : Text) (g : ShapeGroup P) (a : Assembly P)
      → In name (model_names_of a.models)
      → IsSound a
      → IsSound (with_pool P opts (pick a.pool_namer base).0 name g (pick a.pool_namer base).1 a)
  with_pool-IsSound opts base name g a at s =
      let pool_name = (pick a.pool_namer base).0 in
      let made = build_pool P pool_name name g.shape in
      let pools = a.pools ++ (made ∷ []) in
      let last : In pool_name (pool_names_of pools) =
        unfold build_pool in In-snoc_last (λ (p : GpuPool P). p.name) a.pools made in
      record {
        models_lem = s.models_lem;
        pools_lem =
            unfold build_pool in
            pick-IsNamed (λ (p : GpuPool P). p.name) a.pools made a.pool_namer base refl
              s.pools_lem;
        known_lem = s.known_lem;
        references_lem =
            unfold build_pool in
            All-append (λ p. In p.spec.model_ref (model_names_of a.models)) a.pools (made ∷ [])
              s.references_lem (at, tt);
        selectors_lem =
            unfold build_pool in
            All-append (λ p. p.spec.node_selector ≡ (shape_label, p.name) ∷ []) a.pools (made ∷ [])
              s.selectors_lem (refl, tt);
        nodes_lem =
            All-append (IsLabelled pools) a.simulated
              (if opts.emit_nodes then build_nodes P pool_name g.capacities else [])
              (All-imp
                (λ n (sim, label, found, i). (
                  sim,
                  label,
                  found,
                  In-snoc_left (λ (p : GpuPool P). p.name) label a.pools made i,
                ))
                a.simulated s.nodes_lem)
              (emitted opts.emit_nodes pools pool_name last);
      }
    where
      emitted :
          (b : Bool) (pools : List (GpuPool P)) (pool_name : Text)
          → In pool_name (pool_names_of pools)
          → All (IsLabelled pools) (if b then build_nodes P pool_name g.capacities else [])
      emitted true pools pool_name i = build_nodes-IsLabelled pools pool_name g.capacities i
      emitted false pools pool_name i = tt

  pub assemble_groups-IsSound :
      (counts : Dict Text ℕ) (opts : CaptureOptions) (groups : List (ShapeGroup P)) (a : Assembly P)
      → IsSound a
      → IsSound (assemble_groups P counts opts groups a)
  unfolding assemble_groups assemble_group
  assemble_groups-IsSound counts opts [] a s = s
  assemble_groups-IsSound counts opts (g ∷ groups) a s =
      let (named, at) =
        with_model-IsSound (lookup (model_key P g.shape) a.model_names) g.shape a refl s in
      assemble_groups-IsSound counts opts groups (assemble_group P counts opts g a)
        (with_pool-IsSound opts _ _ g _ at named)

  pub nothing_assembled-IsSound : IsSound (nothing_assembled P)
  nothing_assembled-IsSound = record {
    models_lem = record { distinct = tt; noted = tt };
    pools_lem = record { distinct = tt; noted = tt };
    known_lem = λ key name e. absurd (let wrong = rw (lookup-nil {V = Text} key) at e in cc);
    references_lem = tt;
    selectors_lem = tt;
    nodes_lem = tt;
  }
