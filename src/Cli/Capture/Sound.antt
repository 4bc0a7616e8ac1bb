-- ===== src/Cli/Capture/Sound.antt =====
-- internal/cli/capture.go: the manifests of a capture as a whole.
use ghostgpu.Base.{
  true, some, List, [], ◌∷◌, ◌++◌, map, ◌≡◌, ◌↔◌, refl, arith, ok, >>=-eq-ok, Text, text_eq, All,
  All-imp, In, Distinct,
}
use ghostgpu.Base.Dict.{lookup}
use ghostgpu.Platform.{Platform}
use ghostgpu.Api.{GpuModel, GpuPool, Node, Labels, ResourceSlice}
use ghostgpu.Safety.{is_simulated_node}
use ghostgpu.Gpu.Occupancy.{selector_matches}
use ghostgpu.Cli.Objects.{NodeManifest, Object, model_object, pool_object, node_object}
use ghostgpu.Cli.Capture.{ShapeGroup, CaptureOptions, CaptureResult, Warning, shape_label}
use ghostgpu.Cli.Capture.Published.{index_slices_by_node}
use ghostgpu.Cli.Capture.Manifests.{assemble, assemble_groups, count_shapes, nothing_assembled}
use ghostgpu.Cli.Capture.Fleet.{Groups, group_nodes, in_order, captured, capture}
use ghostgpu.Cli.Capture.Names.{
  model_names_of, pool_names_of, IsLabelled, assemble_groups-IsSound, nothing_assembled-IsSound,
}

module _ (P : Platform) where
  -- A simulated node that one pool of the list selects, and no other.
  pub record IsSelectedOnce (pools : List (GpuPool P)) (n : NodeManifest P) : Type 0 where
    pub simulated : is_simulated_node P (some n.node) ≡ true
    pub pool : Text
    pub there : In pool (pool_names_of P pools)
    pub selected :
        All
          (λ p. (selector_matches p.spec.node_selector n.node.labels ≡ true) ↔ (p.name ≡ pool))
          pools

  -- Models, pools and nodes, in this order: no name twice, no dangling reference, and each node
  -- simulated and in one pool.
  pub record IsFleet (objects : List (Object P)) : Type 0 where
    pub models : List (GpuModel P)
    pub pools : List (GpuPool P)
    pub nodes : List (NodeManifest P)
    pub made : objects ≡ map model_object models ++ (map pool_object pools ++ map node_object nodes)
    pub models_distinct : Distinct (model_names_of P models)
    pub pools_distinct : Distinct (pool_names_of P pools)
    pub references : All (λ p. In p.spec.model_ref (model_names_of P models)) pools
    pub placed : All (IsSelectedOnce pools) nodes

  own_selector :
      (p : GpuPool P) (labels : Labels) (name : Text)
      → p.spec.node_selector ≡ (shape_label, p.name) ∷ []
      → lookup shape_label labels ≡ some name
      → (selector_matches p.spec.node_selector labels ≡ true) ↔ (p.name ≡ name)
  unfolding selector_matches
  own_selector p labels name e found = rw e (ground arith)

  placed_once :
      (pools : List (GpuPool P)) (n : NodeManifest P)
      → All (λ p. p.spec.node_selector ≡ (shape_label, p.name) ∷ []) pools
      → IsLabelled P pools n
      → IsSelectedOnce pools n
  placed_once pools n selectors (sim, name, found, at) = record {
    simulated = sim;
    pool = name;
    there = at;
    selected = All-imp (λ p e. own_selector p n.node.labels name e found) pools selectors;
  }

  assemble-IsFleet :
      (groups : List (ShapeGroup P)) (opts : CaptureOptions) → IsFleet (assemble P groups opts)
  unfolding assemble
  assemble-IsFleet groups opts =
      let a = assemble_groups P (count_shapes P groups []) opts groups (nothing_assembled P) in
      let s =
        assemble_groups-IsSound P (count_shapes P groups []) opts groups (nothing_assembled P)
          (nothing_assembled-IsSound P) in
      record {
        models = a.models;
        pools = a.pools;
        nodes = a.simulated;
        made = refl;
        models_distinct = s.models_lem.distinct;
        pools_distinct = s.pools_lem.distinct;
        references = s.references_lem;
        placed = All-imp (λ n h. placed_once a.pools n s.selectors_lem h) a.simulated s.nodes_lem;
      }

  captured-IsFleet :
      (opts : CaptureOptions) (grouped : Groups P × List (Warning P)) (r : CaptureResult P)
      → captured P opts grouped ≡ ok r
      → IsFleet r.objects
  captured-IsFleet opts ([], warnings) r e = cc
  captured-IsFleet opts (g ∷ groups, warnings) r e =
      let same : r.objects ≡ assemble P (in_order P (g ∷ groups)) opts = ground arith in
      rw same (assemble-IsFleet (in_order P (g ∷ groups)) opts)

  -- What a capture makes fits together, whatever cluster it reads: no two models and no two pools
  -- share a name, each pool names one of the models, and each node is one that the operator may
  -- change, with labels that one of the pools selects and no other pool.
  pub capture-IsFleet :
      (nodes : List (Node P)) (published : List (ResourceSlice P)) (opts : CaptureOptions)
      (r : CaptureResult P)
      → capture P nodes published opts ≡ ok r
      → IsFleet r.objects
  unfolding capture
  capture-IsFleet nodes published opts r e =
      let (grouped, _, h) =
        >>=-eq-ok (group_nodes P (index_slices_by_node P published) opts nodes [] []) _ e in
      captured-IsFleet opts grouped r h
