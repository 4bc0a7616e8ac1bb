-- ===== src/Controller/Reconcile/OnlySimulated.antt =====
-- internal/controller/gpupool_controller.go: the nodes that `Reconcile` patches.
use ghostgpu.Base.{
  true, false, some, List, [], ◌∷◌, ◌≡◌, refl, Result, ok, err, Text, All, In, inl, inr,
}
use ghostgpu.Platform.{Platform}
use ghostgpu.Api.{Labels, GpuPool, GpuModel, Node, dra_enabled}
use ghostgpu.Mig.{Table}
use ghostgpu.Gpu.Faults.{NodeState, state_for}
use ghostgpu.Safety.{is_simulated_node, filter_simulated}
use ghostgpu.Safety.Guard.{filter_simulated-In_iff}
use ghostgpu.Controller.Client.{
  ApiError, not_found, other_error, update_status, Client, World, Action, return, bind, call,
}
use ghostgpu.Controller.Status.{set_ready}
use ghostgpu.Controller.Nodes.{reconcile_node}
use ghostgpu.Controller.Slices.{reconcile_slices, prune_slices}
use ghostgpu.Controller.Reconcile.{
  Progress, reject, Rejection, publish_slices, add_published, reconciled, publish_node, count_node,
  reconcile_nodes, publish, publish_nodes, with_nodes, with_table, with_model, with_pool, reconcile,
  validated, no_progress,
}
use ghostgpu.Controller.Reconcile.Traces.{Keeps, call-Keeps, bind-Keeps, if-Keeps}
use ghostgpu.Controller.Reconcile.NodeWrites.{
  PatchesOnly, AnswersInPlace, reconcile_slices-Safe, reconcile_node-Safe, prune_slices-Safe,
}

module _ (P : Platform) (C : Client P) where
  -- The server listed a node by that name that carries kwok's annotation.
  abbrev pub WasSimulated : C.Store → Text → Type 0
  WasSimulated store name =
      (selector : Labels) × (nodes : List (Node P)) × (C.list_nodes selector store ≡ ok nodes)
      × (node : Node P) × In node (filter_simulated P nodes)
      × (node.name ≡ name)

  module _ (answers : AnswersInPlace P C) (N : Text → Type 0) where
    abbrev Only : {A : Type 0} → Action P C A → Type 0
    Only m = Keeps P C (PatchesOnly P C N) m

    publish_node-Safe :
        (pool : GpuPool P) (model : GpuModel P) (table : Table P) (node : Node P)
        (state : NodeState) (progress : Progress)
        → N node.name
        → Only (publish_node P C pool model table node state progress)
    unfolding publish_node publish_slices
    publish_node-Safe pool model table node state progress n =
        bind-Keeps P C (PatchesOnly P C N) (publish_slices P C pool model table node state progress)
          (λ next. bind P C (reconcile_node P C pool model table node state) (λ _. return P C next))
          (if-Keeps P C (PatchesOnly P C N) (dra_enabled pool.spec.advertise)
            (bind P C (reconcile_slices P C pool model table node.name state progress.live)
              (λ published. return P C (add_published P C progress published)))
            (return P C progress)
            (λ _.
              bind-Keeps P C (PatchesOnly P C N)
                (reconcile_slices P C pool model table node.name state progress.live)
                (λ published. return P C (add_published P C progress published))
                (reconcile_slices-Safe P C answers N pool model table node.name state progress.live)
                (λ _ w h. h))
            (λ w h. h))
          (λ next.
            bind-Keeps P C (PatchesOnly P C N) (reconcile_node P C pool model table node state)
              (λ _. return P C next)
              (reconcile_node-Safe P C answers N pool model table node state n) (λ _ w h. h))

    reconcile_nodes-Safe :
        (pool : GpuPool P) (model : GpuModel P) (table : Table P) (nodes : List (Node P))
        (progress : Progress)
        → ((k : Node P) → In k nodes → is_simulated_node P (some k) ≡ true → N k.name)
        → Only (reconcile_nodes P C pool model table nodes progress)
    unfolding reconcile_nodes
    reconcile_nodes-Safe pool model table [] progress named w h = h
    reconcile_nodes-Safe pool model table (node ∷ nodes) progress named w h =
        if-Keeps P C (PatchesOnly P C N) (is_simulated_node P (some node)) _ _
          (λ simulated.
            bind-Keeps P C (PatchesOnly P C N)
              (publish_node P C pool model table node (state_for P pool node)
                (count_node P C (state_for P pool node) progress))
              (λ next. reconcile_nodes P C pool model table nodes next)
              (publish_node-Safe pool model table node (state_for P pool node)
                (count_node P C (state_for P pool node) progress) (named node (inl refl) simulated))
              (λ next. reconcile_nodes-Safe pool model table nodes next (λ k at. named k (inr at))))
          (reconcile_nodes-Safe pool model table nodes progress (λ k at. named k (inr at))) w h

    publish_nodes-Safe :
        (pool : GpuPool P) (model : GpuModel P) (table : Table P) (nodes : List (Node P))
        → ((k : Node P) → In k nodes → is_simulated_node P (some k) ≡ true → N k.name)
        → Only (publish_nodes P C pool model table nodes)
    unfolding publish_nodes
    publish_nodes-Safe pool model table nodes named =
        bind-Keeps P C (PatchesOnly P C N) (reconcile_nodes P C pool model table nodes no_progress)
          (λ progress.
            bind P C (prune_slices P C pool progress.live)
              (λ _. call P C (update_status (reconciled P C pool table progress))))
          (reconcile_nodes-Safe pool model table nodes no_progress named)
          (λ progress.
            bind-Keeps P C (PatchesOnly P C N) (prune_slices P C pool progress.live)
              (λ _. call P C (update_status (reconciled P C pool table progress)))
              (prune_slices-Safe P C answers N pool progress.live)
              (λ _. call-Keeps P C (PatchesOnly P C N) _ tt))

  module _ (answers : AnswersInPlace P C) (store : C.Store) where
    -- The world at the start of a run.
    abbrev start : World P C
    start = record { store = store; writes = [] }

    abbrev IsSafeRun : Action P C Unit → Type 0
    IsSafeRun m = All (PatchesOnly P C (WasSimulated store)) (m start).1.writes

    listed-IsSafeRun :
        (pool : GpuPool P) (model : GpuModel P) (table : Table P)
        (r : Result ApiError (List (Node P)))
        → C.list_nodes pool.spec.node_selector store ≡ r
        → IsSafeRun (with_nodes P C pool model table r)
    listed-IsSafeRun pool model table (err error) e = tt
    listed-IsSafeRun pool model table (ok nodes) e =
        publish_nodes-Safe answers (WasSimulated store) pool model table nodes
          (λ k at simulated. (
            pool.spec.node_selector,
            nodes,
            e,
            k,
            (filter_simulated-In_iff P nodes k).1 (at, simulated),
            refl,
          ))
          start tt

    reject-IsSafeRun : (pool : GpuPool P) (r : Rejection) → IsSafeRun (reject P C pool r)
    unfolding reject
    reject-IsSafeRun pool (reason, message) =
        call-Keeps P C (PatchesOnly P C (WasSimulated store))
          (update_status (set_ready P C pool false reason message)) tt start tt

    table-IsSafeRun :
        (pool : GpuPool P) (model : GpuModel P) (r : Result Rejection (Table P))
        → IsSafeRun (with_table P C pool model r)
    unfolding publish
    table-IsSafeRun pool model (err rejection) = reject-IsSafeRun pool rejection
    table-IsSafeRun pool model (ok table) = listed-IsSafeRun pool model table _ refl

    model-IsSafeRun :
        (pool : GpuPool P) (r : Result ApiError (GpuModel P)) → IsSafeRun (with_model P C pool r)
    model-IsSafeRun pool (err not_found) = reject-IsSafeRun pool _
    model-IsSafeRun pool (err (other_error t)) = tt
    model-IsSafeRun pool (ok model) = table-IsSafeRun pool model (validated P pool model)

    pool-IsSafeRun : (r : Result ApiError (GpuPool P)) → IsSafeRun (with_pool P C r)
    pool-IsSafeRun (err not_found) = tt
    pool-IsSafeRun (err (other_error t)) = tt
    pool-IsSafeRun (ok pool) = model-IsSafeRun pool (C.get_model pool.spec.model_ref store)

  -- Whatever the pool, its selector and the API server's answers are, every node that a reconcile
  -- patches, its status or its labels, is one that the server listed with kwok's annotation, if the
  -- server answers the patch of a node with the node of that name.
  pub reconcile-PatchesOnly :
      AnswersInPlace P C
      → (request : Text) (store : C.Store)
      → All
          (PatchesOnly P C (WasSimulated store))
          (reconcile P C request (record { store = store; writes = [] })).1.writes
  unfolding reconcile
  reconcile-PatchesOnly answers request store =
      pool-IsSafeRun answers store (C.get_pool request store)
