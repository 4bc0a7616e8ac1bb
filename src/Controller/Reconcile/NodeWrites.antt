-- ===== src/Controller/Reconcile/NodeWrites.antt =====
-- internal/controller/gpupool_controller.go: the nodes that the parts of a reconcile patch.
use mathlib.Core.Path.{subst}
use ghostgpu.Base.{◌&&◌, List, [], ◌∷◌, ◌≡◌, sym, Result, ok, err, Text, All}
use ghostgpu.Base.Int.{ℤ, pos}
use ghostgpu.Platform.{Platform}
use ghostgpu.Api.{
  ResourceList, GpuPool, GpuModel, Node, ResourceSlice, extended_resource_enabled, mig_enabled,
}
use ghostgpu.Mig.{Table}
use ghostgpu.Gpu.Faults.{NodeState}
use ghostgpu.Gpu.Labels.{node_labels}
use ghostgpu.Gpu.Resources.{node_resources, node_allocatable}
use ghostgpu.Controller.Client.{
  ApiError, not_found, other_error, Write, update_status, patch_node, patch_node_status,
  create_or_update, delete, Client, World, Action, return, resume, call,
}
use ghostgpu.Controller.Resources.{resources_match, labels_match}
use ghostgpu.Controller.Nodes.{
  patched_status, patched_labels, send_status, reconcile_resources, reconcile_labels,
  reconcile_node,
}
use ghostgpu.Controller.Slices.{
  apply_slice, apply_slices, reconcile_slices, delete_stale, prune_slices, is_live, unless_missing,
  with_slices, pool_label,
}
use ghostgpu.Controller.Reconcile.Traces.{
  Keeps, Gives, Holds, call-Keeps, bind-Keeps, bind-Gives, if-Keeps, if-Gives,
}

module _ (P : Platform) (C : Client P) where
  -- A write that patches a node patches one whose name is in `N`.
  abbrev pub PatchesOnly : (Text → Type 0) → Write P → Type 0
  PatchesOnly N (patch_node_status patched base) = N patched.name
  PatchesOnly N (patch_node patched base) = N patched.name
  PatchesOnly N (update_status pool) = Unit
  PatchesOnly N (create_or_update name mutate) = Unit
  PatchesOnly N (delete slice) = Unit

  -- A patch leaves in the object the node of the same name.
  abbrev pub AnswersInPlace : Type 0
  AnswersInPlace = (node : Node P) (store : C.Store) → (C.answer node store).name ≡ node.name

  module _ (answers : AnswersInPlace) (N : Text → Type 0) where
    abbrev pub Safe : {A : Type 0} → Action P C A → Type 0
    Safe m = Keeps P C (PatchesOnly N) m

    -- The slices are no nodes.
    pub apply_slices-Safe :
        (pool : GpuPool P) (slices : List (ResourceSlice P)) (devices : ℤ) (live : List Text)
        → Safe (apply_slices P C pool slices devices live)
    unfolding apply_slices apply_slice
    apply_slices-Safe pool [] devices live w h = h
    apply_slices-Safe pool (s ∷ slices) devices live w h =
        bind-Keeps P C (PatchesOnly N) (apply_slice P C pool s) _
          (call-Keeps P C (PatchesOnly N) _ tt) (λ _. apply_slices-Safe pool slices _ _) w h

    pub reconcile_slices-Safe :
        (pool : GpuPool P) (model : GpuModel P) (table : Table P) (node : Text) (state : NodeState)
        (live : List Text)
        → Safe (reconcile_slices P C pool model table node state live)
    unfolding reconcile_slices apply_slice
    reconcile_slices-Safe pool model table node state live =
        if-Keeps P C (PatchesOnly N) (mig_enabled P pool.spec) _ _
          (λ _. apply_slices-Safe pool _ (pos 0) live)
          (bind-Keeps P C (PatchesOnly N) _ _ (call-Keeps P C (PatchesOnly N) _ tt) (λ _ w h. h))

    pub delete_stale-Safe :
        (slices : List (ResourceSlice P)) (live : List Text) → Safe (delete_stale P C slices live)
    unfolding delete_stale
    delete_stale-Safe [] live w h = h
    delete_stale-Safe (s ∷ slices) live w h =
        if-Keeps P C (PatchesOnly N) (is_live s.name live) _ _ (λ _. delete_stale-Safe slices live)
          (bind-Keeps P C (PatchesOnly N) _ _ deleted (λ _. delete_stale-Safe slices live)) w h
      where
        forgiven :
            (r : Result ApiError Unit × World P C)
            → All (PatchesOnly N) r.1.writes
            → All (PatchesOnly N) (unless_missing P C r).1.writes
        forgiven (ok u, w) h = h
        forgiven (err not_found, w) h = h
        forgiven (err (other_error t), w) h = h

        deleted : Safe (λ w. unless_missing P C (call P C (delete s) w))
        deleted w h = forgiven _ (call-Keeps P C (PatchesOnly N) (delete s) tt w h)

    pub prune_slices-Safe :
        (pool : GpuPool P) (live : List Text) → Safe (prune_slices P C pool live)
    unfolding prune_slices
    prune_slices-Safe pool live w h = listed (C.list_slices ((pool_label, pool.name) ∷ []) w.store)
      where
        listed :
            (r : Result ApiError (List (ResourceSlice P)))
            → All (PatchesOnly N) (with_slices P C live r w).1.writes
        listed (ok slices) = delete_stale-Safe slices live w h
        listed (err e) = h

    pub send_status-Gives :
        (capacity allocatable : ResourceList P) (node : Node P)
        → N node.name
        → Gives P C (PatchesOnly N) (λ n. N n.name) (send_status P C capacity allocatable node)
    unfolding send_status patched_status
    send_status-Gives capacity allocatable node n w h =
        let patched = patched_status P capacity allocatable node in
        answered (call P C (patch_node_status patched node) w)
          (call-Keeps P C (PatchesOnly N) (patch_node_status patched node) n w h)
      where
        answered :
            (r : Result ApiError Unit × World P C)
            → All (PatchesOnly N) r.1.writes
            → let patched = patched_status P capacity allocatable node in
              let s = resume P C (λ _ w. return P C (C.answer patched w.store) w) r in
              All (PatchesOnly N) s.1.writes × Holds P C (PatchesOnly N) (λ n. N n.name) s.0
        answered (ok u, w) h =
            (h, subst N (sym (answers (patched_status P capacity allocatable node) w.store)) n)
        answered (err e, w) h = (h, tt)

    pub reconcile_labels-Safe :
        (pool : GpuPool P) (model : GpuModel P) (node : Node P)
        → N node.name
        → Safe (reconcile_labels P C pool model node)
    unfolding reconcile_labels patched_labels
    reconcile_labels-Safe pool model node n =
        if-Keeps P C (PatchesOnly N) (labels_match node.labels (node_labels P pool model)) _ _
          (λ _ w h. h) (call-Keeps P C (PatchesOnly N) _ n)

    pub reconcile_resources-Gives :
        (pool : GpuPool P) (table : Table P) (node : Node P) (state : NodeState)
        → N node.name
        → Gives P C (PatchesOnly N) (λ k. N k.name) (reconcile_resources P C pool table node state)
    unfolding reconcile_resources
    reconcile_resources-Gives pool table node state n =
        let capacity = node_resources P pool table in
        let allocatable = node_allocatable P pool table state in
        if-Gives P C (PatchesOnly N) (λ (k : Node P). N k.name)
          (extended_resource_enabled pool.spec.advertise) _ _
          (if-Gives P C (PatchesOnly N) (λ (k : Node P). N k.name)
            (resources_match P node.capacity capacity
              && resources_match P node.allocatable allocatable)
            (return P C node) (send_status P C capacity allocatable node) (λ w h. (h, n))
            (send_status-Gives capacity allocatable node n))
          (λ w h. (h, n))

    pub reconcile_node-Safe :
        (pool : GpuPool P) (model : GpuModel P) (table : Table P) (node : Node P)
        (state : NodeState)
        → N node.name
        → Safe (reconcile_node P C pool model table node state)
    unfolding reconcile_node
    reconcile_node-Safe pool model table node state n =
        bind-Gives P C (PatchesOnly N) (λ (k : Node P). N k.name)
          (reconcile_resources P C pool table node state) _
          (reconcile_resources-Gives pool table node state n)
          (λ k. reconcile_labels-Safe pool model k)
