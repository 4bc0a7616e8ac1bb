-- ===== src/Controller/Nodes/Quiet.antt =====
-- internal/controller/gpupool_controller.go: `reconcileNode` on a node that it has already written.
use ghostgpu.Base.{
  Bool, true, false, Option, none, some, List, [], ◌∷◌, ◌≡◌, refl, ap, ◌∙◌, ok, Text, text_eq,
  if◌then◌else◌, Bool-cases, inl, inr,
}
use ghostgpu.Base.Dict.{DistinctKeys, insert, insert-DistinctKeys, lookup}
use ghostgpu.Base.Int.{ℤ, pos, leb_ℤ, mul64}
use ghostgpu.Text.{cut}
use ghostgpu.Platform.{Platform, IsLawful, decimal_si}
use ghostgpu.Api.{
  Labels, ResourceList, MigPartitionEntry, GpuPool, GpuModel, Node, mig_enabled,
  extended_resource_enabled,
}
use ghostgpu.Mig.{Profile, Budget, Table}
use ghostgpu.Gpu.Faults.{NodeState}
use ghostgpu.Gpu.Labels.{node_labels, base_labels, with_capability, with_mig}
use ghostgpu.Gpu.Resources.{
  gpu_resource_name, per_card, mig_resource_name, mig_resources, node_resources_for, node_resources,
  node_allocatable,
}
use ghostgpu.Controller.Client.{Client, World, return, resume}
use ghostgpu.Controller.Resources.{resources_match, labels_match}
use ghostgpu.Controller.Resources.Laws.{resources_match-apply_gpu_resources, labels_match-copy}
use ghostgpu.Controller.Nodes.{
  patched_status, patched_labels, reconcile_resources, reconcile_labels, reconcile_node,
}

module _ (P : Platform) where
  mig_resources-DistinctKeys :
      (declared : List MigPartitionEntry) (budget : Budget P) (gpus : ℤ) (d : ResourceList P)
      (ps : List (Profile P))
      → DistinctKeys d
      → DistinctKeys (mig_resources P declared budget gpus d ps)
  unfolding mig_resources
  mig_resources-DistinctKeys declared budget gpus d [] u = u
  mig_resources-DistinctKeys declared budget gpus d (p ∷ ps) u =
      let n = per_card P declared budget p in
      let q = P.new_quantity (mul64 n gpus) decimal_si in
      mig_resources-DistinctKeys declared budget gpus
        (if leb_ℤ n (pos 0) then d else insert (mig_resource_name p.name) q d) ps
        (either (leb_ℤ n (pos 0)) (insert (mig_resource_name p.name) q d)
          (insert-DistinctKeys (mig_resource_name p.name) q d u))
    where
      either : (b : Bool) (e : ResourceList P) → DistinctKeys e → DistinctKeys (if b then d else e)
      either true e h = u
      either false e h = h

  node_resources_for-DistinctKeys :
      (pool : GpuPool P) (table : Table P) (gpus : ℤ)
      → DistinctKeys (node_resources_for P pool table gpus)
  unfolding node_resources_for lookup
  node_resources_for-DistinctKeys pool table gpus = elim (Bool-cases (mig_enabled P pool.spec)) [
    | inl e ↦ rw e (
        mig_resources-DistinctKeys pool.spec.mig_partition table.budget gpus
          ((gpu_resource_name, P.new_quantity (pos 0) decimal_si) ∷ []) table.profiles (refl, tt))
    | inr e ↦ rw e ((refl, tt))
  ]

  node_labels-DistinctKeys :
      (pool : GpuPool P) (model : GpuModel P) → DistinctKeys (node_labels P pool model)
  unfolding node_labels lookup text_eq
  node_labels-DistinctKeys pool model =
      marked (mig_enabled P pool.spec)
        (with_capability P (cut b'.' model.spec.compute_capability) (base_labels P pool model))
        (capable (cut b'.' model.spec.compute_capability) (base_labels P pool model)
          (refl, (refl, (refl, (refl, tt)))))
    where
      capable :
          (c : Option (Text × Text)) (d : Labels)
          → DistinctKeys d
          → DistinctKeys (with_capability P c d)
      capable none d u = u
      capable (some (major, minor)) d u =
          insert-DistinctKeys _ minor _ (insert-DistinctKeys _ major _ u)

      marked : (b : Bool) (d : Labels) → DistinctKeys d → DistinctKeys (with_mig P b d)
      marked false d u = u
      marked true d u =
          insert-DistinctKeys _ _ _ (insert-DistinctKeys _ _ _ (insert-DistinctKeys _ _ _ u))

  -- The node with everything that a reconcile would give it.
  abbrev pub settled : GpuPool P → GpuModel P → Table P → NodeState → Node P → Node P
  settled pool model table state node =
      patched_labels P (node_labels P pool model)
        (patched_status P (node_resources P pool table) (node_allocatable P pool table state) node)

  module _ (L : IsLawful P) (C : Client P) where
    resources_settled :
        (pool : GpuPool P) (table : Table P) (state : NodeState) (k : Node P) (w : World P C)
        → resources_match P k.capacity (node_resources P pool table) ≡ true
        → resources_match P k.allocatable (node_allocatable P pool table state) ≡ true
        → reconcile_resources P C pool table k state w ≡ (ok k, w)
    unfolding reconcile_resources
    resources_settled pool table state k w ec ea =
        rw (ec, ea) (either (extended_resource_enabled pool.spec.advertise))
      where
        either : (b : Bool) → (if b then return P C k else return P C k) w ≡ (ok k, w)
        either true = refl
        either false = refl

    labels_settled :
        (pool : GpuPool P) (model : GpuModel P) (k : Node P) (w : World P C)
        → labels_match k.labels (node_labels P pool model) ≡ true
        → reconcile_labels P C pool model k w ≡ (ok tt, w)
    unfolding reconcile_labels
    labels_settled pool model k w e = rw e refl

    node_settled :
        (pool : GpuPool P) (model : GpuModel P) (table : Table P) (state : NodeState) (k : Node P)
        (w : World P C)
        → resources_match P k.capacity (node_resources P pool table) ≡ true
        → resources_match P k.allocatable (node_allocatable P pool table state) ≡ true
        → labels_match k.labels (node_labels P pool model) ≡ true
        → reconcile_node P C pool model table k state w ≡ (ok tt, w)
    unfolding reconcile_node
    node_settled pool model table state k w ec ea el =
        ap (resume P C (λ current. reconcile_labels P C pool model current))
          (resources_settled pool table state k w ec ea)
        ∙ labels_settled pool model k w el

    -- For lawful quantities, a node that was given its resources and labels is not written again:
    -- reconciling it succeeds and makes no call, whatever the server is.
    pub reconcile_node-settled :
        (pool : GpuPool P) (model : GpuModel P) (table : Table P) (state : NodeState)
        (node : Node P) (w : World P C)
        → reconcile_node P C pool model table (settled pool model table state node) state w
          ≡ (ok tt, w)
    reconcile_node-settled pool model table state node w =
        node_settled pool model table state (settled pool model table state node) w
          (unfold patched_labels patched_status in
            resources_match-apply_gpu_resources P L node.capacity (node_resources P pool table)
              (unfold node_resources in node_resources_for-DistinctKeys pool table _))
          (unfold patched_labels patched_status in
            resources_match-apply_gpu_resources P L node.allocatable
              (node_allocatable P pool table state)
              (unfold node_allocatable in node_resources_for-DistinctKeys pool table _))
          (unfold patched_labels patched_status in
            labels_match-copy node.labels (node_labels P pool model)
              (node_labels-DistinctKeys pool model))
