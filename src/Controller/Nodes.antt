-- ===== src/Controller/Nodes.antt =====
-- internal/controller/gpupool_controller.go: `reconcileNode`, the patches of one simulated node.
pub mod Quiet
use ghostgpu.Base.{Bool, true, false, not, ◌&&◌, ◌||◌, List, Text, text_eq, if◌then◌else◌}
use ghostgpu.Base.Dict.{copy}
use ghostgpu.Platform.{Platform}
use ghostgpu.Api.{Labels, ResourceList, GpuPool, GpuModel, Node, extended_resource_enabled}
use ghostgpu.Mig.{Table}
use ghostgpu.Gpu.Faults.{NodeState}
use ghostgpu.Gpu.Labels.{node_labels}
use ghostgpu.Gpu.Resources.{node_resources, node_allocatable}
use ghostgpu.Controller.Client.{
  Client, World, Action, return, bind, call, patch_node, patch_node_status,
}
use ghostgpu.Controller.Resources.{resources_match, apply_gpu_resources, labels_match}

module _ (P : Platform) where
  -- The node with the desired capacity and allocatable.
  unfoldable pub patched_status : ResourceList P → ResourceList P → Node P → Node P
  unfolding apply_gpu_resources
  patched_status capacity allocatable node = record node {
    capacity = apply_gpu_resources P node.capacity capacity;
    allocatable = apply_gpu_resources P node.allocatable allocatable;
  }

  -- The node with the desired labels.
  unfoldable pub patched_labels : Labels → Node P → Node P
  unfolding copy
  patched_labels desired node = record node { labels = copy node.labels desired }

  module _ (C : Client P) where
    -- `r.Status().Patch(ctx, patched, client.MergeFrom(node))`, and the object that it leaves.
    unfoldable pub send_status : ResourceList P → ResourceList P → Node P → Action P C (Node P)
    unfolding call patched_status
    send_status capacity allocatable node =
        let patched = patched_status capacity allocatable node in
        bind P C (call P C (patch_node_status patched node))
          (λ _ w. return P C (C.answer patched w.store) w)

    -- The first half: the extended resources.
    unfoldable pub reconcile_resources :
        GpuPool P → Table P → Node P → NodeState → Action P C (Node P)
    unfolding extended_resource_enabled node_resources node_allocatable resources_match send_status
    reconcile_resources pool table node state =
        let capacity = node_resources P pool table in
        let allocatable = node_allocatable P pool table state in
        if extended_resource_enabled pool.spec.advertise
        then if resources_match P node.capacity capacity
            && resources_match P node.allocatable allocatable
          then return P C node
          else send_status capacity allocatable node
        else return P C node

    -- The second half: the labels.
    unfoldable pub reconcile_labels : GpuPool P → GpuModel P → Node P → Action P C Unit
    unfolding node_labels labels_match patched_labels call
    reconcile_labels pool model node =
        let desired = node_labels P pool model in
        if labels_match node.labels desired
        then return P C tt
        else call P C (patch_node (patched_labels desired node) node)

    unfoldable pub reconcile_node :
        GpuPool P → GpuModel P → Table P → Node P → NodeState → Action P C Unit
    unfolding reconcile_resources reconcile_labels
    reconcile_node pool model table node state =
        bind P C (reconcile_resources pool table node state)
          (λ current. reconcile_labels pool model current)
