-- ===== src/Cli/Capture/Fleet.antt =====
-- internal/cli/capture.go: `Capture`, from the nodes and the slices of a cluster to manifests.
use ghostgpu.Base.{
  Bool, Option, none, some, List, [], ◌∷◌, ◌++◌, map, if◌then◌else◌, Result, ok, err, ◌>>=◌, Text,
  text_eq, sort_by,
}
use ghostgpu.Base.Dict.{Dict, lookup, get_or, insert}
use ghostgpu.Text.Split.{text_leb}
use ghostgpu.Platform.{Platform}
use ghostgpu.Api.{Node, ResourceList, ResourceSlice}
use ghostgpu.Cli.Capture.{
  CaptureOptions, CaptureError, no_gpu_nodes, Warning, nodes_not_emitted, CaptureResult, NodeShape,
  ShapeGroup, shape_key,
}
use ghostgpu.Cli.Capture.Published.{ByNode, index_slices_by_node}
use ghostgpu.Cli.Capture.Labels.{node_capacity}
use ghostgpu.Cli.Capture.Shapes.{shape_of}
use ghostgpu.Cli.Capture.Manifests.{assemble}

module _ (P : Platform) where
  -- `groups`, by the key of the shape.
  abbrev pub Groups : Type 0
  Groups = Dict Text (ShapeGroup P)

  abbrev pub group_or_new : Option (ShapeGroup P) → NodeShape P → ShapeGroup P
  group_or_new (some g) shape = g
  group_or_new none shape = record { shape = shape; capacities = [] }

  abbrev pub with_capacity : ResourceList P → ShapeGroup P → ShapeGroup P
  with_capacity capacity g = record g { capacities = g.capacities ++ (capacity ∷ []) }

  unfoldable pub add_to_group : NodeShape P → ResourceList P → Groups → Groups
  unfolding shape_key lookup insert
  add_to_group shape capacity groups =
      let key = shape_key P shape in
      insert key (with_capacity capacity (group_or_new (lookup key groups) shape)) groups

  abbrev pub group_shape : Option (NodeShape P) → Node P → Groups → Groups
  group_shape none node groups = groups
  group_shape (some shape) node groups = add_to_group shape (node_capacity P node.capacity) groups

  -- The loop over the nodes.
  unfoldable pub group_nodes :
      ByNode P
      → CaptureOptions
      → List (Node P)
      → Groups
      → List (Warning P)
      → Result CaptureError (Groups × List (Warning P))
  unfolding shape_of add_to_group node_capacity lookup
  group_nodes by_node opts [] groups warnings = ok (groups, warnings)
  group_nodes by_node opts (node ∷ nodes) groups warnings = do
    reading ← shape_of P node (get_or node.name by_node []) opts
    group_nodes by_node opts nodes (group_shape reading.0 node groups) (warnings ++ reading.1)

  -- `slices.Sort(order)`, and the groups in that order.
  abbrev pub key_before : Text × ShapeGroup P → Text × ShapeGroup P → Bool
  key_before (k, g) (j, h) = text_leb k j

  unfoldable pub in_order : Groups → List (ShapeGroup P)
  unfolding sort_by text_leb
  in_order groups = map (λ (k, g). g) (sort_by key_before groups)

  abbrev pub captured :
      CaptureOptions → Groups × List (Warning P) → Result CaptureError (CaptureResult P)
  captured opts ([], warnings) = err no_gpu_nodes
  captured opts (g ∷ groups, warnings) = ok (record {
    objects = assemble P (in_order (g ∷ groups)) opts;
    warnings = warnings ++ (if opts.emit_nodes then [] else nodes_not_emitted ∷ []);
  })

  unfoldable pub capture :
      List (Node P)
      → List (ResourceSlice P)
      → CaptureOptions
      → Result CaptureError (CaptureResult P)
  unfolding index_slices_by_node group_nodes in_order assemble
  capture nodes published opts = do
    grouped ← group_nodes (index_slices_by_node P published) opts nodes [] []
    captured opts grouped
