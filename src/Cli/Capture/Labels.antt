-- ===== src/Cli/Capture/Labels.antt =====
-- internal/cli/capture.go: what is read of a node's labels and of its capacity (`gpuMemory`,
-- `computeCapability`, `migCapacity`, `nodeCapacity`).
use ghostgpu.Base.{
  ◌^◌, ◌||◌, Option, none, some, List, [], ◌∷◌, ◌++◌, if◌then◌else◌, Text, codes, text_eq, ◌==◌,
}
use ghostgpu.Base.Dict.{Dict, lookup, get_or, insert}
use ghostgpu.Base.Int.{ℤ, pos, ltb_ℤ, leb_ℤ, mul64}
use ghostgpu.Text.{parse_int, cut_prefix}
use ghostgpu.Platform.{Platform, binary_si, decimal_si}
use ghostgpu.Api.{Labels, ResourceList}
use ghostgpu.Gpu.Labels.{label_gpu_memory, label_compute_major, label_compute_minor}
use ghostgpu.Gpu.Resources.{mig_resource_prefix}
use ghostgpu.Cli.Up.{is_compute_capability}
use ghostgpu.Cli.Capture.{default_pods}

-- The two labels' values, joined.
unfoldable pub capability_of : Text → Text → Option Text
unfolding is_compute_capability
capability_of major minor =
    let capability = major ++ (b'.' ∷ minor) in
    if major == [] || minor == []
    then none
    else if is_compute_capability capability
    then some capability
    else none

unfoldable pub compute_capability : Labels → Option Text
unfolding lookup capability_of
compute_capability labels =
    capability_of (get_or label_compute_major labels []) (get_or label_compute_minor labels [])

-- `capturedNodeResources`
abbrev pub captured_node_resources : List Text
captured_node_resources =
    codes "cpu" ∷ codes "memory" ∷ codes "ephemeral-storage" ∷ codes "pods" ∷ []

module _ (P : Platform) where
  -- The products of `int64`.
  abbrev pub mib_quantity : Option ℤ → Option P.Quantity
  mib_quantity none = none
  mib_quantity (some mib) =
      if leb_ℤ mib (pos 0)
      then none
      else some (P.new_quantity (mul64 (mul64 mib (pos 1024)) (pos 1024)) binary_si)

  unfoldable pub gpu_memory : Labels → Option P.Quantity
  unfolding lookup parse_int
  gpu_memory labels = mib_quantity (parse_int (2 ^ 63) (get_or label_gpu_memory labels []))

  abbrev pub add_instances : Option Text → ℤ → Dict Text ℤ → Dict Text ℤ
  add_instances none count instances = instances
  add_instances (some profile) count instances =
      if ltb_ℤ (pos 0) count then insert profile count instances else instances

  unfoldable pub mig_capacity_onto : ResourceList P → Dict Text ℤ → Dict Text ℤ
  unfolding cut_prefix insert
  mig_capacity_onto [] instances = instances
  mig_capacity_onto ((name, quantity) ∷ capacity) instances =
      mig_capacity_onto capacity
        (add_instances (cut_prefix mig_resource_prefix name) (P.quantity_value quantity) instances)

  unfoldable pub mig_capacity : ResourceList P → Dict Text ℤ
  unfolding mig_capacity_onto
  mig_capacity capacity = mig_capacity_onto capacity []

  abbrev pub keep_if_there : Text → Option P.Quantity → ResourceList P → ResourceList P
  keep_if_there name none kept = kept
  keep_if_there name (some quantity) kept = insert name quantity kept

  unfoldable pub kept_resources : List Text → ResourceList P → ResourceList P → ResourceList P
  unfolding lookup insert
  kept_resources [] capacity kept = kept
  kept_resources (name ∷ names) capacity kept =
      kept_resources names capacity (keep_if_there name (lookup name capacity) kept)

  -- `if _, ok := capacity[pods]; !ok`
  abbrev pub with_pods : Option P.Quantity → ResourceList P → ResourceList P
  with_pods (some pods) kept = kept
  with_pods none kept = insert (codes "pods") (P.new_quantity default_pods decimal_si) kept

  unfoldable pub node_capacity : ResourceList P → ResourceList P
  unfolding kept_resources lookup insert
  node_capacity capacity =
      let kept = kept_resources captured_node_resources capacity [] in
      with_pods (lookup (codes "pods") kept) kept
