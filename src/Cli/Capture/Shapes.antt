-- ===== src/Cli/Capture/Shapes.antt =====
-- internal/cli/capture.go: the shape of one node (`shapeOf`, `physicalGPUs`).
pub mod Gpus
pub mod RoundTrip
use ghostgpu.Base.{
  ◌^◌, Bool, true, false, ◌&&◌, ◌||◌, not, Option, none, some, List, [], ◌∷◌, ◌++◌, if◌then◌else◌,
  Result, ok, err, ◌>>=◌, Text, codes, text_eq, ◌==◌,
}
use ghostgpu.Base.Dict.{Dict, lookup, get_or}
use ghostgpu.Base.Int.{ℤ, pos, ltb_ℤ}
use ghostgpu.Text.{parse_int}
use ghostgpu.Platform.{Platform}
use ghostgpu.Api.{Labels, Node, ResourceSlice, sharing_mode_none, sharing_mode_mig}
use ghostgpu.Gpu.Labels.{
  label_gpu_present, label_gpu_count, label_gpu_product, label_mig_strategy, mig_strategy_mixed,
}
use ghostgpu.Cli.Capture.{
  CaptureOptions, Skip, no_product, no_memory, no_capability, CaptureError,
  gpus_unknown_partitioned, gpus_unknown, Warning, skipped, single_strategy, whole_gpus_left,
  NodeShape, label_true, mig_strategy_single,
}
use ghostgpu.Cli.Capture.Published.{topology_of, count_devices, count_counter_sets}
use ghostgpu.Cli.Capture.Labels.{gpu_memory, compute_capability, mig_capacity}
use ghostgpu.Cli.Capture.Layout.{LayoutResult, mig_layout}

abbrev pub is_empty {ℓ} : {A : Type ℓ} → List A → Bool
is_empty [] = true
is_empty (x ∷ xs) = false

-- `n > 0`
abbrev pub is_positive : ℤ → Bool
is_positive n = ltb_ℤ (pos 0) n

-- `err == nil && n > 0`
abbrev pub positive : Option ℤ → Option ℤ
positive none = none
positive (some n) = if is_positive n then some n else none

-- The first source that tells the number of GPUs.
abbrev pub or_else : Option ℤ → Option ℤ → Option ℤ
or_else (some n) later = some n
or_else none later = later

module _ (P : Platform) where
  abbrev pub label_of : Text → Labels → Text
  label_of key labels = get_or key labels []

  -- What is asked of a node whose GPUs are whole: its label, then the devices published for it.
  unfoldable pub whole_gpus : Labels → List (ResourceSlice P) → Option ℤ
  unfolding lookup parse_int count_devices
  whole_gpus labels published =
      or_else (positive (parse_int (2 ^ 31) (label_of label_gpu_count labels)))
        (positive (some (count_devices P published)))

  abbrev pub gpus_or_error : Text → Bool → Option ℤ → Result CaptureError ℤ
  gpus_or_error node partitioned (some n) = ok n
  gpus_or_error node true none = err (gpus_unknown_partitioned node)
  gpus_or_error node false none = err (gpus_unknown node)

  unfoldable pub physical_gpus :
      Node P → List (ResourceSlice P) → Bool → CaptureOptions → Result CaptureError ℤ
  unfolding whole_gpus count_counter_sets
  physical_gpus node published partitioned opts = gpus_or_error node.name partitioned (
      or_else (positive (some (count_counter_sets P published))) (
        or_else (if partitioned then none else whole_gpus node.labels published)
          (positive (some opts.gpus_per_node))))

  -- What `shapeOf` gives without an error: the shape, if any, and the warnings.
  abbrev pub Reading : Type 0
  Reading = Option (NodeShape P) × List (Warning P)

  abbrev pub skip : Node P → Skip → Reading
  skip node reason = (none, skipped node.name reason ∷ [])

  -- The hardware that the labels describe.
  pub record Hardware : Type 0 where
    pub product : Text
    pub memory : P.Quantity
    pub compute : Text

  abbrev pub whole_shape : Hardware → ℤ → List (ResourceSlice P) → NodeShape P
  whole_shape h gpus published = record {
    product = h.product;
    memory = h.memory;
    compute = h.compute;
    gpus = gpus;
    sharing = sharing_mode_none;
    partition = [];
    topology = topology_of P published;
    profiles = [];
  }

  abbrev pub whole_warnings : Text → Option ℤ → List (Warning P)
  whole_warnings node none = []
  whole_warnings node (some whole) =
      if is_positive whole then whole_gpus_left node whole ∷ [] else []

  -- `if partitioned { ... }`. `strconv.Atoi` reads a 64-bit integer.
  unfoldable pub partitioned_shape :
      Node P → Hardware → Dict Text ℤ → NodeShape P → List (Warning P) → Reading
  unfolding mig_layout lookup parse_int
  partitioned_shape node h resources shape warnings =
      let layout = mig_layout P node.name h.product h.memory resources shape.gpus in
      (
        some (record shape {
          sharing = sharing_mode_mig;
          partition = layout.partition;
          profiles = layout.profiles;
        }),
        warnings
            ++ (whole_warnings node.name (parse_int (2 ^ 63) (label_of label_gpu_count node.labels))
                ++ layout.warnings),
      )

  abbrev pub strategy_warnings : Node P → List (Warning P)
  strategy_warnings node =
      if label_of label_mig_strategy node.labels == mig_strategy_single
      then single_strategy node.name ∷ []
      else []

  unfoldable pub is_partitioned : Node P → Bool
  unfolding lookup mig_capacity
  is_partitioned node =
      label_of label_mig_strategy node.labels == mig_strategy_mixed
      || not (is_empty (mig_capacity P node.capacity))

  -- The rest of `shapeOf`, on hardware that is known.
  unfoldable pub shape_from :
      Node P → List (ResourceSlice P) → CaptureOptions → Hardware → Result CaptureError Reading
  unfolding physical_gpus partitioned_shape is_partitioned topology_of
  shape_from node published opts h = do
    gpus ← physical_gpus node published (is_partitioned node) opts
    let shape = whole_shape h gpus published
    let warnings = strategy_warnings node
    ok (
        if is_partitioned node
        then partitioned_shape node h (mig_capacity P node.capacity) shape warnings
        else (some shape, warnings))

  -- The labels in the order in which they are looked at: the hardware, or why the node is skipped.
  unfoldable pub hardware_of : Labels → Result Skip Hardware
  unfolding lookup gpu_memory compute_capability
  hardware_of labels =
      let product = label_of label_gpu_product labels in
      if product == [] then err no_product else elim (gpu_memory P labels) [
        | none ↦ err no_memory
        | some memory ↦ elim (compute_capability labels) [
          | none ↦ err no_capability
          | some compute ↦ ok (record { product = product; memory = memory; compute = compute })
        ]
      ]

  abbrev pub shape_or_skip :
      Node P
      → List (ResourceSlice P)
      → CaptureOptions
      → Result Skip Hardware
      → Result CaptureError Reading
  shape_or_skip node published opts (err reason) = ok (skip node reason)
  shape_or_skip node published opts (ok h) = shape_from node published opts h

  unfoldable pub shape_of :
      Node P → List (ResourceSlice P) → CaptureOptions → Result CaptureError Reading
  unfolding hardware_of shape_from lookup
  shape_of node published opts =
      if label_of label_gpu_present node.labels == label_true
      then shape_or_skip node published opts (hardware_of node.labels)
      else ok (none, [])
