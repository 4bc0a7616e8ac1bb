-- ===== src/Gpu/Labels.antt =====
-- internal/gpu/nodelabels.go: the GPU Feature Discovery labels of a node.
use ghostgpu.Base.{◌^◌, Bool, true, false, Option, none, some, [], ◌∷◌, Text, codes, text_eq}
use ghostgpu.Base.Dict.{insert}
use ghostgpu.Base.Int.{ℤ, pos, quot}
use ghostgpu.Text.{format_int, cut}
use ghostgpu.Platform.{Platform}
use ghostgpu.Api.{Labels, GpuPool, GpuModel, mig_enabled}

abbrev pub mib : ℤ
mib = pos (2 ^ 20)

abbrev pub label_true : Text
label_true = codes "true"

abbrev pub label_gpu_present : Text
label_gpu_present = codes "nvidia.com/gpu.present"

abbrev pub label_gpu_count : Text
label_gpu_count = codes "nvidia.com/gpu.count"

abbrev pub label_gpu_product : Text
label_gpu_product = codes "nvidia.com/gpu.product"

abbrev pub label_gpu_memory : Text
label_gpu_memory = codes "nvidia.com/gpu.memory"

abbrev pub label_compute_major : Text
label_compute_major = codes "nvidia.com/gpu.compute.major"

abbrev pub label_compute_minor : Text
label_compute_minor = codes "nvidia.com/gpu.compute.minor"

abbrev pub label_mig_capable : Text
label_mig_capable = codes "nvidia.com/mig.capable"

abbrev pub label_mig_strategy : Text
label_mig_strategy = codes "nvidia.com/mig.strategy"

abbrev pub mig_strategy_mixed : Text
mig_strategy_mixed = codes "mixed"

module _ (P : Platform) where
  abbrev pub base_labels : GpuPool P → GpuModel P → Labels
  base_labels pool model =
      (label_gpu_present, label_true)
      ∷ (label_gpu_count, format_int pool.spec.gpus_per_node)
      ∷ (label_gpu_product, model.spec.product_name)
      ∷ (label_gpu_memory, format_int (quot (P.quantity_value model.spec.memory) mib))
      ∷ []

  -- `if major, minor, ok := strings.Cut(...)`
  abbrev pub with_capability : Option (Text × Text) → Labels → Labels
  with_capability none labels = labels
  with_capability (some (major, minor)) labels =
      insert label_compute_minor minor (insert label_compute_major major labels)

  -- `if pool.Spec.MIGEnabled()`: the count drops to zero, since no card is left whole.
  abbrev pub with_mig : Bool → Labels → Labels
  with_mig false labels = labels
  with_mig true labels =
      insert label_gpu_count (codes "0")
        (insert label_mig_strategy mig_strategy_mixed (insert label_mig_capable label_true labels))

  unfoldable pub node_labels : GpuPool P → GpuModel P → Labels
  unfolding format_int quot cut insert mig_enabled
  node_labels pool model =
      with_mig (mig_enabled P pool.spec)
        (with_capability (cut b'.' model.spec.compute_capability) (base_labels pool model))
