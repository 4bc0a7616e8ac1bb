-- ===== src/Tests/OfCapture.antt =====
-- The theorems on capture at a concrete node.
use ghostgpu.Base.{
  ◌*◌, ◌/◌, ◌^◌, true, false, some, [], ◌∷◌, ◌≡◌, refl, arith, ok, err, codes, text_eq,
}
use ghostgpu.Base.Int.{quot, ◌<ℤ◌, pos}
use ghostgpu.Platform.{binary_si}
use ghostgpu.Platform.Memory.{memory}
use ghostgpu.Api.{mig_enabled, Node}
use ghostgpu.Cli.Up.{is_compute_capability}
use ghostgpu.Gpu.Labels.{node_labels}
use ghostgpu.Cli.Capture.{CaptureOptions, CaptureResult}
use ghostgpu.Cli.Capture.Published.{count_counter_sets, topology_of}
use ghostgpu.Cli.Capture.Labels.{mig_capacity}
use ghostgpu.Cli.Capture.Shapes.{physical_gpus, shape_of}
use ghostgpu.Cli.Capture.Shapes.Gpus.{IsCount, physical_gpus-IsCount}
use ghostgpu.Cli.Capture.Shapes.RoundTrip.{IsReadable, shape_of-node_labels}
use ghostgpu.Cli.Capture.Fleet.{capture}
use ghostgpu.Cli.Capture.Sound.{IsFleet, capture-IsFleet}
use ghostgpu.Tests.Samples.{gib, whole_pool, model, kwok_node}

abbrev options : CaptureOptions
options = record { gpus_per_node = pos 4; emit_nodes = true }

-- A node with the labels that the operator gives it.
abbrev labelled_node : Node memory
labelled_node = record kwok_node {
  labels = node_labels memory whole_pool model;
  capacity = (codes "cpu", gib 8) ∷ [];
}

physical_gpus-IsCount_example :
    IsCount (pos 2) × (pos 0 <ℤ count_counter_sets memory [] → pos 2 ≡ count_counter_sets memory [])
unfolding physical_gpus node_labels text_eq
physical_gpus-IsCount_example =
    physical_gpus-IsCount memory labelled_node [] false options (pos 2) (omega arith, omega arith)
      refl

labelled_node-IsReadable :
    IsReadable memory whole_pool model 2 (40 * 2 ^ 30) (codes "8") (codes "0")
unfolding text_eq is_compute_capability quot mig_enabled
labelled_node-IsReadable = record {
  whole = refl;
  gpus_lem = refl;
  some_gpu = omega arith;
  gpus_lt = omega arith;
  product_lem = refl;
  memory_lem = refl;
  some_memory = omega arith;
  memory_lt = omega arith;
  capability_lem = refl;
  before_dot = ground arith;
  is_capability = refl;
  some_major = refl;
  some_minor = refl;
}

shape_of-node_labels_example :
    shape_of memory labelled_node [] options
    ≡ ok (
      some (record {
        product = codes "A100-SXM4-40GB";
        memory = memory.new_quantity (pos (40 * 2 ^ 30 / 2 ^ 20 * 2 ^ 20)) binary_si;
        compute = codes "8.0";
        gpus = pos 2;
        sharing = codes "none";
        partition = [];
        topology = topology_of memory [];
        profiles = [];
      }),
      [],
    )
unfolding mig_capacity count_counter_sets
shape_of-node_labels_example =
    shape_of-node_labels memory labelled_node [] options whole_pool model 2 (40 * 2 ^ 30)
      (codes "8") (codes "0") labelled_node-IsReadable refl refl refl

-- What is captured of the node.
unfoldable captured_fleet : CaptureResult memory
unfolding capture
captured_fleet = elim (capture memory (labelled_node ∷ []) [] options) [
  | ok r ↦ r
  | err e ↦ record { objects = []; warnings = [] }
]

capture-IsFleet_example : IsFleet memory captured_fleet.objects
unfolding captured_fleet capture node_labels text_eq
capture-IsFleet_example = capture-IsFleet memory (labelled_node ∷ []) [] options captured_fleet refl
