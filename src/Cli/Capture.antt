-- ===== src/Cli/Capture.antt =====
-- internal/cli/capture.go: the types of a capture, its warnings and errors, and the keys that tell
-- shapes apart. A warning or an error is a constructor with the values that the message prints.
pub mod Published
pub mod Labels
pub mod Layout
pub mod Shapes
pub mod Manifests
pub mod Fleet
pub mod Picked
pub mod Names
pub mod Sound
use ghostgpu.Base.{Bool, true, false, Option, List, [], ◌∷◌, ◌++◌, if◌then◌else◌, Text, codes}
use ghostgpu.Base.Int.{ℤ, pos}
use ghostgpu.Text.{format_int}
use ghostgpu.Platform.{Platform}
use ghostgpu.Api.{TopologySpec, MigPartitionEntry, MigProfileSpec, ResourceList}
use ghostgpu.Mig.Partition.{PartitionError}
use ghostgpu.Cli.Objects.{Object}

abbrev pub shape_label : Text
shape_label = codes "ghostgpu.dev/shape"

abbrev pub label_true : Text
label_true = codes "true"

abbrev pub max_instances_per_gpu : ℤ
max_instances_per_gpu = pos 8

abbrev pub default_pods : ℤ
default_pods = pos 110

abbrev pub default_mig_slices : ℤ
default_mig_slices = pos 7

abbrev pub mig_strategy_single : Text
mig_strategy_single = codes "single"

pub record CaptureOptions : Type 0 where
  pub gpus_per_node : ℤ
  pub emit_nodes : Bool

-- What keeps a node from being reproduced.
pub data Skip : Type 0 where
  no_product no_memory no_capability : Skip

pub data CaptureError : Type 0 where
  gpus_unknown_partitioned gpus_unknown : (node : Text) → CaptureError
  no_gpu_nodes : CaptureError

module _ (P : Platform) where
  pub data Warning : Type 0 where
    skipped : (node : Text) (reason : Skip) → Warning
    single_strategy : (node : Text) → Warning
    whole_gpus_left : (node : Text) (whole : ℤ) → Warning
    no_table : (node product : Text) → Warning
    unreadable_profile : (node profile : Text) → Warning
    fewer_than_gpus : (node : Text) (total : ℤ) (profile : Text) (gpus : ℤ) → Warning
    not_uniform : (node : Text) (total : ℤ) (profile : Text) (gpus per_gpu captured : ℤ) → Warning
    too_many : (node : Text) (per_gpu : ℤ) (profile : Text) (cap : ℤ) → Warning
    does_not_fit : (node : Text) (error : PartitionError P) → Warning
    nodes_not_emitted : Warning

  pub record CaptureResult : Type 0 where
    pub objects : List (Object P)
    pub warnings : List Warning

  pub record NodeShape : Type 0 where
    pub product : Text
    pub memory : P.Quantity
    pub compute : Text
    pub gpus : ℤ
    pub sharing : Text
    pub partition : List MigPartitionEntry
    pub topology : TopologySpec
    pub profiles : List (MigProfileSpec P)

  pub record ShapeGroup : Type 0 where
    pub shape : NodeShape
    pub capacities : List (ResourceList P)

  abbrev format_bool : Bool → Text
  format_bool true = codes "true"
  format_bool false = codes "false"

  -- The loops that write the partition and the profiles.
  unfoldable pub partition_key : List MigPartitionEntry → Text
  unfolding format_int
  partition_key [] = []
  partition_key (e ∷ es) =
      codes "|part:" ++ (e.profile ++ (b'=' ∷ (format_int e.count ++ partition_key es)))

  unfoldable pub profiles_key : List (MigProfileSpec P) → Text
  unfolding format_int
  profiles_key [] = []
  profiles_key (p ∷ ps) =
      codes "|prof:"
      ++ (p.name
          ++ (b'=' ∷ (P.print p.memory ++ (b'/' ∷ (format_int p.slices ++ profiles_key ps)))))

  -- `key`
  unfoldable pub shape_key : NodeShape → Text
  unfolding partition_key profiles_key format_int
  shape_key s =
      s.product
      ++ (b'|'
          ∷ (P.print s.memory
              ++ (b'|'
                  ∷ (s.compute
                      ++ (b'|'
                          ∷ (format_int s.gpus
                              ++ (b'|'
                                  ∷ (s.sharing
                                      ++ (b'|'
                                          ∷ (format_int s.topology.nvlink_domain_size
                                              ++ (b'|'
                                                  ∷ (format_bool s.topology.numa_aware
                                                      ++ (partition_key s.partition
                                                          ++ profiles_key s.profiles)))))))))))))

  unfoldable pub model_key : NodeShape → Text
  unfolding profiles_key
  model_key s =
      s.product ++ (b'|' ∷ (P.print s.memory ++ (b'|' ∷ (s.compute ++ profiles_key s.profiles))))
