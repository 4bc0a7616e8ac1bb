-- ===== src/Api.antt =====
-- The objects of the program: api/v1alpha1/gpupool_types.go and gpumodel_types.go, and the parts that
-- it reads and writes of the Kubernetes types Node, ResourceSlice and their fields. A Go map is an
-- association list, an optional pointer an `Option`, a string a `Text`, an `int32` an integer.
use ghostgpu.Base.{Bool, true, Option, none, some, List, Text, codes, text_eq, ◌==◌}
use ghostgpu.Base.Dict.{Dict}
use ghostgpu.Base.Int.{ℤ}
use ghostgpu.Platform.{Platform}

abbrev pub Labels : Type 0
Labels = Dict Text Text

pub record AdvertiseSpec : Type 0 where
  pub dra : Option Bool
  pub extended_resource : Option Bool

pub record TopologySpec : Type 0 where
  pub nvlink_domain_size : ℤ
  pub numa_aware : Bool

pub record MigPartitionEntry : Type 0 where
  pub profile : Text
  pub count : ℤ

pub record FaultEntry : Type 0 where
  pub node_selector : Labels
  pub gpus : ℤ
  pub effect : Text
  pub xid : ℤ

pub record OccupancyEntry : Type 0 where
  pub node_selector : Labels
  pub busy_per_node : ℤ

pub record UtilizationSample : Type 0 where
  pub gpu_util : Option ℤ
  pub mem_copy_util : Option ℤ
  pub fb_used_percent : Option ℤ
  pub gr_engine_active_percent : Option ℤ
  pub tensor_active_percent : Option ℤ
  pub power_watts : Option ℤ
  pub temperature_c : Option ℤ

module _ (P : Platform) where
  pub record WorkloadUtilization : Type 0 where
    pub pod_selector : Option P.LabelSelector
    pub sample : UtilizationSample

  pub record UtilizationSpec : Type 0 where
    pub when_allocated : Option UtilizationSample
    pub when_idle : Option UtilizationSample
    pub workloads : List WorkloadUtilization

  pub record GpuPoolSpec : Type 0 where
    pub model_ref : Text
    pub node_selector : Labels
    pub gpus_per_node : ℤ
    pub advertise : AdvertiseSpec
    pub mig_partition : List MigPartitionEntry
    pub faults : List FaultEntry
    pub utilization : Option UtilizationSpec
    pub occupancy : List OccupancyEntry
    pub sharing_mode : Text
    pub topology : TopologySpec

-- A message is a sequence of parts, each a format of `fmt.Sprintf` with its arguments.
pub data Argument : Type 0 where
  string_argument : Text → Argument
  number_argument : ℤ → Argument
  labels_argument : Labels → Argument

abbrev pub Message : Type 0
Message = List (Text × List Argument)

-- `metav1.Condition` without its time stamps.
pub record Condition : Type 0 where
  pub kind : Text
  pub status : Bool
  pub reason : Text
  pub message : Message
  pub observed_generation : ℤ

pub record GpuPoolStatus : Type 0 where
  pub conditions : List Condition
  pub observed_generation : ℤ
  pub nodes_matched : ℤ
  pub devices_published : ℤ
  pub gpus_occupied : ℤ
  pub gpus_faulted : ℤ
  pub mig_profiles_published : ℤ

module _ (P : Platform) where
  pub record GpuPool : Type 0 where
    pub name : Text
    pub generation : ℤ
    pub spec : GpuPoolSpec P
    pub status : GpuPoolStatus

  pub record MigProfileSpec : Type 0 where
    pub name : Text
    pub memory : P.Quantity
    pub slices : ℤ

  pub record MigBudgetSpec : Type 0 where
    pub memory : Option P.Quantity
    pub slices : ℤ

  pub record GpuModelSpec : Type 0 where
    pub vendor : Text
    pub product_name : Text
    pub memory : P.Quantity
    pub compute_capability : Text
    pub mig_profiles : List MigProfileSpec
    pub mig_budget : Option MigBudgetSpec

  pub record GpuModel : Type 0 where
    pub name : Text
    pub spec : GpuModelSpec

-- The methods of the specification types.
module _ (a : AdvertiseSpec) where
  -- `a.DRA == nil || *a.DRA`
  unfoldable pub dra_enabled : Bool
  dra_enabled = elim a.dra [ none ↦ true | some b ↦ b ]

  unfoldable pub extended_resource_enabled : Bool
  extended_resource_enabled = elim a.extended_resource [ none ↦ true | some b ↦ b ]

abbrev pub sharing_mode_none : Text
sharing_mode_none = codes "none"

abbrev pub sharing_mode_mig : Text
sharing_mode_mig = codes "mig"

abbrev pub fault_effect_evict : Text
fault_effect_evict = codes "Evict"

abbrev pub fault_effect_unschedulable : Text
fault_effect_unschedulable = codes "Unschedulable"

module _ (P : Platform) where
  unfoldable pub mig_enabled : GpuPoolSpec P → Bool
  mig_enabled s = s.sharing_mode == sharing_mode_mig

-- Kubernetes types, of code outside the repository: the fields that the program uses.
pub data DeviceTaintEffect : Type 0 where
  no_schedule no_execute : DeviceTaintEffect

pub record DeviceTaint : Type 0 where
  pub key : Text
  pub value : Text
  pub effect : DeviceTaintEffect

pub data DeviceAttribute : Type 0 where
  string_value : Text → DeviceAttribute
  int_value : ℤ → DeviceAttribute
  other_value : DeviceAttribute

module _ (P : Platform) where
  abbrev pub ResourceList : Type 0
  ResourceList = Dict Text P.Quantity

  pub record Node : Type 0 where
    pub name : Text
    pub labels : Labels
    pub annotations : Labels
    pub capacity : ResourceList
    pub allocatable : ResourceList

  pub record CounterSet : Type 0 where
    pub name : Text
    pub counters : Dict Text P.Quantity

  pub record DeviceCounterConsumption : Type 0 where
    pub counter_set : Text
    pub counters : Dict Text P.Quantity

  pub record Device : Type 0 where
    pub name : Text
    pub attributes : Dict Text DeviceAttribute
    pub capacity : Dict Text P.Quantity
    pub taints : List DeviceTaint
    pub consumes_counters : List DeviceCounterConsumption

  pub record ResourceSliceSpec : Type 0 where
    pub driver : Text
    pub node_name : Option Text
    pub pool_name : Text
    pub generation : ℤ
    pub resource_slice_count : ℤ
    pub shared_counters : List CounterSet
    pub devices : List Device

  -- `owner` is the pool that `SetControllerReference` names.
  pub record ResourceSlice : Type 0 where
    pub name : Text
    pub labels : Labels
    pub owner : Option Text
    pub spec : ResourceSliceSpec
