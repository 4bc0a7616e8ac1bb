-- ===== src/Gpu/MigSlices.antt =====
-- internal/gpu/migslices.go: the ResourceSlices of a node whose GPUs are partitioned, split into
-- shards by the limits of the API.
pub mod Shards
use ghostgpu.Base.{
  ℕ, ◌+◌, ◌-◌, ◌*◌, Bool, true, false, Option, none, some, List, [], ◌∷◌, ◌++◌, map, count_from,
  length, take, drop, min, Text, codes, text_eq, ◌==◌, if◌then◌else◌,
}
use ghostgpu.Base.Dict.{Dict}
use ghostgpu.Base.Int.{ℤ, pos, pos_part, leb_ℤ, quot, wrap32, ◌+ℤ◌, ◌-ℤ◌}
use ghostgpu.Text.{format_int}
use ghostgpu.Platform.{Platform, decimal_si}
use ghostgpu.Api.{
  MigPartitionEntry, GpuPool, GpuModel, DeviceAttribute, string_value, int_value, Device,
  CounterSet, ResourceSlice,
}
use ghostgpu.Mig.{Budget, Table}
use ghostgpu.Mig.Expand.{Instance, counter_set_name, expand}
use ghostgpu.Mig.Partition.{expand_partitioned}
use ghostgpu.Gpu.Identity.{device_uuid}
use ghostgpu.Gpu.Faults.{NodeState, taint_of}
use ghostgpu.Gpu.WholeSlice.{
  driver_name, attr_product_name, attr_vendor, attr_uuid, attr_mig_profile, attr_mig_instance_id,
  add_topology, taint_list,
}

abbrev pub max_counter_sets_per_slice : ℕ
max_counter_sets_per_slice = 8

abbrev pub max_mig_devices_per_slice : ℕ
max_mig_devices_per_slice = 64

abbrev pub counter_memory : Text
counter_memory = codes "memory"

abbrev pub counter_slices : Text
counter_slices = codes "slices"

unfoldable pub mig_counter_slice_name : Text → Text → ℕ → Text
unfolding format_int
mig_counter_slice_name pool node shard =
    pool ++ (b'-' ∷ (node ++ (codes "-counters-" ++ format_int (pos shard))))

unfoldable pub mig_device_slice_name : Text → Text → ℕ → Text
unfolding format_int
mig_device_slice_name pool node shard =
    pool ++ (b'-' ∷ (node ++ (codes "-devices-" ++ format_int (pos shard))))

unfoldable pub ceil_div : ℤ → ℤ → ℤ
unfolding quot ◌+ℤ◌ ◌-ℤ◌
ceil_div a b = if leb_ℤ a (pos 0) then pos 0 else quot (a +ℤ b -ℤ pos 1) b

module _ (P : Platform) where
  unfoldable pub budget_counters : Budget P → Dict Text P.Quantity
  budget_counters b =
      (counter_memory, b.memory) ∷ (counter_slices, P.new_quantity b.slices decimal_si) ∷ []

  unfoldable pub new_mig_slice : Text → Text → ℤ → ResourceSlice P
  new_mig_slice name node total = record {
    name = name;
    labels = [];
    owner = none;
    spec = record {
      driver = driver_name;
      node_name = some node;
      pool_name = node;
      generation = pos 1;
      resource_slice_count = total;
      shared_counters = [];
      devices = [];
    };
  }

  -- One MIG instance as a device, without its taint.
  unfoldable pub mig_device : GpuPool P → GpuModel P → Instance P → Text → Device P
  unfolding add_topology device_uuid
  mig_device pool model instance_ node = record {
    name = instance_.device_name;
    attributes = add_topology pool.spec.topology instance_.gpu_index (
        (attr_product_name, string_value model.spec.product_name)
        ∷ (attr_vendor, string_value model.spec.vendor)
        ∷ (attr_uuid, string_value (device_uuid P node instance_.gpu_index))
        ∷ (attr_mig_profile, string_value instance_.profile.name)
        ∷ (attr_mig_instance_id, int_value instance_.instance_id)
        ∷ []);
    capacity = (counter_memory, instance_.profile.memory) ∷ [];
    taints = [];
    consumes_counters =
        record {
          counter_set = instance_.counter_set;
          counters =
              (counter_memory, instance_.profile.memory)
              ∷ (counter_slices, P.new_quantity instance_.profile.slices decimal_si)
              ∷ [];
        }
        ∷ [];
  }

  -- The device with the taint of its card.
  unfoldable pub tainted_device : GpuPool P → GpuModel P → Text → NodeState → Instance P → Device P
  unfolding mig_device taint_of
  tainted_device pool model node state instance_ = record (mig_device pool model instance_ node) {
    taints = taint_list (taint_of state instance_.gpu_index);
  }

  unfoldable pub instances_for : GpuPool P → Table P → List (Instance P)
  unfolding expand expand_partitioned
  instances_for pool table = elim pool.spec.mig_partition [
    | [] ↦ expand P pool.spec.gpus_per_node table
    | e ∷ es ↦ expand_partitioned P pool.spec.gpus_per_node table (e ∷ es)
  ]

  unfoldable pub counter_set_of : Budget P → ℕ → CounterSet P
  unfolding counter_set_name budget_counters
  counter_set_of budget gpu = record {
    name = counter_set_name (pos gpu);
    counters = budget_counters budget;
  }

  -- The counter sets of the GPUs from `first` up, `n` of them.
  unfoldable pub counter_sets : Budget P → ℕ → ℕ → List (CounterSet P)
  unfolding counter_set_of
  counter_sets budget first n = map (counter_set_of budget) (count_from first n)

  module _ (pool : GpuPool P) (model : GpuModel P) (table : Table P) (node : Text)
      (state : NodeState) where
    -- The body of the first loop.
    unfoldable pub counter_slice : ℤ → ℕ → ResourceSlice P
    unfolding new_mig_slice counter_sets mig_counter_slice_name
    counter_slice total shard =
        let first = shard * max_counter_sets_per_slice in
        let last = min (first + max_counter_sets_per_slice) (pos_part pool.spec.gpus_per_node) in
        let slice = new_mig_slice (mig_counter_slice_name pool.name node shard) node total in
        record slice {
          spec = record (slice.spec) {
            shared_counters = counter_sets table.budget first (last - first);
          };
        }

    -- The body of the second loop.
    unfoldable pub device_slice : ℤ → List (Instance P) → ℕ → ResourceSlice P
    unfolding new_mig_slice tainted_device mig_device_slice_name
    device_slice total instances shard =
        let first = shard * max_mig_devices_per_slice in
        let last = min (first + max_mig_devices_per_slice) (length instances) in
        let slice = new_mig_slice (mig_device_slice_name pool.name node shard) node total in
        record slice {
          spec = record (slice.spec) {
            devices =
                map (tainted_device pool model node state)
                  (take (last - first) (drop first instances));
          };
        }

    unfoldable pub build_mig_slices : List (ResourceSlice P)
    unfolding instances_for ceil_div counter_slice device_slice
    build_mig_slices =
        let instances = instances_for pool table in
        let counter_shards = ceil_div pool.spec.gpus_per_node (pos max_counter_sets_per_slice) in
        let device_shards = ceil_div (pos (length instances)) (pos max_mig_devices_per_slice) in
        let total = wrap32 (counter_shards +ℤ device_shards) in
        map (counter_slice total) (count_from 0 (pos_part counter_shards))
        ++ map (device_slice total instances) (count_from 0 (pos_part device_shards))
