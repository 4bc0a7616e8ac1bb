-- ===== src/Gpu/WholeSlice.antt =====
-- internal/gpu/resourceslice.go: the ResourceSlice of a node whose GPUs are whole.
pub mod Devices
use ghostgpu.Base.{
  ℕ, Bool, true, false, Option, none, some, List, [], ◌∷◌, ◌++◌, map, count_from, Text, codes,
  text_eq, ◌==◌, if◌then◌else◌,
}
use ghostgpu.Base.Dict.{Dict, insert}
use ghostgpu.Base.Int.{ℤ, pos, pos_part}
use ghostgpu.Platform.{Platform}
use ghostgpu.Api.{
  TopologySpec, GpuPool, GpuModel, DeviceAttribute, string_value, int_value, DeviceTaint, Device,
  ResourceSlice,
}
use ghostgpu.Gpu.Identity.{device_name, device_uuid, nvlink_domain, numa_node}
use ghostgpu.Gpu.Faults.{NodeState, taint_of}

abbrev pub driver_name : Text
driver_name = codes "gpu.ghostgpu.dev"

abbrev pub attr_product_name : Text
attr_product_name = codes "productName"

abbrev pub attr_vendor : Text
attr_vendor = codes "vendor"

abbrev pub attr_uuid : Text
attr_uuid = codes "uuid"

abbrev pub attr_nvlink_domain : Text
attr_nvlink_domain = codes "nvlinkDomain"

abbrev pub attr_numa_node : Text
attr_numa_node = codes "numaNode"

abbrev pub attr_mig_profile : Text
attr_mig_profile = codes "migProfile"

abbrev pub attr_mig_instance_id : Text
attr_mig_instance_id = codes "migInstanceID"

abbrev pub max_devices_per_slice : ℕ
max_devices_per_slice = 128

unfoldable pub slice_name : Text → Text → Text
slice_name pool node = pool ++ (b'-' ∷ node)

abbrev pub Attributes : Type 0
Attributes = Dict Text DeviceAttribute

-- The topology attributes, which both kinds of slices add in the same way.
unfoldable pub add_topology : TopologySpec → ℤ → Attributes → Attributes
unfolding nvlink_domain numa_node insert
add_topology topology index attrs =
    let domain = nvlink_domain index topology.nvlink_domain_size in
    let linked =
      if domain == [] then attrs else insert attr_nvlink_domain (string_value domain) attrs in
    if topology.numa_aware
    then insert attr_numa_node (int_value (numa_node index topology.nvlink_domain_size)) linked
    else linked

-- `if taint != nil { device.Taints = ... }`
abbrev pub taint_list : Option DeviceTaint → List DeviceTaint
taint_list none = []
taint_list (some t) = t ∷ []

module _ (P : Platform) where
  unfoldable pub whole_device : GpuPool P → GpuModel P → Text → NodeState → ℤ → Device P
  unfolding add_topology device_name device_uuid taint_of
  whole_device pool model node state i = record {
    name = device_name node i;
    attributes = add_topology pool.spec.topology i (
        (attr_product_name, string_value model.spec.product_name)
        ∷ (attr_vendor, string_value model.spec.vendor)
        ∷ (attr_uuid, string_value (device_uuid P node i))
        ∷ []);
    capacity = (codes "memory", model.spec.memory) ∷ [];
    taints = taint_list (taint_of state i);
    consumes_counters = [];
  }

  unfoldable pub build_resource_slice : GpuPool P → GpuModel P → Text → NodeState → ResourceSlice P
  unfolding whole_device slice_name
  build_resource_slice pool model node state = record {
    name = slice_name pool.name node;
    labels = [];
    owner = none;
    spec = record {
      driver = driver_name;
      node_name = some node;
      pool_name = node;
      generation = pos 1;
      resource_slice_count = pos 1;
      shared_counters = [];
      devices =
          map (λ i. whole_device pool model node state (pos i))
            (count_from 0 (pos_part pool.spec.gpus_per_node));
    };
  }
