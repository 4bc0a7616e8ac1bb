-- ===== src/Cli/Status/Devices.antt =====
-- internal/cli/status.go: the list of the devices (`describeDevices`).
use ghostgpu.Base.{
  Bool, true, false, Option, none, some, List, [], map, flat_map, if◌then◌else◌, Text, text_eq,
  ◌==◌, sort_by,
}
use ghostgpu.Base.Dict.{lookup}
use ghostgpu.Text.Split.{text_leb}
use ghostgpu.Platform.{Platform}
use ghostgpu.Api.{DeviceAttribute, string_value, int_value, other_value, Device, ResourceSlice}
use ghostgpu.Gpu.WholeSlice.{attr_mig_profile}
use ghostgpu.Cli.Status.{
  DeviceStatus, Holding, no_holding, Allocated, device_key_eq, is_occupied, is_faulted, owner_of,
  key_of,
}

abbrev pub is_held : Option Holding → Bool
is_held none = false
is_held (some h) = true

abbrev pub holding_or_none : Option Holding → Holding
holding_or_none none = no_holding
holding_or_none (some h) = h

-- `if attr, ok := ...; ok && attr.StringValue != nil`
abbrev pub profile_of : Option DeviceAttribute → Text
profile_of (some (string_value s)) = s
profile_of (some (int_value i)) = []
profile_of (some other_value) = []
profile_of none = []

-- `cmp.Compare` of the nodes, then of the devices.
unfoldable pub device_before : DeviceStatus → DeviceStatus → Bool
unfolding text_leb
device_before a b = if a.node == b.node then text_leb a.device b.device else text_leb a.node b.node

module _ (P : Platform) where
  unfoldable pub device_status : Allocated → ResourceSlice P → Device P → DeviceStatus
  unfolding lookup is_occupied is_faulted
  device_status allocated s d =
      let found = lookup (key_of P s d) allocated in
      let holder = holding_or_none found in
      record {
        node = s.spec.pool_name;
        pool = owner_of P s;
        device = d.name;
        profile = profile_of (lookup attr_mig_profile d.attributes);
        allocated = is_held found;
        occupied = is_occupied P d;
        faulted = is_faulted P d;
        pod = holder.pod;
        namespace = holder.namespace;
      }

  -- The rows in the order of the slices and their devices.
  unfoldable pub device_rows : List (ResourceSlice P) → Allocated → List DeviceStatus
  unfolding device_status
  device_rows published allocated =
      flat_map (λ s. map (device_status allocated s) s.spec.devices) published

  unfoldable pub describe_devices : List (ResourceSlice P) → Allocated → List DeviceStatus
  unfolding device_rows sort_by device_before
  describe_devices published allocated = sort_by device_before (device_rows published allocated)
