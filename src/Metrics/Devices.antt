-- ===== src/Metrics/Devices.antt =====
-- internal/metrics/collector.go: what is read back from a published device (`cardIndex`, `occupied`,
-- `faultedXID`, `stringAttr`, `intAttr`, `deviceMemoryMiB`).
pub mod ReadBack
use ghostgpu.Base.{
  ℕ, ◌^◌, Bool, true, false, Option, none, some, List, [], ◌∷◌, Text, codes, text_eq, ◌==◌,
  if◌then◌else◌,
}
use ghostgpu.Base.Dict.{lookup}
use ghostgpu.Base.Int.{ℤ, pos, ltb_ℤ, quot, wrap32}
use ghostgpu.Text.{cut, cut_prefix, parse_int}
use ghostgpu.Platform.{Platform}
use ghostgpu.Api.{DeviceAttribute, string_value, int_value, other_value, DeviceTaint, Device}
use ghostgpu.Gpu.Occupancy.{occupied_taint_key}
use ghostgpu.Gpu.Faults.{faulted_taint_key}
use ghostgpu.Gpu.Labels.{mib}

-- `digits, _, _ := strings.Cut(rest, "-")`
abbrev pub before_dash : Text → Option (Text × Text) → Text
before_dash rest none = rest
before_dash rest (some (digits, tail)) = digits

-- `if err != nil || index < 0`
abbrev pub index_of : Option ℤ → Option ℤ
index_of none = none
index_of (some index) = if ltb_ℤ index (pos 0) then none else some index

abbrev pub index_after : Option Text → Option ℤ
index_after none = none
index_after (some rest) = index_of (parse_int (2 ^ 31) (before_dash rest (cut b'-' rest)))

unfoldable pub card_index : Text → Option ℤ
unfolding cut_prefix cut parse_int
card_index name = index_after (cut_prefix (codes "gpu-") name)

unfoldable pub is_occupied_taints : List DeviceTaint → Bool
is_occupied_taints [] = false
is_occupied_taints (t ∷ taints) =
    let rest = is_occupied_taints taints in if t.key == occupied_taint_key then true else rest

-- The number behind `xid-`, zero if there is none.
abbrev pub xid_of : Option ℤ → ℤ
xid_of none = pos 0
xid_of (some xid) = xid

abbrev pub xid_after : Option Text → ℤ
xid_after none = pos 0
xid_after (some digits) = xid_of (parse_int (2 ^ 31) digits)

-- The loop of `faultedXID`: the error, and whether the device is failed.
unfoldable pub faulted_xid_taints : List DeviceTaint → ℤ × Bool
unfolding cut_prefix parse_int
faulted_xid_taints [] = (pos 0, false)
faulted_xid_taints (t ∷ taints) =
    let rest = faulted_xid_taints taints in
    if t.key == faulted_taint_key
    then (xid_after (cut_prefix (codes "xid-") t.value), true)
    else rest

module _ (P : Platform) where
  unfoldable pub occupied : Device P → Bool
  unfolding is_occupied_taints
  occupied device = is_occupied_taints device.taints

  unfoldable pub faulted_xid : Device P → ℤ × Bool
  unfolding faulted_xid_taints
  faulted_xid device = faulted_xid_taints device.taints

  abbrev text_of : Option DeviceAttribute → Text
  text_of (some (string_value s)) = s
  text_of (some (int_value i)) = []
  text_of (some other_value) = []
  text_of none = []

  abbrev number_of : Option DeviceAttribute → ℤ
  number_of (some (int_value i)) = wrap32 i
  number_of (some (string_value s)) = pos 0
  number_of (some other_value) = pos 0
  number_of none = pos 0

  unfoldable pub string_attr : Device P → Text → Text
  unfolding lookup
  string_attr device name = text_of (lookup name device.attributes)

  unfoldable pub int_attr : Device P → Text → ℤ
  unfolding lookup
  int_attr device name = number_of (lookup name device.attributes)

  abbrev mib_of : Option P.Quantity → ℤ
  mib_of none = pos 0
  mib_of (some q) = quot (P.quantity_value q) mib

  unfoldable pub device_memory_mib : Device P → ℤ
  unfolding lookup quot
  device_memory_mib device = mib_of (lookup (codes "memory") device.capacity)
