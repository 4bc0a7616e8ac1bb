-- ===== src/Gpu/Occupancy.antt =====
-- internal/gpu/occupancy.go: the GPUs that a pool declares busy. An error is its constructor with the
-- values that the message prints.
pub mod Selectors
use ghostgpu.Base.{
  Bool, true, false, Option, none, some, List, [], ◌∷◌, Text, codes, text_eq, ◌==◌, if◌then◌else◌,
}
use ghostgpu.Base.Dict.{get_or}
use ghostgpu.Base.Int.{ℤ, pos, ltb_ℤ, min_ℤ, max_ℤ}
use ghostgpu.Platform.{Platform}
use ghostgpu.Api.{Labels, OccupancyEntry, GpuPool, Node, DeviceTaint, no_schedule}

abbrev pub occupied_taint_key : Text
occupied_taint_key = codes "ghostgpu.dev/occupied"

abbrev pub occupied_taint_value : Text
occupied_taint_value = codes "ghostgpu"

unfoldable pub occupied_taint : DeviceTaint
occupied_taint = record {
  key = occupied_taint_key;
  value = occupied_taint_value;
  effect = no_schedule;
}

-- `labels[key] != value` reads a missing key as the empty text.
unfoldable pub selector_matches : Labels → Labels → Bool
selector_matches [] labels = true
selector_matches ((key, value) ∷ selector) labels =
    let rest = selector_matches selector labels in
    if get_or key labels [] == value then rest else false

-- The loop of `BusyGPUs`: the first entry that matches, clamped to the node's GPUs.
unfoldable pub busy_of : ℤ → Labels → List OccupancyEntry → ℤ
unfolding selector_matches
busy_of gpus labels [] = pos 0
busy_of gpus labels (e ∷ es) =
    let rest = busy_of gpus labels es in
    if selector_matches e.node_selector labels
    then max_ℤ (pos 0) (min_ℤ e.busy_per_node gpus)
    else rest

pub data OccupancyError : Type 0 where
  busy_negative : (selector : Labels) (busy : ℤ) → OccupancyError
  busy_exceeds : (selector : Labels) (busy gpus : ℤ) → OccupancyError

-- The loop of `ValidateOccupancy`; `none` is the nil error.
unfoldable pub validate_occupancy_entries : ℤ → List OccupancyEntry → Option OccupancyError
validate_occupancy_entries gpus [] = none
validate_occupancy_entries gpus (e ∷ es) =
    let rest = validate_occupancy_entries gpus es in
    if ltb_ℤ e.busy_per_node (pos 0)
    then some (busy_negative e.node_selector e.busy_per_node)
    else if ltb_ℤ gpus e.busy_per_node
    then some (busy_exceeds e.node_selector e.busy_per_node gpus)
    else rest

module _ (P : Platform) where
  unfoldable pub busy_gpus : GpuPool P → Node P → ℤ
  unfolding busy_of
  busy_gpus pool node = busy_of pool.spec.gpus_per_node node.labels pool.spec.occupancy

  unfoldable pub validate_occupancy : GpuPool P → Option OccupancyError
  unfolding validate_occupancy_entries
  validate_occupancy pool = validate_occupancy_entries pool.spec.gpus_per_node pool.spec.occupancy
