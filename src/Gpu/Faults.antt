-- ===== src/Gpu/Faults.antt =====
-- internal/gpu/faults.go: the GPUs that a pool declares failed, and the state of a node's devices.
pub mod States
use ghostgpu.Base.{
  Bool, true, false, not, ◌&&◌, ◌||◌, Option, none, some, List, [], ◌∷◌, ◌++◌, Text, codes, text_eq,
  ◌==◌, if◌then◌else◌,
}
use ghostgpu.Base.Int.{ℤ, pos, leb_ℤ, ltb_ℤ, min_ℤ, max_ℤ}
use ghostgpu.Text.{format_int}
use ghostgpu.Platform.{Platform}
use ghostgpu.Api.{
  Labels, FaultEntry, GpuPool, Node, DeviceTaint, no_schedule, no_execute, fault_effect_evict,
  fault_effect_unschedulable,
}
use ghostgpu.Gpu.Occupancy.{selector_matches, busy_gpus, occupied_taint}

abbrev pub faulted_taint_key : Text
faulted_taint_key = codes "ghostgpu.dev/faulted"

unfoldable pub fault_value : ℤ → Text
unfolding format_int
fault_value xid = if leb_ℤ xid (pos 0) then codes "unspecified" else codes "xid-" ++ format_int xid

unfoldable pub faulted_taint : Text → ℤ → DeviceTaint
unfolding fault_value
faulted_taint effect xid = record {
  key = faulted_taint_key;
  value = fault_value xid;
  effect = if effect == fault_effect_unschedulable then no_schedule else no_execute;
}

-- What a pool declares about one node's GPUs.
pub record NodeState : Type 0 where
  pub busy : ℤ
  pub faulted : ℤ
  pub effect : Text
  pub xid : ℤ

module _ (s : NodeState) where
  unfoldable pub unavailable : ℤ
  unavailable = max_ℤ s.busy s.faulted

  unfoldable pub is_faulted : ℤ → Bool
  is_faulted index = ltb_ℤ index s.faulted

  unfoldable pub is_occupied : ℤ → Bool
  unfolding is_faulted
  is_occupied index = not (is_faulted index) && ltb_ℤ index s.busy

  unfoldable pub taint_of : ℤ → Option DeviceTaint
  unfolding is_occupied faulted_taint occupied_taint
  taint_of index =
      if is_faulted index
      then some (faulted_taint s.effect s.xid)
      else if is_occupied index
      then some occupied_taint
      else none

-- The loop of `StateFor` over the faults: the first that matches fills in the state.
unfoldable pub fault_state : ℤ → Labels → List FaultEntry → NodeState → NodeState
unfolding selector_matches
fault_state gpus labels [] state = state
fault_state gpus labels (f ∷ fs) state =
    let rest = fault_state gpus labels fs state in
    if selector_matches f.node_selector labels
    then record state {
      faulted = max_ℤ (pos 0) (min_ℤ f.gpus gpus);
      effect = if f.effect == [] then fault_effect_evict else f.effect;
      xid = f.xid;
    }
    else rest

pub data FaultsError : Type 0 where
  faulted_negative : (selector : Labels) (gpus : ℤ) → FaultsError
  faulted_exceeds : (selector : Labels) (faulted gpus : ℤ) → FaultsError
  unknown_effect : (selector : Labels) (effect : Text) → FaultsError

-- The loop of `ValidateFaults`; `none` is the nil error.
unfoldable pub validate_fault_entries : ℤ → List FaultEntry → Option FaultsError
validate_fault_entries gpus [] = none
validate_fault_entries gpus (f ∷ fs) =
    let rest = validate_fault_entries gpus fs in
    if ltb_ℤ f.gpus (pos 0)
    then some (faulted_negative f.node_selector f.gpus)
    else if ltb_ℤ gpus f.gpus
    then some (faulted_exceeds f.node_selector f.gpus gpus)
    else if f.effect == []
    then rest
    else if f.effect == fault_effect_evict
    then rest
    else if f.effect == fault_effect_unschedulable
    then rest
    else some (unknown_effect f.node_selector f.effect)

module _ (P : Platform) where
  -- The zero `NodeState` but for the busy GPUs.
  abbrev pub busy_state : ℤ → NodeState
  busy_state busy = record { busy = busy; faulted = pos 0; effect = []; xid = pos 0 }

  unfoldable pub state_for : GpuPool P → Node P → NodeState
  unfolding fault_state busy_gpus
  state_for pool node =
      fault_state pool.spec.gpus_per_node node.labels pool.spec.faults
        (busy_state (busy_gpus P pool node))

  unfoldable pub validate_faults : GpuPool P → Option FaultsError
  unfolding validate_fault_entries
  validate_faults pool = validate_fault_entries pool.spec.gpus_per_node pool.spec.faults
