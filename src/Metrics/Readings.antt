-- ===== src/Metrics/Readings.antt =====
-- internal/metrics/series.go: the readings of a device, from what a pool declares (`Resolve`,
-- `matchWorkload`, `apply`, `setIf`).
pub mod Layers
use ghostgpu.Base.{Bool, true, false, Option, none, some, List, [], ◌∷◌, Text, if◌then◌else◌}
use ghostgpu.Base.Int.{ℤ, pos}
use ghostgpu.Platform.{Platform}
use ghostgpu.Api.{Labels, UtilizationSample, WorkloadUtilization, UtilizationSpec}

pub record Reading : Type 0 where
  pub gpu_util : ℤ
  pub mem_copy_util : ℤ
  pub fb_used_percent : ℤ
  pub gr_engine_active : ℤ
  pub tensor_active : ℤ
  pub power_watts : Option ℤ
  pub temperature_c : Option ℤ
  pub xid : ℤ

-- `Reading{}`
abbrev pub no_reading : Reading
no_reading = record {
  gpu_util = pos 0;
  mem_copy_util = pos 0;
  fb_used_percent = pos 0;
  gr_engine_active = pos 0;
  tensor_active = pos 0;
  power_watts = none;
  temperature_c = none;
  xid = pos 0;
}

abbrev pub busy_reading : Reading
busy_reading = record no_reading {
  gpu_util = pos 100;
  fb_used_percent = pos 100;
  gr_engine_active = pos 100;
}

abbrev pub set_if : ℤ → Option ℤ → ℤ
set_if target none = target
set_if target (some value) = value

-- `if value != nil { target = value }` for a pointer.
abbrev pub keep_if : Option ℤ → Option ℤ → Option ℤ
keep_if target none = target
keep_if target (some value) = some value

unfoldable pub apply : Reading → Option UtilizationSample → Reading
apply reading none = reading
apply reading (some s) = record reading {
  gpu_util = set_if reading.gpu_util s.gpu_util;
  mem_copy_util = set_if reading.mem_copy_util s.mem_copy_util;
  fb_used_percent = set_if reading.fb_used_percent s.fb_used_percent;
  gr_engine_active = set_if reading.gr_engine_active s.gr_engine_active_percent;
  tensor_active = set_if reading.tensor_active s.tensor_active_percent;
  power_watts = keep_if reading.power_watts s.power_watts;
  temperature_c = keep_if reading.temperature_c s.temperature_c;
}

module _ (P : Platform) where
  -- Without a selector, or with one that can be parsed and matches.
  abbrev pub selects : Option P.LabelSelector → Labels → Bool
  selects none labels = true
  selects (some selector) labels = elim (P.selector_matches selector labels) [
    | none ↦ false
    | some b ↦ b
  ]

  unfoldable pub match_workload : List (WorkloadUtilization P) → Labels → Option UtilizationSample
  match_workload [] labels = none
  match_workload (e ∷ entries) labels =
      let rest = match_workload entries labels in
      if selects e.pod_selector labels then some e.sample else rest

  -- `Resolve` on a pool's declaration, if it has one.
  unfoldable pub resolve_reading : Option (UtilizationSpec P) → Bool → Labels → Reading
  unfolding apply match_workload
  resolve_reading none busy workload = if busy then busy_reading else no_reading
  resolve_reading (some spec) true workload =
      apply (apply busy_reading spec.when_allocated) (match_workload spec.workloads workload)
  resolve_reading (some spec) false workload = apply no_reading spec.when_idle
