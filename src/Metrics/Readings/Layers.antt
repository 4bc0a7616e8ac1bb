-- ===== src/Metrics/Readings/Layers.antt =====
-- internal/metrics/series.go: which declaration a reading comes from.
use ghostgpu.Base.{true, Option, none, some, List, [], ◌∷◌, ◌≡◌, ◌⊎◌}
use ghostgpu.Base.Int.{ℤ, pos}
use ghostgpu.Platform.{Platform}
use ghostgpu.Api.{Labels, UtilizationSample, WorkloadUtilization}
use ghostgpu.Metrics.Readings.{Reading, no_reading}

-- What a sample declares of a field.
abbrev pub declared : (UtilizationSample → Option ℤ) → Option UtilizationSample → Option ℤ
declared field none = none
declared field (some s) = field s

-- The number is what the first layer declares, else what the next one declares, else the default.
abbrev pub IsLayer : Option ℤ → Option ℤ → ℤ → ℤ → Type 0
IsLayer (some a) next default v = v ≡ a
IsLayer none (some b) default v = v ≡ b
IsLayer none none default v = v ≡ default

-- The same for a number that has no default.
abbrev pub IsLayerOrNone : Option ℤ → Option ℤ → Option ℤ → Type 0
IsLayerOrNone (some a) next v = v ≡ some a
IsLayerOrNone none (some b) v = v ≡ some b
IsLayerOrNone none none v = v ≡ none

-- All fields of a reading that starts at `busy`, 100 or 0, with two layers over it.
pub record IsLayered (busy : ℤ) (next first : Option UtilizationSample) (r : Reading) : Type 0 where
  pub gpu_util :
      IsLayer (declared (λ s. s.gpu_util) first) (declared (λ s. s.gpu_util) next) busy r.gpu_util
  pub mem_copy_util :
      IsLayer
        (declared (λ s. s.mem_copy_util) first)
        (declared (λ s. s.mem_copy_util) next)
        (pos 0)
        r.mem_copy_util
  pub fb_used_percent :
      IsLayer
        (declared (λ s. s.fb_used_percent) first)
        (declared (λ s. s.fb_used_percent) next)
        busy
        r.fb_used_percent
  pub gr_engine_active :
      IsLayer
        (declared (λ s. s.gr_engine_active_percent) first)
        (declared (λ s. s.gr_engine_active_percent) next)
        busy
        r.gr_engine_active
  pub tensor_active :
      IsLayer
        (declared (λ s. s.tensor_active_percent) first)
        (declared (λ s. s.tensor_active_percent) next)
        (pos 0)
        r.tensor_active
  pub power_watts :
      IsLayerOrNone
        (declared (λ s. s.power_watts) first)
        (declared (λ s. s.power_watts) next)
        r.power_watts
  pub temperature_c :
      IsLayerOrNone
        (declared (λ s. s.temperature_c) first)
        (declared (λ s. s.temperature_c) next)
        r.temperature_c

-- The reading that layers start from.
abbrev start : ℤ → Reading
start busy = record no_reading { gpu_util = busy; fb_used_percent = busy; gr_engine_active = busy }

module _ (P : Platform) where
  -- The entry has no selector, or one that can be parsed and matches the labels.
  abbrev pub Selects : WorkloadUtilization P → Labels → Type 0
  Selects e labels =
      (e.pod_selector ≡ none)
      ⊎ ((selector : P.LabelSelector) × (e.pod_selector ≡ some selector)
          × (P.selector_matches selector labels ≡ some true))

  -- The sample of the first entry that selects, or none.
  abbrev pub IsFirst : List (WorkloadUtilization P) → Labels → Option UtilizationSample → Type 0
  IsFirst [] labels o = o ≡ none
  IsFirst (e ∷ entries) labels o =
      (Selects e labels × (o ≡ some e.sample)) ⊎ ((¬ Selects e labels) × IsFirst entries labels o)
