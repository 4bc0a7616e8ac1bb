-- ===== src/Metrics/Cards/Partitioned.antt =====
-- internal/metrics/collector.go: the error code of a partitioned card.
use ghostgpu.Base.{[], ◌≡◌, ◌≢◌, text_eq}
use ghostgpu.Base.Dict.{Dict}
use ghostgpu.Base.Int.{pos}
use ghostgpu.Platform.{Platform}
use ghostgpu.Api.{Device}
use ghostgpu.Gpu.WholeSlice.{attr_mig_profile}
use ghostgpu.Metrics.Devices.{string_attr}
use ghostgpu.Metrics.Cards.{Card}

-- The card reports no error.
abbrev pub ReportsNone : Card → Type 0
ReportsNone c = c.reading.xid ≡ pos 0

module _ (P : Platform) where
  -- The device is a MIG instance: it has a profile.
  abbrev pub IsPartitioned : Device P → Type 0
  IsPartitioned d = string_attr P d attr_mig_profile ≢ []
