-- ===== src/Metrics/Exporter.antt =====
-- internal/metrics/exporter.go: one scrape (`snapshot`, `Collect`). What the API server answers to each
-- list is a parameter.
use ghostgpu.Base.{List, [], ◌∷◌, Result, ok, err, ◌>>=◌, Text, text_eq}
use ghostgpu.Base.Dict.{Dict, insert}
use ghostgpu.Platform.{Platform}
use ghostgpu.Api.{Labels, GpuPool, GpuModel, ResourceSlice}
use ghostgpu.Metrics.Cards.{Card, Workloads, cards_from}
use ghostgpu.Metrics.Claims.{Claim, holders}
use ghostgpu.Metrics.Series.{Series}
use ghostgpu.Metrics.Series.Order.{build}

-- The parts of a Pod that are read.
pub record Pod : Type 0 where
  pub namespace : Text
  pub name : Text
  pub labels : Labels

-- The loop over the pods; a later one of the same name stands first.
unfoldable pub workloads_onto : List Pod → Workloads → Workloads
workloads_onto [] workloads = workloads
workloads_onto (p ∷ pods) workloads =
    workloads_onto pods
      ((record { namespace = p.namespace; pod = p.name; container = [] }, p.labels) ∷ workloads)

-- `if err := ...; err == nil`: pods that cannot be read are no error.
unfoldable pub workloads_of : Result Text (List Pod) → Workloads
unfolding workloads_onto
workloads_of (ok pods) = workloads_onto pods []
workloads_of (err e) = []

module _ (P : Platform) where
  -- The loop over the models.
  unfoldable pub models_onto : List (GpuModel P) → Dict Text (GpuModel P) → Dict Text (GpuModel P)
  unfolding insert
  models_onto [] models = models
  models_onto (m ∷ list) models = models_onto list (insert m.name m models)

  -- The answers to the lists of one scrape.
  pub record Answers : Type 0 where
    pub pools : Result Text (List (GpuPool P))
    pub models : Result Text (List (GpuModel P))
    pub published : Result Text (List (ResourceSlice P))
    pub claims : Result Text (List Claim)
    pub pods : Result Text (List Pod)

  unfoldable pub snapshot : Answers → Result Text (List Card)
  unfolding models_onto workloads_of cards_from holders
  snapshot answers = do
    pools ← answers.pools
    models ← answers.models
    published ← answers.published
    claims ← answers.claims
    ok (
        cards_from P (models_onto models []) (holders claims) (workloads_of answers.pods) pools
          published)

  -- No samples if the fleet cannot be read.
  abbrev pub emitted : Result Text (List Card) → List Series
  emitted (err e) = []
  emitted (ok cards) = build cards

  unfoldable pub collect : Answers → List Series
  unfolding snapshot build
  collect answers = emitted (snapshot answers)
