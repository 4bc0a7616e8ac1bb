-- ===== src/Metrics/Series.antt =====
-- internal/metrics/series.go: the samples of a fleet (`Build` before its sort, which is in
-- Metrics.Series.Order, `utilizationSeries`, `cardLabels`, `instanceLabels`, `addHolder`), with the
-- names of names.go.
pub mod Framebuffer
pub mod Order
use ghostgpu.Base.{
  ℕ, Option, none, some, List, [], ◌∷◌, ◌++◌, flat_map, Text, codes, text_eq, ◌==◌, if◌then◌else◌,
}
use ghostgpu.Base.Dict.{insert}
use ghostgpu.Base.Int.{ℤ, pos, wrap64, ◌-ℤ◌}
use ghostgpu.Text.{format_int}
use ghostgpu.Api.{Labels}
use ghostgpu.Metrics.Readings.{Reading}
use ghostgpu.Metrics.Cards.{Holder, Instance, Card, used_mib}

abbrev pub gpu_util_name : Text
gpu_util_name = codes "DCGM_FI_DEV_GPU_UTIL"

abbrev pub mem_copy_util_name : Text
mem_copy_util_name = codes "DCGM_FI_DEV_MEM_COPY_UTIL"

abbrev pub fb_used_name : Text
fb_used_name = codes "DCGM_FI_DEV_FB_USED"

abbrev pub fb_free_name : Text
fb_free_name = codes "DCGM_FI_DEV_FB_FREE"

abbrev pub gr_engine_active_name : Text
gr_engine_active_name = codes "DCGM_FI_PROF_GR_ENGINE_ACTIVE"

abbrev pub tensor_active_name : Text
tensor_active_name = codes "DCGM_FI_PROF_PIPE_TENSOR_ACTIVE"

abbrev pub power_usage_name : Text
power_usage_name = codes "DCGM_FI_DEV_POWER_USAGE"

abbrev pub gpu_temp_name : Text
gpu_temp_name = codes "DCGM_FI_DEV_GPU_TEMP"

abbrev pub xid_errors_name : Text
xid_errors_name = codes "DCGM_FI_DEV_XID_ERRORS"

-- A `float64` of the code: an integer, or an integer divided by 100.
pub data Value : Type 0 where
  whole : ℤ → Value
  hundredths : ℤ → Value

pub record Series : Type 0 where
  pub name : Text
  pub value : Value
  pub labels : Labels

abbrev pub sample : Text → Value → Labels → Series
sample name value labels = record { name = name; value = value; labels = labels }

-- `memoryMiB - used`
unfoldable pub free_mib : ℤ → ℤ → ℤ
unfolding used_mib wrap64 ◌-ℤ◌
free_mib memory percent = wrap64 (memory -ℤ used_mib memory percent)

unfoldable pub utilization_series : Labels → Reading → ℤ → List Series
unfolding used_mib free_mib
utilization_series labels r memory =
    sample gpu_util_name (whole r.gpu_util) labels
    ∷ sample mem_copy_util_name (whole r.mem_copy_util) labels
    ∷ sample fb_used_name (whole (used_mib memory r.fb_used_percent)) labels
    ∷ sample fb_free_name (whole (free_mib memory r.fb_used_percent)) labels
    ∷ sample gr_engine_active_name (hundredths r.gr_engine_active) labels
    ∷ sample tensor_active_name (hundredths r.tensor_active) labels
    ∷ []

-- `if holder.Container != ""`
abbrev pub with_container : Text → Labels → Labels
with_container container labels =
    if container == [] then labels else insert (codes "container") container labels

unfoldable pub add_holder : Labels → Holder → Labels
unfolding insert
add_holder labels holder =
    if holder.pod == []
    then labels
    else with_container holder.container
        (insert (codes "pod") holder.pod (insert (codes "namespace") holder.namespace labels))

abbrev pub base_of : Card → Labels
base_of card =
    (codes "gpu", format_int card.index)
    ∷ (codes "UUID", card.uuid)
    ∷ (codes "device", codes "nvidia" ++ format_int card.index)
    ∷ (codes "modelName", card.product_name)
    ∷ (codes "Hostname", card.node)
    ∷ []

unfoldable pub card_labels : Card → Labels
unfolding add_holder format_int
card_labels card = add_holder (base_of card) card.holder

unfoldable pub instance_labels : Card → Instance → Labels
unfolding add_holder format_int
instance_labels card i =
    add_holder
      (base_of card
        ++ ((codes "GPU_I_ID", format_int i.instance_id) ∷ (codes "GPU_I_PROFILE", i.profile) ∷ []))
      i.holder

-- `if card.Reading.PowerWatts != nil`, and the same for the temperature
abbrev pub physical : Text → Option ℤ → Labels → List Series
physical name none labels = []
physical name (some v) labels = sample name (whole v) labels ∷ []

unfoldable pub instance_series : Card → Instance → List Series
unfolding instance_labels utilization_series
instance_series card i =
    let labels = instance_labels card i in
    utilization_series labels i.reading i.memory_mib
    ++ (sample xid_errors_name (whole card.reading.xid) labels ∷ [])

unfoldable pub card_series : Card → List Series
unfolding card_labels utilization_series instance_series
card_series card =
    let base = card_labels card in
    utilization_series base card.reading card.memory_mib
    ++ (physical power_usage_name card.reading.power_watts base
        ++ (physical gpu_temp_name card.reading.temperature_c base
            ++ (sample xid_errors_name (whole card.reading.xid) base
                ∷ flat_map (instance_series card) card.instances)))

-- The samples in the order in which `Build` makes them.
unfoldable pub build_series : List Card → List Series
unfolding card_series
build_series = flat_map card_series
