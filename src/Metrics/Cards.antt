-- ===== src/Metrics/Cards.antt =====
-- internal/metrics/collector.go: the cards of the fleet from the published slices (`CardsFrom`,
-- `summarizeCard`). The cards and the order of their keys are one list.
pub mod Summary
pub mod Shown
pub mod Kept
pub mod Partitioned
use ghostgpu.Base.{
  ℕ, ◌+◌, Bool, true, false, not, ◌&&◌, ◌||◌, Option, none, some, List, [], ◌∷◌, ◌++◌, Text, codes,
  text_eq, ◌==◌, eqb, if◌then◌else◌,
}
use ghostgpu.Base.Dict.{Dict, lookup, get_or}
use ghostgpu.Base.Int.{
  ℤ, pos, pos_part, neg_part, ltb_ℤ, min_ℤ, max_ℤ, quot, wrap32, wrap64, mul64, ◌+ℤ◌,
}
use ghostgpu.Platform.{Platform}
use ghostgpu.Api.{Labels, GpuPool, GpuModel, Device, ResourceSlice}
use ghostgpu.Gpu.Labels.{mib}
use ghostgpu.Gpu.WholeSlice.{attr_product_name, attr_uuid, attr_mig_profile, attr_mig_instance_id}
use ghostgpu.Controller.Slices.{pool_label}
use ghostgpu.Metrics.Readings.{Reading, no_reading, resolve_reading}
use ghostgpu.Metrics.Devices.{
  card_index, occupied, faulted_xid, string_attr, int_attr, device_memory_mib,
}

pub record Holder : Type 0 where
  pub namespace : Text
  pub pod : Text
  pub container : Text

-- `Holder{}`
abbrev pub no_holder : Holder
no_holder = record { namespace = []; pod = []; container = [] }

pub record Allocation : Type 0 where
  pub pool : Text
  pub device : Text

pub record Instance : Type 0 where
  pub profile : Text
  pub instance_id : ℤ
  pub memory_mib : ℤ
  pub holder : Holder
  pub reading : Reading

pub record Card : Type 0 where
  pub node : Text
  pub index : ℤ
  pub uuid : Text
  pub product_name : Text
  pub memory_mib : ℤ
  pub holder : Holder
  pub reading : Reading
  pub instances : List Instance

-- The maps of holders and of workloads, the last write first.
abbrev pub Holders : Type 0
Holders = List (Allocation × Holder)

abbrev pub Workloads : Type 0
Workloads = List (Holder × Labels)

-- `holder, held := holders[Allocation{Pool: node, Device: device}]`
unfoldable pub find_holder : Text → Text → Holders → Option Holder
find_holder node device [] = none
find_holder node device ((a, h) ∷ holders) =
    let rest = find_holder node device holders in
    if (a.pool == node) && (a.device == device) then some h else rest

-- `workloads[holder]`, no labels if it is missing
unfoldable pub workload_of : Holder → Workloads → Labels
workload_of holder [] = []
workload_of holder ((h, labels) ∷ workloads) =
    let rest = workload_of holder workloads in
    if (h.namespace == holder.namespace)
      && (h.pod == holder.pod)
      && (h.container == holder.container)
    then labels
    else rest

abbrev pub same_index : ℤ → ℤ → Bool
same_index a b = eqb (pos_part a + neg_part b) (pos_part b + neg_part a)

-- The card of that key changed by `f`; at the end, `fresh` changed by it, if there is none.
unfoldable pub on_card : Text → ℤ → (Card → Card) → Card → List Card → List Card
on_card node index f fresh [] = f fresh ∷ []
on_card node index f fresh (c ∷ cards) =
    let rest = on_card node index f fresh cards in
    if (c.node == node) && same_index c.index index then f c ∷ cards else c ∷ rest

-- `instance.MemoryMiB * int64(instance.Reading.FBUsedPercent) / 100`
unfoldable pub used_mib : ℤ → ℤ → ℤ
unfolding quot
used_mib memory percent = quot (mul64 memory percent) (pos 100)

abbrev pub first_of : Option ℤ → Option ℤ → Option ℤ
first_of (some a) b = some a
first_of none b = b

-- The card's reading with one more instance; the framebuffer is added up apart.
abbrev pub merged : Reading → Reading → Reading
merged r s = record r {
  gpu_util = max_ℤ r.gpu_util s.gpu_util;
  mem_copy_util = max_ℤ r.mem_copy_util s.mem_copy_util;
  gr_engine_active = max_ℤ r.gr_engine_active s.gr_engine_active;
  tensor_active = max_ℤ r.tensor_active s.tensor_active;
  power_watts = first_of r.power_watts s.power_watts;
  temperature_c = first_of r.temperature_c s.temperature_c;
}

abbrev pub more_used : ℤ → Instance → ℤ
more_used used i = wrap64 (used +ℤ used_mib i.memory_mib i.reading.fb_used_percent)

-- The loop of `summarizeCard`: the card's reading, and the framebuffer in use.
unfoldable pub combine : Reading → ℤ → List Instance → Reading × ℤ
unfolding used_mib ◌+ℤ◌ wrap64
combine r used [] = (r, used)
combine r used (i ∷ instances) = combine (merged r i.reading) (more_used used i) instances

-- `min(max(usedMiB*100/card.MemoryMiB, 0), 100)`, narrowed
unfoldable pub percent_of : ℤ → ℤ → ℤ
unfolding quot wrap32
percent_of used memory =
    wrap32 (min_ℤ (max_ℤ (quot (mul64 used (pos 100)) memory) (pos 0)) (pos 100))

unfoldable pub summarize_card : Card → Card
unfolding combine percent_of
summarize_card card =
    let (reading, used) = combine card.reading (pos 0) card.instances in
    record card {
      reading =
          if ltb_ℤ (pos 0) card.memory_mib
          then record reading { fb_used_percent = percent_of used card.memory_mib }
          else reading;
    }

-- `if len(card.Instances) > 0`
abbrev pub summarized : List Instance → Card → Card
summarized [] card = card
summarized (i ∷ instances) card = summarize_card card

-- The last loop of `CardsFrom`.
unfoldable pub summarize_all : List Card → List Card
unfolding summarize_card
summarize_all [] = []
summarize_all (c ∷ cards) = summarized c.instances c ∷ summarize_all cards

module _ (P : Platform) where
  -- `specs[name]`, which the last pool of a name fills.
  unfoldable pub pool_named : Text → List (GpuPool P) → Option (GpuPool P)
  pool_named name [] = none
  pool_named name (p ∷ pools) = elim (pool_named name pools) [
    | some q ↦ some q
    | none ↦ if p.name == name then some p else none
  ]

  abbrev pub model_mib : Option (GpuModel P) → ℤ
  model_mib none = pos 0
  model_mib (some model) = quot (P.quantity_value model.spec.memory) mib

  unfoldable pub fresh_card : GpuPool P → Dict Text (GpuModel P) → Text → ℤ → Device P → Card
  unfolding string_attr lookup quot
  fresh_card pool models node index device = record {
    node = node;
    index = index;
    uuid = string_attr P device attr_uuid;
    product_name = string_attr P device attr_product_name;
    memory_mib = model_mib (lookup pool.spec.model_ref models);
    holder = no_holder;
    reading = no_reading;
    instances = [];
  }

  abbrev pub is_held : Option Holder → Bool
  is_held none = false
  is_held (some h) = true

  abbrev pub holder_or_none : Option Holder → Holder
  holder_or_none none = no_holder
  holder_or_none (some h) = h

  -- Held or declared occupied, and not failed; with the error code.
  unfoldable pub device_reading : GpuPool P → Workloads → Device P → Option Holder → Reading
  unfolding occupied faulted_xid resolve_reading workload_of
  device_reading pool workloads device held =
      let (xid, faulted) = faulted_xid P device in
      let busy = (is_held held || occupied P device) && not faulted in
      record (resolve_reading P pool.spec.utilization busy
        (workload_of (holder_or_none held) workloads)) { xid = xid }

  -- The device on its card: one more instance, or the card's own reading.
  unfoldable pub place : Device P → Option Holder → Reading → Card → Card
  unfolding string_attr int_attr device_memory_mib
  place device held reading card =
      let profile = string_attr P device attr_mig_profile in
      if profile == []
      then record card { holder = holder_or_none held; reading = reading }
      else record card {
        instances =
            card.instances
            ++ (record {
              profile = profile;
              instance_id = int_attr P device attr_mig_instance_id;
              memory_mib = device_memory_mib P device;
              holder = holder_or_none held;
              reading = reading;
            }
                ∷ []);
      }

  module _ (models : Dict Text (GpuModel P)) (holders : Holders) (workloads : Workloads) where
    -- The rest of the body, once the index is read from the device's name.
    abbrev pub on_index : Option ℤ → GpuPool P → Text → Device P → List Card → List Card
    on_index none pool node device cards = cards
    on_index (some index) pool node device cards =
        let held = find_holder node device.name holders in
        on_card node index (place device held (device_reading pool workloads device held))
          (fresh_card pool models node index device) cards

    -- The body of the loop over the devices of a slice.
    unfoldable pub add_device : GpuPool P → Text → Device P → List Card → List Card
    unfolding card_index find_holder device_reading place on_card fresh_card
    add_device pool node device cards = on_index (card_index device.name) pool node device cards

    unfoldable pub add_devices : GpuPool P → Text → List (Device P) → List Card → List Card
    unfolding add_device
    add_devices pool node [] cards = cards
    add_devices pool node (d ∷ devices) cards =
        add_devices pool node devices (add_device pool node d cards)

    -- A slice of another driver, or of a pool that is gone, is passed over.
    abbrev pub on_pool : Option (GpuPool P) → ResourceSlice P → List Card → List Card
    on_pool none s cards = cards
    on_pool (some pool) s cards = add_devices pool s.spec.pool_name s.spec.devices cards

    unfoldable pub add_slices : List (GpuPool P) → List (ResourceSlice P) → List Card → List Card
    unfolding pool_named add_devices lookup
    add_slices pools [] cards = cards
    add_slices pools (s ∷ published) cards =
        add_slices pools published
          (on_pool (pool_named (get_or pool_label s.labels []) pools) s cards)

    unfoldable pub cards_from : List (GpuPool P) → List (ResourceSlice P) → List Card
    unfolding add_slices summarize_all
    cards_from pools published = summarize_all (add_slices pools published [])
