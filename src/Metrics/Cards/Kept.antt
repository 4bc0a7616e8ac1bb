-- ===== src/Metrics/Cards/Kept.antt =====
-- internal/metrics/collector.go: the MIG devices of the published slices on the cards.
use ghostgpu.Base.{Option, none, some, List, [], ◌∷◌, ◌≢◌, refl, Text, text_eq, All, All-imp}
use ghostgpu.Base.Dict.{Dict, get_or}
use ghostgpu.Base.Int.{ℤ}
use ghostgpu.Platform.{Platform}
use ghostgpu.Api.{GpuPool, GpuModel, Device, ResourceSlice}
use ghostgpu.Gpu.WholeSlice.{attr_mig_profile}
use ghostgpu.Controller.Slices.{pool_label}
use ghostgpu.Metrics.Devices.{string_attr, card_index}
use ghostgpu.Metrics.Cards.{
  Holders, Workloads, Card, on_index, on_pool, pool_named, fresh_card, device_reading, place,
  find_holder, add_device, add_devices, add_slices, cards_from,
}
use ghostgpu.Metrics.Cards.Shown.{
  on_card-Any, on_card-Any_changed, Shows, IsShownAt, IsShownBy, Keeps, device_reading-xid,
  place-Shows, place-Shows_placed, same_index_refl, summarize_all-Shows, IsShownAt-Keeps,
  IsShownBy-Keeps,
}

module _ (P : Platform) where
  module _ (models : Dict Text (GpuModel P)) (holders : Holders) (workloads : Workloads) where
    on_index-Keeps :
        (o : Option ℤ) (pool : GpuPool P) (node : Text) (e : Device P) (cards : List Card)
        → Keeps P cards (on_index P models holders workloads o pool node e cards)
    on_index-Keeps none pool node e cards = λ n i d h. h
    on_index-Keeps (some index) pool node e cards = λ n i d h.
        let held = find_holder node e.name holders in
        let reading = device_reading P pool workloads e held in
        on_card-Any (Shows P n i d) node index (place P e held reading)
          (fresh_card P pool models node index e) cards (λ c. place-Shows P n i d e held reading c)
          h

    on_index-IsShownAt :
        (o : Option ℤ) (pool : GpuPool P) (node : Text) (d : Device P) (cards : List Card)
        → string_attr P d attr_mig_profile ≢ []
        → IsShownAt P o node (on_index P models holders workloads o pool node d cards) d
    unfolding fresh_card
    on_index-IsShownAt none pool node d cards part = tt
    on_index-IsShownAt (some index) pool node d cards part =
        let held = find_holder node d.name holders in
        let reading = device_reading P pool workloads d held in
        let code = device_reading-xid P pool workloads d held in
        let fresh = fresh_card P pool models node index d in
        on_card-Any_changed (Shows P node index d) node index (place P d held reading) fresh cards
          (λ c. place-Shows_placed P node index d held reading c part code)
          (place-Shows_placed P node index d held reading fresh part code refl
            (same_index_refl index))

    add_devices-Keeps :
        (pool : GpuPool P) (node : Text) (ds : List (Device P)) (cards : List Card)
        → Keeps P cards (add_devices P models holders workloads pool node ds cards)
    unfolding add_devices add_device
    add_devices-Keeps pool node [] cards = λ n i d h. h
    add_devices-Keeps pool node (e ∷ ds) cards = λ n i d h.
        add_devices-Keeps pool node ds
          (on_index P models holders workloads (card_index e.name) pool node e cards) n i d
          (on_index-Keeps (card_index e.name) pool node e cards n i d h)

    add_devices-IsShownAt :
        (pool : GpuPool P) (node : Text) (ds : List (Device P)) (cards : List Card)
        → All (λ d. string_attr P d attr_mig_profile ≢ []) ds
        → All
            (λ d.
              IsShownAt P
                (card_index d.name)
                node
                (add_devices P models holders workloads pool node ds cards)
                d)
            ds
    unfolding add_devices add_device
    add_devices-IsShownAt pool node [] cards part = tt
    add_devices-IsShownAt pool node (d ∷ ds) cards (p, part) =
        let added = on_index P models holders workloads (card_index d.name) pool node d cards in
        (
          IsShownAt-Keeps P (card_index d.name) node added _ d
              (add_devices-Keeps pool node ds added)
              (on_index-IsShownAt (card_index d.name) pool node d cards p),
          add_devices-IsShownAt pool node ds added part,
        )

    on_pool-Keeps :
        (o : Option (GpuPool P)) (s : ResourceSlice P) (cards : List Card)
        → Keeps P cards (on_pool P models holders workloads o s cards)
    on_pool-Keeps none s cards = λ n i d h. h
    on_pool-Keeps (some pool) s cards = add_devices-Keeps pool s.spec.pool_name s.spec.devices cards

    on_pool-IsShownBy :
        (o : Option (GpuPool P)) (s : ResourceSlice P) (cards : List Card)
        → All (λ d. string_attr P d attr_mig_profile ≢ []) s.spec.devices
        → IsShownBy P o s (on_pool P models holders workloads o s cards)
    on_pool-IsShownBy none s cards part = tt
    on_pool-IsShownBy (some pool) s cards part =
        add_devices-IsShownAt pool s.spec.pool_name s.spec.devices cards part

    add_slices-Keeps :
        (pools : List (GpuPool P)) (published : List (ResourceSlice P)) (cards : List Card)
        → Keeps P cards (add_slices P models holders workloads pools published cards)
    unfolding add_slices
    add_slices-Keeps pools [] cards = λ n i d h. h
    add_slices-Keeps pools (s ∷ published) cards = λ n i d h.
        let found = pool_named P (get_or pool_label s.labels []) pools in
        add_slices-Keeps pools published (on_pool P models holders workloads found s cards) n i d
          (on_pool-Keeps found s cards n i d h)

    add_slices-IsShownBy :
        (pools : List (GpuPool P)) (published : List (ResourceSlice P)) (cards : List Card)
        → All (λ s. All (λ d. string_attr P d attr_mig_profile ≢ []) s.spec.devices) published
        → All
            (λ s.
              IsShownBy P
                (pool_named P (get_or pool_label s.labels []) pools)
                s
                (add_slices P models holders workloads pools published cards))
            published
    unfolding add_slices
    add_slices-IsShownBy pools [] cards part = tt
    add_slices-IsShownBy pools (s ∷ published) cards (p, part) =
        let found = pool_named P (get_or pool_label s.labels []) pools in
        let added = on_pool P models holders workloads found s cards in
        (
          IsShownBy-Keeps P found s added _ (add_slices-Keeps pools published added)
              (on_pool-IsShownBy found s cards p),
          add_slices-IsShownBy pools published added part,
        )

    -- Every MIG device of a pool that exists, whose name has an index, is an instance on the card
    -- of its node and its index, and reports the error code of the device's taints.
    pub cards_from-IsShownBy :
        (pools : List (GpuPool P)) (published : List (ResourceSlice P))
        → All (λ s. All (λ d. string_attr P d attr_mig_profile ≢ []) s.spec.devices) published
        → All
            (λ s.
              IsShownBy P
                (pool_named P (get_or pool_label s.labels []) pools)
                s
                (cards_from P models holders workloads pools published))
            published
    unfolding cards_from
    cards_from-IsShownBy pools published part =
        let added = add_slices P models holders workloads pools published [] in
        All-imp
          (λ s.
            IsShownBy-Keeps P (pool_named P (get_or pool_label s.labels []) pools) s added _
              (λ n i d h. summarize_all-Shows P n i d added h))
          published (add_slices-IsShownBy pools published [] part)
