-- ===== src/Metrics/Cards/Shown.antt =====
-- internal/metrics/collector.go: the instance that shows a MIG device on its card.
use ghostgpu.Base.{
  true, ◌&&◌, Option, none, some, List, [], ◌∷◌, ◌≡◌, ◌≢◌, refl, arith, Text, text_eq, ◌==◌, inl,
  inr, All, All-imp, Any, Any-append_left, Any-append_right, Bool-cases,
}
use ghostgpu.Base.Int.{ℤ}
use ghostgpu.Platform.{Platform}
use ghostgpu.Api.{GpuPool, Device, ResourceSlice}
use ghostgpu.Gpu.WholeSlice.{attr_mig_profile}
use ghostgpu.Metrics.Readings.{Reading}
use ghostgpu.Metrics.Devices.{string_attr, card_index, faulted_xid}
use ghostgpu.Metrics.Cards.{
  Holder, Workloads, Instance, Card, same_index, summarized, on_card, summarize_all, device_reading,
  place, summarize_card,
}

-- A change that keeps a property of a card keeps it on the list of cards.
pub on_card-Any :
    (Q : Card → Type 0) (node : Text) (index : ℤ) (f : Card → Card) (fresh : Card)
    (cards : List Card)
    → ((c : Card) → Q c → Q (f c))
    → Any Q cards
    → Any Q (on_card node index f fresh cards)
unfolding on_card
on_card-Any Q node index f fresh [] keeps h = absurd h
on_card-Any Q node index f fresh (c ∷ cards) keeps h =
    elim (Bool-cases ((c.node == node) && same_index c.index index)) [
      | inl found ↦ rw found (kept h)
      | inr other ↦ rw other (later h (on_card-Any Q node index f fresh cards keeps))
    ]
  where
    kept : Any Q (c ∷ cards) → Any Q (f c ∷ cards)
    kept (inl q) = inl (keeps c q)
    kept (inr rest) = inr rest

    later :
        Any Q (c ∷ cards)
        → (Any Q cards → Any Q (on_card node index f fresh cards))
        → Any Q (c ∷ on_card node index f fresh cards)
    later (inl q) go = inl q
    later (inr rest) go = inr (go rest)

-- What the change establishes on the card of that key, it establishes on some card.
pub on_card-Any_changed :
    (Q : Card → Type 0) (node : Text) (index : ℤ) (f : Card → Card) (fresh : Card)
    (cards : List Card)
    → ((c : Card) → c.node ≡ node → same_index c.index index ≡ true → Q (f c))
    → Q (f fresh)
    → Any Q (on_card node index f fresh cards)
unfolding on_card
on_card-Any_changed Q node index f fresh [] makes start = inl start
on_card-Any_changed Q node index f fresh (c ∷ cards) makes start =
    elim (Bool-cases ((c.node == node) && same_index c.index index)) [
      | inl found ↦ rw found (inl (makes c (ground arith) (ground arith)))
      | inr other ↦ rw other (inr (on_card-Any_changed Q node index f fresh cards makes start))
    ]

pub same_index_refl : (index : ℤ) → same_index index index ≡ true
same_index_refl index = ground arith

module _ (P : Platform) where
  -- The card of that node and that index has an instance of the device's profile that reports the
  -- error code of the device's taints.
  pub record Shows (node : Text) (index : ℤ) (d : Device P) (c : Card) : Type 0 where
    pub on_node : c.node ≡ node
    pub at_index : same_index c.index index ≡ true
    pub shown :
        Any
          (λ i.
            (i.profile ≡ string_attr P d attr_mig_profile) × (i.reading.xid ≡ (faulted_xid P d).0))
          c.instances

  -- A device whose name has no index is on no card.
  abbrev pub IsShownAt : Option ℤ → Text → List Card → Device P → Type 0
  IsShownAt none node cards d = Unit
  IsShownAt (some index) node cards d = Any (Shows node index d) cards

  -- The devices of a slice whose pool is gone are on no card.
  abbrev pub IsShownBy : Option (GpuPool P) → ResourceSlice P → List Card → Type 0
  IsShownBy none s cards = Unit
  IsShownBy (some pool) s cards =
      All (λ d. IsShownAt (card_index d.name) s.spec.pool_name cards d) s.spec.devices

  pub device_reading-xid :
      (pool : GpuPool P) (workloads : Workloads) (d : Device P) (held : Option Holder)
      → (device_reading P pool workloads d held).xid ≡ (faulted_xid P d).0
  unfolding device_reading
  device_reading-xid pool workloads d held = refl

  pub place-Shows :
      (node : Text) (index : ℤ) (e d : Device P) (held : Option Holder) (reading : Reading)
      (c : Card)
      → Shows node index e c
      → Shows node index e (place P d held reading c)
  unfolding place
  place-Shows node index e d held reading c h =
      elim (Bool-cases (string_attr P d attr_mig_profile == [])) [
        | inl whole ↦
            rw whole (record { on_node = h.on_node; at_index = h.at_index; shown = h.shown })
        | inr partitioned ↦ rw partitioned (record {
          on_node = h.on_node;
          at_index = h.at_index;
          shown = Any-append_left _ c.instances _ h.shown;
        })
      ]

  pub place-Shows_placed :
      (node : Text) (index : ℤ) (d : Device P) (held : Option Holder) (reading : Reading) (c : Card)
      → string_attr P d attr_mig_profile ≢ []
      → reading.xid ≡ (faulted_xid P d).0
      → c.node ≡ node
      → same_index c.index index ≡ true
      → Shows node index d (place P d held reading c)
  unfolding place
  place-Shows_placed node index d held reading c part code at_node same =
      elim (Bool-cases (string_attr P d attr_mig_profile == [])) [
        | inl whole ↦ absurd (part (ground arith))
        | inr partitioned ↦ rw partitioned (record {
          on_node = at_node;
          at_index = same;
          shown = Any-append_right _ c.instances _ (inl (refl, code));
        })
      ]

  summarize_card-Shows :
      (node : Text) (index : ℤ) (d : Device P) (c : Card)
      → Shows node index d c
      → Shows node index d (summarize_card c)
  unfolding summarize_card
  summarize_card-Shows node index d c h = record {
    on_node = h.on_node;
    at_index = h.at_index;
    shown = h.shown;
  }

  summarized-Shows :
      (node : Text) (index : ℤ) (d : Device P) (instances : List Instance) (c : Card)
      → Shows node index d c
      → Shows node index d (summarized instances c)
  summarized-Shows node index d [] c h = h
  summarized-Shows node index d (i ∷ instances) c h = summarize_card-Shows node index d c h

  pub summarize_all-Shows :
      (node : Text) (index : ℤ) (d : Device P) (cards : List Card)
      → Any (Shows node index d) cards
      → Any (Shows node index d) (summarize_all cards)
  unfolding summarize_all
  summarize_all-Shows node index d [] h = absurd h
  summarize_all-Shows node index d (c ∷ cards) (inl h) =
      inl (summarized-Shows node index d c.instances c h)
  summarize_all-Shows node index d (c ∷ cards) (inr h) =
      inr (summarize_all-Shows node index d cards h)

  -- What one list of cards shows of every device, the other one shows, too.
  abbrev pub Keeps : List Card → List Card → Type 0
  Keeps cards cards' =
      (node : Text) (index : ℤ) (d : Device P)
      → Any (Shows node index d) cards
      → Any (Shows node index d) cards'

  pub IsShownAt-Keeps :
      (o : Option ℤ) (node : Text) (cards cards' : List Card) (d : Device P)
      → Keeps cards cards'
      → IsShownAt o node cards d
      → IsShownAt o node cards' d
  IsShownAt-Keeps none node cards cards' d keeps h = tt
  IsShownAt-Keeps (some index) node cards cards' d keeps h = keeps node index d h

  pub IsShownBy-Keeps :
      (o : Option (GpuPool P)) (s : ResourceSlice P) (cards cards' : List Card)
      → Keeps cards cards'
      → IsShownBy o s cards
      → IsShownBy o s cards'
  IsShownBy-Keeps none s cards cards' keeps h = tt
  IsShownBy-Keeps (some pool) s cards cards' keeps h =
      All-imp (λ d. IsShownAt-Keeps (card_index d.name) s.spec.pool_name cards cards' d keeps)
        s.spec.devices h
