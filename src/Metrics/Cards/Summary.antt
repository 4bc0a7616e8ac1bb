-- ===== src/Metrics/Cards/Summary.antt =====
-- internal/metrics/collector.go: what the reading of a partitioned card says of its instances.
use ghostgpu.Base.{
  ◌+◌, Bool, lt→ltb, true, false, List, [], ◌∷◌, ◌≡◌, refl, arith, All, if◌then◌else◌,
}
use ghostgpu.Base.Int.{ℤ, pos, pos_part, neg_part, ◌≤ℤ◌, ◌<ℤ◌, ltb_ℤ, max_ℤ, wrap32}
use ghostgpu.Metrics.Readings.{Reading}
use ghostgpu.Metrics.Cards.{Instance, Card, merged, more_used, combine, percent_of, summarize_card}

-- The percentage is one.
percent_of_bounds :
    (used memory : ℤ) → (pos 0 ≤ℤ percent_of used memory) × (percent_of used memory ≤ℤ pos 100)
unfolding percent_of wrap32
percent_of_bounds used memory = ground arith

max_left : (a b : ℤ) → a ≤ℤ max_ℤ a b
max_left a b = ground arith

max_right : (a b : ℤ) → b ≤ℤ max_ℤ a b
max_right a b = ground arith

≤ℤ_trans : (a b c : ℤ) → a ≤ℤ b → b ≤ℤ c → a ≤ℤ c
≤ℤ_trans a b c h k = omega arith

-- The reading before the loop is not above the one after it.
combine_grows :
    (r : Reading) (used : ℤ) (instances : List Instance)
    → r.gpu_util ≤ℤ (combine r used instances).0.gpu_util
unfolding combine
combine_grows r used [] = omega arith
combine_grows r used (i ∷ instances) =
    ≤ℤ_trans r.gpu_util (max_ℤ r.gpu_util i.reading.gpu_util) _
      (max_left r.gpu_util i.reading.gpu_util)
      (combine_grows (merged r i.reading) (more_used used i) instances)

combine_covers :
    (r : Reading) (used : ℤ) (instances : List Instance)
    → All (λ i. i.reading.gpu_util ≤ℤ (combine r used instances).0.gpu_util) instances
unfolding combine
combine_covers r used [] = tt
combine_covers r used (i ∷ instances) = (
  ≤ℤ_trans i.reading.gpu_util (max_ℤ r.gpu_util i.reading.gpu_util) _
      (max_right r.gpu_util i.reading.gpu_util)
      (combine_grows (merged r i.reading) (more_used used i) instances),
  combine_covers (merged r i.reading) (more_used used i) instances,
)

-- A card that has memory reports a framebuffer percentage from 0 to 100, whatever its instances
-- declare, and a utilization that is not below that of any instance.
pub summarize_card_bounds :
    (card : Card)
    → pos 0 <ℤ card.memory_mib
    → let r = (summarize_card card).reading in
      (pos 0 ≤ℤ r.fb_used_percent)
      × (r.fb_used_percent ≤ℤ pos 100)
      × All (λ i. i.reading.gpu_util ≤ℤ r.gpu_util) card.instances
unfolding summarize_card
summarize_card_bounds card h =
    let (reading, used) = combine card.reading (pos 0) card.instances in
    rw (lt→ltb (0 + neg_part card.memory_mib) (pos_part card.memory_mib + 0) h) (
      (percent_of_bounds used card.memory_mib).0,
      (percent_of_bounds used card.memory_mib).1,
      combine_covers card.reading (pos 0) card.instances,
    )

combine-xid :
    (r : Reading) (used : ℤ) (instances : List Instance) → (combine r used instances).0.xid ≡ r.xid
unfolding combine
combine-xid r used [] = refl
combine-xid r used (i ∷ instances) = combine-xid (merged r i.reading) (more_used used i) instances

pub summarize_card-xid : (card : Card) → (summarize_card card).reading.xid ≡ card.reading.xid
unfolding summarize_card
summarize_card-xid card = either (ltb_ℤ (pos 0) card.memory_mib)
  where
    either :
        (b : Bool)
        → (if b
            then record ((combine card.reading (pos 0) card.instances).0) {
              fb_used_percent =
                  percent_of (combine card.reading (pos 0) card.instances).1 card.memory_mib;
            }
            else (combine card.reading (pos 0) card.instances).0).xid
          ≡ card.reading.xid
    either true = combine-xid card.reading (pos 0) card.instances
    either false = combine-xid card.reading (pos 0) card.instances
