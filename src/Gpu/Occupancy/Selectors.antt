-- ===== src/Gpu/Occupancy/Selectors.antt =====
-- internal/gpu/occupancy.go: what a selector accepts, and how many GPUs are busy.
use ghostgpu.Base.{ℕ, true, none, List, [], ◌∷◌, ◌≡◌, ◌↔◌, refl, arith, text_eq, All, if◌then◌else◌}
use ghostgpu.Base.Dict.{get_or}
use ghostgpu.Base.Int.{ℤ, pos, ◌≤ℤ◌}
use ghostgpu.Api.{Labels, OccupancyEntry}
use ghostgpu.Gpu.Occupancy.{selector_matches, busy_of, validate_occupancy_entries}

-- A selector accepts labels exactly when each of its keys has its value there, a missing key
-- counting as one with the empty value.
pub selector_matches_iff :
    (selector labels : Labels)
    → (selector_matches selector labels ≡ true)
      ↔ All (λ (key, value). get_or key labels [] ≡ value) selector
unfolding selector_matches
selector_matches_iff selector labels = (reads selector, accepts selector)
  where
    reads :
        (s : Labels)
        → selector_matches s labels ≡ true
        → All (λ (key, value). get_or key labels [] ≡ value) s
    reads [] h = tt
    reads ((key, value) ∷ s) h = ground (arith, reads s)

    accepts :
        (s : Labels)
        → All (λ (key, value). get_or key labels [] ≡ value) s
        → selector_matches s labels ≡ true
    accepts [] h = refl
    accepts ((key, value) ∷ s) (e, h) = ground (arith, accepts s h)

-- For a number of GPUs that is not negative, the busy count lies between zero and it.
pub busy_of_bounds :
    (gpus : ℕ) (labels : Labels) (es : List OccupancyEntry)
    → (pos 0 ≤ℤ busy_of (pos gpus) labels es) × (busy_of (pos gpus) labels es ≤ℤ pos gpus)
unfolding busy_of
busy_of_bounds gpus labels [] = ground arith
busy_of_bounds gpus labels (e ∷ es) = ground (arith, busy_of_bounds gpus labels es)

-- The count of the first entry whose selector accepts the labels, as declared.
abbrev pub declared_busy : Labels → List OccupancyEntry → ℤ
declared_busy labels [] = pos 0
declared_busy labels (e ∷ es) =
    let rest = declared_busy labels es in
    if selector_matches e.node_selector labels then e.busy_per_node else rest

-- For entries that are valid, the busy count is the declared one, not clamped.
pub busy_of-validated :
    (gpus : ℤ) (labels : Labels) (es : List OccupancyEntry)
    → validate_occupancy_entries gpus es ≡ none
    → busy_of gpus labels es ≡ declared_busy labels es
unfolding busy_of validate_occupancy_entries
busy_of-validated gpus labels [] h = refl
busy_of-validated gpus labels (e ∷ es) h = ground (arith, busy_of-validated gpus labels es)
