-- ===== src/Mig/Expand/Ids.antt =====
-- internal/mig/expand.go: the range of the instance IDs that are derived from a profile's name.
use mathlib.Core.Path.{subst}
use ghostgpu.Base.{
  ℕ, ◌+◌, ◌-◌, ◌^◌, ◌≤◌, ◌<◌, [], ◌∷◌, ◌≡◌, ◌≢◌, ◌↔◌, refl, ◌⊎◌, inl, inr, arith, Text,
}
use ghostgpu.Base.Int.{
  ℤ, pos, negsuc, wrap32, wrap32_id, wrap32-IsInt32, IsInt32, add32, mul32, ◌+ℤ◌, ◌-ℤ◌, ◌≤ℤ◌, ◌<ℤ◌,
}
use ghostgpu.Mig.Expand.{hash, bounded_id, instance_id}

-- The least `int32`, which is its own negation.
abbrev pub least32 : ℤ
least32 = negsuc (2 ^ 31 - 1)

pub hash-IsInt32 : (sum : ℤ) (s : Text) → IsInt32 sum → IsInt32 (hash sum s)
unfolding hash
hash-IsInt32 sum [] h = h
hash-IsInt32 sum (r ∷ s) h =
    hash-IsInt32 (add32 (mul32 sum (pos 31)) (pos r)) s
      (wrap32-IsInt32 (mul32 sum (pos 31) +ℤ pos r))

negated : (n : ℕ) → pos 0 -ℤ negsuc n ≡ pos (n + 1)
unfolding ◌-ℤ◌
negated n = ground arith

negate : (n : ℕ) → n < 2 ^ 31 - 1 → wrap32 (pos 0 -ℤ negsuc n) ≡ pos (n + 1)
negate n h = rw (negated n) (wrap32_id (pos (n + 1)) (omega arith))

bounded_id-least32 : bounded_id least32 ≡ negsuc 47
unfolding bounded_id wrap32 ◌-ℤ◌
bounded_id-least32 = refl

bounded_id_bounds :
    (sum : ℤ)
    → IsInt32 sum
    → (sum ≢ least32 → (pos 0 ≤ℤ bounded_id sum) × (bounded_id sum <ℤ pos 100))
unfolding bounded_id
bounded_id_bounds (pos n) h ne = ground arith
bounded_id_bounds (negsuc n) h ne = elim (split n) [
  | inl small ↦ rw (negate n small) (ground arith)
  | inr large ↦ absurd (ne (ground arith))
]
  where
    split : (n : ℕ) → (n < 2 ^ 31 - 1) ⊎ (2 ^ 31 - 1 ≤ n)
    split n = omega arith

least32-outside :
    (sum : ℤ) → sum ≡ least32 → ¬ ((pos 0 ≤ℤ bounded_id sum) × (bounded_id sum <ℤ pos 100))
least32-outside sum e h =
    let (low, high) = subst (λ s. (pos 0 ≤ℤ bounded_id s) × (bounded_id s <ℤ pos 100)) e h in
    let low' : pos 0 ≤ℤ negsuc 47 = subst (λ i. pos 0 ≤ℤ i) bounded_id-least32 low in omega arith

-- The instance ID lies from 0 to 99 exactly when the hash is not the least int32, whose negation
-- overflows.
pub instance_id_range_iff :
    (gpu : ℤ) (profile : Text)
    → ((pos 0 ≤ℤ instance_id gpu profile) × (instance_id gpu profile <ℤ pos 100))
      ↔ (hash (pos 0) profile ≢ least32)
unfolding instance_id
instance_id_range_iff gpu profile = (
  λ h e. least32-outside (hash (pos 0) profile) e h,
  λ ne. bounded_id_bounds (hash (pos 0) profile) (hash-IsInt32 (pos 0) profile (omega arith)) ne,
)
