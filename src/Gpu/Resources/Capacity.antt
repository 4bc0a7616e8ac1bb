-- ===== src/Gpu/Resources/Capacity.antt =====
-- internal/gpu/migresources.go: how many instances of a profile a card is said to carry.
use native.Mathlib.Nat.{le-div_iff_mul-le}
use ghostgpu.Base.{ℕ, suc, ◌*◌, ◌/◌, ◌≤◌, ◌≡◌, ◌↔◌, arith}
use ghostgpu.Base.Int.{pos, ◌≤ℤ◌, quot}
use ghostgpu.Platform.{Platform}
use ghostgpu.Mig.{Profile, Budget}
use ghostgpu.Gpu.Resources.{max_instances}

divides : (n a b : ℕ) → (n ≤ a / suc b) ↔ (n * suc b ≤ a)
divides n a b = le-div_iff_mul-le {k = suc b} {x = n} {y = a} (omega arith)

module _ (P : Platform) where
  -- For a profile of some slices and some memory, the advertised number of instances is the largest
  -- that fits the card: `n` is within it exactly when `n` instances exceed neither the slices nor
  -- the memory of the budget.
  pub max_instances-Fits_iff :
      (profile : Profile P) (budget : Budget P) (s m slices memory n : ℕ)
      → profile.slices ≡ pos (suc s)
      → P.quantity_value profile.memory ≡ pos (suc m)
      → budget.slices ≡ pos slices
      → P.quantity_value budget.memory ≡ pos memory
      → (pos n ≤ℤ max_instances P profile budget) ↔ ((n * suc s ≤ slices) × (n * suc m ≤ memory))
  unfolding max_instances quot
  max_instances-Fits_iff profile budget s m slices memory n es em eb eq =
      rw (es, em, eb, eq) (ground (arith, divides n slices s, divides n memory m))
