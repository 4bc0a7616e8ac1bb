-- ===== src/Metrics/Series/Framebuffer.antt =====
-- internal/metrics/series.go: used and free framebuffer.
use native.Mathlib.Nat.{mul-le-mul, div-le_of_le-mul}
use ghostgpu.Base.{ℕ, ◌*◌, ◌/◌, ◌^◌, ◌≤◌, ◌<◌, ◌≡◌, refl, arith}
use ghostgpu.Base.Int.{pos, quot, mul_pos, wrap64, wrap64_id, ◌+ℤ◌, ◌-ℤ◌, ◌≤ℤ◌}
use ghostgpu.Metrics.Cards.{used_mib}
use ghostgpu.Metrics.Series.{free_mib}

used_mib-pos : (m p : ℕ) → p ≤ 100 → m * 100 < 2 ^ 63 → used_mib (pos m) (pos p) ≡ pos (m * p / 100)
unfolding used_mib quot
used_mib-pos m p h room =
    let small : m * p ≤ m * 100 = mul-le-mul (omega arith) h in
    rw (mul_pos m p, wrap64_id (pos (m * p)) (omega arith)) refl

adds_up :
    (m used : ℕ)
    → used ≤ m
    → m < 2 ^ 63
    → (pos 0 ≤ℤ pos used)
      × (pos 0 ≤ℤ wrap64 (pos m -ℤ pos used))
      × (pos used +ℤ wrap64 (pos m -ℤ pos used) ≡ pos m)
unfolding wrap64 ◌-ℤ◌ ◌+ℤ◌
adds_up m used h small = ground arith

-- For a memory whose hundredfold an int64 holds and a percentage up to 100, the used and the free
-- framebuffer are not negative and add up to the memory.
pub used_mib-free_mib :
    (m p : ℕ)
    → p ≤ 100
    → m * 100 < 2 ^ 63
    → (pos 0 ≤ℤ used_mib (pos m) (pos p))
      × (pos 0 ≤ℤ free_mib (pos m) (pos p))
      × (used_mib (pos m) (pos p) +ℤ free_mib (pos m) (pos p) ≡ pos m)
unfolding free_mib
used_mib-free_mib m p h room =
    let part : m * p ≤ m * 100 = mul-le-mul (omega arith) h in
    let share : m * p / 100 ≤ m = div-le_of_le-mul 100 (omega arith) in
    rw (used_mib-pos m p h room) (adds_up m (m * p / 100) share (omega arith))
