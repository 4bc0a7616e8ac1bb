-- ===== src/Base/Int.antt =====
-- Go's signed integers: the integers over the native numbers, and the wrap-around of a width.
use Prim.Native.Nat.{ℕ, suc, ◌+◌, ◌-◌, ◌*◌, ◌/◌, ◌%◌, ◌^◌, ◌≤◌, ◌<◌}
use mathlib.Core.Path.{◌≡◌}
use mathlib.Core.Logic.{◌⊎◌}
use mathlib.Core.Bool.{Bool}
use native.Mathlib.Omega.{arith}
use ghostgpu.Base.Tests.{ltb, leb, if◌then◌else◌}

-- `negsuc n` is -(n + 1).
pub data ℤ : Type 0 where
  pos : ℕ → ℤ
  negsuc : ℕ → ℤ

abbrev pub pos_part : ℤ → ℕ
pos_part (pos n) = n
pos_part (negsuc n) = 0

abbrev pub neg_part : ℤ → ℕ
neg_part (pos n) = 0
neg_part (negsuc n) = suc n

-- a - b, as an integer.
abbrev pub sub_ℕ : ℕ → ℕ → ℤ
sub_ℕ a b = if leb b a then pos (a - b) else negsuc (b - a - 1)

infixl 65 ◌+ℤ◌ ◌-ℤ◌
infixl 70 ◌*ℤ◌
infix 50 ◌≤ℤ◌ ◌<ℤ◌
unfoldable pub ◌+ℤ◌ : ℤ → ℤ → ℤ
a +ℤ b = sub_ℕ (pos_part a + pos_part b) (neg_part a + neg_part b)

unfoldable pub ◌-ℤ◌ : ℤ → ℤ → ℤ
a -ℤ b = sub_ℕ (pos_part a + neg_part b) (neg_part a + pos_part b)

unfoldable pub ◌*ℤ◌ : ℤ → ℤ → ℤ
a *ℤ b =
    sub_ℕ (pos_part a * pos_part b + neg_part a * neg_part b)
      (pos_part a * neg_part b + neg_part a * pos_part b)

-- `a / b`, truncated toward zero. The callers divide by positive numbers only.
unfoldable pub quot : ℤ → ℤ → ℤ
quot (pos a) (pos b) = pos (a / b)
quot (pos a) (negsuc b) = sub_ℕ 0 (a / suc b)
quot (negsuc a) (pos b) = sub_ℕ 0 (suc a / b)
quot (negsuc a) (negsuc b) = pos (suc a / suc b)

-- `a % b`, with the sign of `a`.
unfoldable pub rem : ℤ → ℤ → ℤ
rem (pos a) (pos b) = pos (a % b)
rem (pos a) (negsuc b) = pos (a % suc b)
rem (negsuc a) (pos b) = sub_ℕ 0 (suc a % b)
rem (negsuc a) (negsuc b) = sub_ℕ 0 (suc a % suc b)

abbrev pub ◌≤ℤ◌ : ℤ → ℤ → Type 0
a ≤ℤ b = pos_part a + neg_part b ≤ pos_part b + neg_part a

abbrev pub ◌<ℤ◌ : ℤ → ℤ → Type 0
a <ℤ b = pos_part a + neg_part b < pos_part b + neg_part a

abbrev pub ltb_ℤ : ℤ → ℤ → Bool
ltb_ℤ a b = ltb (pos_part a + neg_part b) (pos_part b + neg_part a)

abbrev pub leb_ℤ : ℤ → ℤ → Bool
leb_ℤ a b = leb (pos_part a + neg_part b) (pos_part b + neg_part a)

abbrev pub min_ℤ : ℤ → ℤ → ℤ
min_ℤ a b = if leb_ℤ a b then a else b

abbrev pub max_ℤ : ℤ → ℤ → ℤ
max_ℤ a b = if leb_ℤ a b then b else a

-- The signed number of `w + 1` bits that is congruent to `a` modulo `2 ^ (w + 1)`: what Go keeps of
-- an arithmetic result or a conversion.
abbrev from_bits : ℕ → ℕ → ℤ
from_bits w u = if ltb u (2 ^ w) then pos u else negsuc (2 ^ (w + 1) - 1 - u)

abbrev to_bits : ℕ → ℤ → ℕ
to_bits w (pos n) = n % 2 ^ (w + 1)
to_bits w (negsuc n) = 2 ^ (w + 1) - 1 - n % 2 ^ (w + 1)

unfoldable pub wrap32 : ℤ → ℤ
wrap32 a = from_bits 31 (to_bits 31 a)

unfoldable pub wrap64 : ℤ → ℤ
wrap64 a = from_bits 63 (to_bits 63 a)

-- `int32` arithmetic.
abbrev pub add32 : ℤ → ℤ → ℤ
add32 a b = wrap32 (a +ℤ b)

abbrev pub sub32 : ℤ → ℤ → ℤ
sub32 a b = wrap32 (a -ℤ b)

abbrev pub mul32 : ℤ → ℤ → ℤ
mul32 a b = wrap32 (a *ℤ b)

-- `int64` products.
abbrev pub mul64 : ℤ → ℤ → ℤ
mul64 a b = wrap64 (a *ℤ b)

-- The values of an `int32` and of an `int64`.
abbrev pub IsInt32 : ℤ → Type 0
IsInt32 a = (pos_part a < 2 ^ 31) × (neg_part a ≤ 2 ^ 31)

abbrev pub IsInt64 : ℤ → Type 0
IsInt64 a = (pos_part a < 2 ^ 63) × (neg_part a ≤ 2 ^ 63)

pub wrap32_id : (a : ℤ) → IsInt32 a → wrap32 a ≡ a
unfolding wrap32
wrap32_id (pos n) h = ground arith
wrap32_id (negsuc n) h = ground arith

pub wrap64_id : (a : ℤ) → IsInt64 a → wrap64 a ≡ a
unfolding wrap64
wrap64_id (pos n) h = ground arith
wrap64_id (negsuc n) h = ground arith

pub wrap32-IsInt32 : (a : ℤ) → IsInt32 (wrap32 a)
unfolding wrap32
wrap32-IsInt32 (pos n) = ground arith
wrap32-IsInt32 (negsuc n) = ground arith

pub wrap64-IsInt64 : (a : ℤ) → IsInt64 (wrap64 a)
unfolding wrap64
wrap64-IsInt64 (pos n) = ground arith
wrap64-IsInt64 (negsuc n) = ground arith

-- One lemma for each operation lets `omega` work with the operations shut, at any depth.
pub +ℤ_parts :
    (a b : ℤ)
    → pos_part (a +ℤ b) + neg_part a + neg_part b ≡ neg_part (a +ℤ b) + pos_part a + pos_part b
unfolding ◌+ℤ◌
+ℤ_parts a b = ground arith

pub -ℤ_parts :
    (a b : ℤ)
    → pos_part (a -ℤ b) + neg_part a + pos_part b ≡ neg_part (a -ℤ b) + pos_part a + neg_part b
unfolding ◌-ℤ◌
-ℤ_parts a b = ground arith

pub pos_or_neg : (a : ℤ) → (pos_part a ≡ 0) ⊎ (neg_part a ≡ 0)
pos_or_neg (pos n) = omega arith
pos_or_neg (negsuc n) = omega arith

pub eq_of_parts : (a b : ℤ) → pos_part a + neg_part b ≡ pos_part b + neg_part a → a ≡ b
eq_of_parts a b h = ground arith

pub ruleset int_laws = (arith, +ℤ_parts, -ℤ_parts, eq_of_parts)

-- A product of two numbers that are not negative.
pub mul_pos : (a b : ℕ) → pos a *ℤ pos b ≡ pos (a * b)
unfolding ◌*ℤ◌
mul_pos a b = ground arith

pub add_pos : (a b : ℕ) → pos a +ℤ pos b ≡ pos (a + b)
unfolding ◌+ℤ◌
add_pos a b = ground arith

-- A product with a number that is not negative, by its parts.
pub pos_part-mul : (a : ℤ) (b : ℕ) → pos_part (a *ℤ pos b) ≡ pos_part a * b
unfolding ◌*ℤ◌
pos_part-mul (pos n) b = ground arith
pos_part-mul (negsuc n) b = ground arith

pub neg_part-mul : (a : ℤ) (b : ℕ) → neg_part (a *ℤ pos b) ≡ neg_part a * b
unfolding ◌*ℤ◌
neg_part-mul (pos n) b = ground arith
neg_part-mul (negsuc n) b = ground arith

pub mul-zero : (a : ℤ) → a *ℤ pos 0 ≡ pos 0
mul-zero a = omega (int_laws, pos_part-mul a 0, neg_part-mul a 0)

pub mul-suc : (a : ℤ) (n : ℕ) → a *ℤ pos (suc n) ≡ a +ℤ a *ℤ pos n
mul-suc a n = eq_of_parts (a *ℤ pos (suc n)) (a +ℤ a *ℤ pos n) (
    omega (
      arith,
      pos_part-mul a (suc n),
      neg_part-mul a (suc n),
      pos_part-mul a n,
      neg_part-mul a n,
      +ℤ_parts a (a *ℤ pos n),
    ))
