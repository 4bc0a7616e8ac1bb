-- ===== src/Text/Decimal.antt =====
-- Printing and parsing of decimal numbers.
use ghostgpu.Base.{
  ℕ, zero, suc, ◌+◌, ◌-◌, ◌*◌, ◌/◌, ◌%◌, ◌<◌, true, false, Option, none, some, [], ◌∷◌, ◌++◌, ◌≡◌,
  ◌≢◌, refl, sym, ap, ◌∙◌, arith, ltb, Text, Bool-cases, inl, inr, if◌then◌else◌,
}
use ghostgpu.Base.Int.{ℤ, pos, pos_part}
use ghostgpu.Text.{
  is_digit, decimal_fuel, decimal, value, all_digits, parse_digits, parse_int, Lacks,
  positive_below, negative_below, leading_digits, after_digits,
}

value-snoc : (s : Text) (n d : ℕ) → value n (s ++ (d ∷ [])) ≡ value n s * 10 + (d - b'0')
value-snoc [] n d = refl
value-snoc (c ∷ s) n d = value-snoc s (n * 10 + (c - b'0')) d

all_digits-snoc :
    (s : Text) (d : ℕ) → all_digits s ≡ true → is_digit d ≡ true → all_digits (s ++ (d ∷ [])) ≡ true
all_digits-snoc [] d h k = ground arith
all_digits-snoc (c ∷ s) d h k = ground (arith, all_digits-snoc s d)

is_digit-add : (d : ℕ) → d < 10 → is_digit (b'0' + d) ≡ true
is_digit-add d h = ground arith

decimal_fuel-value : (f n : ℕ) → n < f → value 0 (decimal_fuel f n) ≡ n
unfolding decimal_fuel
decimal_fuel-value zero n h = elim h [ ]
decimal_fuel-value (suc f) n h = elim (Bool-cases (ltb n 10)) [
  | inl small ↦ rw small (omega arith)
  | inr large ↦ rw large (
      value-snoc (decimal_fuel f (n / 10)) 0 (b'0' + n % 10)
      ∙ ground (arith, decimal_fuel-value f (n / 10)))
]

decimal_fuel-digits : (f n : ℕ) → all_digits (decimal_fuel f n) ≡ true
unfolding decimal_fuel
decimal_fuel-digits zero n = refl
decimal_fuel-digits (suc f) n = elim (Bool-cases (ltb n 10)) [
  | inl small ↦ rw small (ground arith)
  | inr large ↦ rw large (
      all_digits-snoc (decimal_fuel f (n / 10)) (b'0' + n % 10) (decimal_fuel-digits f (n / 10))
        (is_digit-add (n % 10) (omega arith)))
]

snoc-ne-nil : (s : Text) (d : ℕ) → s ++ (d ∷ []) ≢ []
snoc-ne-nil [] d e = cc
snoc-ne-nil (c ∷ s) d e = cc

pub decimal-digits : (n : ℕ) → all_digits (decimal n) ≡ true
unfolding decimal
decimal-digits n = decimal_fuel-digits (suc n) n

pub value-decimal : (n : ℕ) → value 0 (decimal n) ≡ n
unfolding decimal
value-decimal n = decimal_fuel-value (suc n) n (omega arith)

pub decimal_inj : (i j : ℕ) → decimal i ≡ decimal j → i ≡ j
decimal_inj i j e = sym (value-decimal i) ∙ ap (value 0) e ∙ value-decimal j

pub decimal-ne-nil : (n : ℕ) → decimal n ≢ []
unfolding decimal decimal_fuel
decimal-ne-nil n = elim (Bool-cases (ltb n 10)) [
  | inl small ↦ rw small (λ e. cc)
  | inr large ↦ rw large (snoc-ne-nil (decimal_fuel n (n / 10)) (b'0' + n % 10))
]

pub parse_digits_lem : (s : Text) → s ≢ [] → all_digits s ≡ true → parse_digits s ≡ some (value 0 s)
unfolding parse_digits
parse_digits_lem [] ne h = absurd (ne refl)
parse_digits_lem (c ∷ s) ne h = rw h

pub parse_digits-decimal : (n : ℕ) → parse_digits (decimal n) ≡ some n
parse_digits-decimal n =
    rw (parse_digits_lem (decimal n) (decimal-ne-nil n) (decimal-digits n), value-decimal n)

-- A text of digits is read without a sign.
pub parse_int_digits :
    (limit : ℕ) (s : Text)
    → s ≢ []
    → all_digits s ≡ true
    → parse_int limit s ≡ positive_below limit (parse_digits s)
unfolding parse_int
parse_int_digits limit [] ne h = absurd (ne refl)
parse_int_digits limit (c ∷ s) ne h = ground arith

pub parse_int_value :
    (limit : ℕ) (s : Text)
    → s ≢ []
    → all_digits s ≡ true
    → parse_int limit s ≡ (if ltb (value 0 s) limit then some (pos (value 0 s)) else none)
parse_int_value limit s ne h = rw (parse_int_digits limit s ne h, parse_digits_lem s ne h)

pub parse_int-decimal : (limit n : ℕ) → n < limit → parse_int limit (decimal n) ≡ some (pos n)
parse_int-decimal limit n h =
    rw
      (
        parse_int_digits limit (decimal n) (decimal-ne-nil n) (decimal-digits n),
        parse_digits-decimal n,
      )
      (ground arith)

-- Digits are neither a dash nor any other character outside '0' to '9'.
pub digits-Lacks : (c : ℕ) → is_digit c ≡ false → (s : Text) → all_digits s ≡ true → Lacks c s
digits-Lacks c out [] h = tt
digits-Lacks c out (d ∷ s) h = (ground arith, digits-Lacks c out s (ground arith))

pub decimal-Lacks : (c : ℕ) → is_digit c ≡ false → (n : ℕ) → Lacks c (decimal n)
decimal-Lacks c out n = digits-Lacks c out (decimal n) (decimal-digits n)

pub leading_digits-append :
    (s : Text) (c : ℕ) (rest : Text)
    → all_digits s ≡ true
    → is_digit c ≡ false
    → leading_digits (s ++ (c ∷ rest)) ≡ s
unfolding leading_digits
leading_digits-append [] c rest h out = rw out
leading_digits-append (d ∷ s) c rest h out = ground (arith, leading_digits-append s c rest)

pub after_digits-append :
    (s : Text) (c : ℕ) (rest : Text)
    → all_digits s ≡ true
    → is_digit c ≡ false
    → after_digits (s ++ (c ∷ rest)) ≡ c ∷ rest
unfolding after_digits
after_digits-append [] c rest h out = rw out
after_digits-append (d ∷ s) c rest h out = ground (arith, after_digits-append s c rest)

pub leading-append-after : (s : Text) → leading_digits s ++ after_digits s ≡ s
unfolding leading_digits after_digits
leading-append-after [] = refl
leading-append-after (c ∷ s) = ground (arith, leading-append-after s)

pub leading_digits-digits : (s : Text) → all_digits (leading_digits s) ≡ true
unfolding leading_digits
leading_digits-digits [] = refl
leading_digits-digits (c ∷ s) = ground (arith, leading_digits-digits s)

negative_below-lt :
    (limit : ℕ) (r : Option ℕ) (c : ℤ) → negative_below limit r ≡ some c → pos_part c ≡ 0
negative_below-lt limit none c e = cc
negative_below-lt limit (some n) c e = ground arith

positive_below-lt :
    (limit : ℕ) (r : Option ℕ) (c : ℤ) → positive_below limit r ≡ some c → pos_part c < limit
positive_below-lt limit none c e = cc
positive_below-lt limit (some n) c e = ground arith

-- A number that is read is below the limit.
pub parse_int-lt :
    (limit : ℕ) (s : Text) (c : ℤ) → 0 < limit → parse_int limit s ≡ some c → pos_part c < limit
unfolding parse_int
parse_int-lt limit [] c h e = cc
parse_int-lt limit (d ∷ s) c h e = ground (
  arith,
  negative_below-lt limit (parse_digits s) c,
  positive_below-lt limit (parse_digits s) c,
  positive_below-lt limit (parse_digits (d ∷ s)) c,
)
