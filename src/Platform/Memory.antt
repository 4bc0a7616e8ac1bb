-- ===== src/Platform/Memory.antt =====
-- A platform that meets the laws: a quantity is its amount, and the hash is a constant.
use ghostgpu.Base.{
  ℕ, zero, suc, Bool, length, ◌%◌, ◌*◌, ◌^◌, some, [], ◌∷◌, ◌++◌, ◌≡◌, refl, arith, Text, codes,
}
use ghostgpu.Base.Int.{ℤ, pos, negsuc, ◌+ℤ◌, ◌*ℤ◌, quot}
use ghostgpu.Text.{decimal, value, format_int, leading_digits}
use ghostgpu.Text.Decimal.{value-decimal, decimal-digits, leading_digits-append}
use ghostgpu.Platform.{Platform, IsLawful, compare_ℤ}

abbrev repeat : ℕ → ℕ → Text
repeat zero c = []
repeat (suc n) c = c ∷ repeat n c

-- `strconv`-like reading of "<n>Gi".
unfoldable pub read_gi : Text → ℤ
unfolding leading_digits
read_gi s = pos (value 0 (leading_digits s) * 2 ^ 30 * 10 ^ 9)

-- Quantities as integers in units of 10 ^ -9. The format is forgotten, a selector is a list of labels
-- that all must be there, and the hash is 32 times the length of the text.
abbrev pub memory : Platform
memory = record {
  Quantity = ℤ;
  zero_quantity = pos 0;
  cmp = compare_ℤ;
  add = ◌+ℤ◌;
  quantity_value = λ q. quot q (pos (10 ^ 9));
  new_quantity = λ n f. n *ℤ pos (10 ^ 9);
  print = format_int;
  must_parse = read_gi;
  sha256 = λ s. repeat 32 (length s % 256);
  LabelSelector = Bool;
  selector_matches = λ s labels. some s;
}

pub value_of_scaled : (n : ℤ) → quot (n *ℤ pos (10 ^ 9)) (pos (10 ^ 9)) ≡ n
unfolding quot ◌*ℤ◌
value_of_scaled (pos n) = ground arith
value_of_scaled (negsuc n) = ground arith

pub read_gi-decimal : (n : ℕ) → read_gi (decimal n ++ codes "Gi") ≡ pos (n * 2 ^ 30 * 10 ^ 9)
unfolding read_gi
read_gi-decimal n =
    rw (leading_digits-append (decimal n) b'G' (codes "i") (decimal-digits n) refl, value-decimal n)

unfoldable pub memory-IsLawful : IsLawful memory
memory-IsLawful = record {
  amount = λ q. q;
  cmp-amount = λ a b. refl;
  amount-add = λ a b. refl;
  amount-new_quantity = λ n f. refl;
  value-new_quantity = λ n f h. value_of_scaled n;
  amount-must_parse = read_gi-decimal;
}
