-- ===== src/Text.antt =====
-- The parts of Go's `strings`, `strconv` and `fmt` that the program calls, on texts as lists of
-- code points.
pub mod Decimal
pub mod Cut
pub mod Split
pub mod Parts
use ghostgpu.Base.{
  ℕ, zero, suc, ◌+◌, ◌-◌, ◌*◌, ◌/◌, ◌%◌, ◌≤◌, Bool, true, false, ◌&&◌, ◌||◌, Option, none, some,
  List, [], ◌∷◌, ◌++◌, ◌≡◌, ltb, leb, eqb, if◌then◌else◌, Text, codes, All,
}
use ghostgpu.Base.Int.{ℤ, pos, negsuc, sub_ℕ}

abbrev pub is_digit : ℕ → Bool
is_digit c = leb b'0' c && leb c b'9'

-- The decimal digits of a number; `n + 1` rounds are enough for `n`.
unfoldable pub decimal_fuel : ℕ → ℕ → Text
decimal_fuel zero n = []
decimal_fuel (suc f) n =
    let rest = decimal_fuel f (n / 10) in
    if ltb n 10 then (b'0' + n) ∷ [] else rest ++ ((b'0' + n % 10) ∷ [])

unfoldable pub decimal : ℕ → Text
unfolding decimal_fuel
decimal n = decimal_fuel (suc n) n

-- `fmt.Sprintf("%d", i)`, `strconv.Itoa` and `strconv.FormatInt(i, 10)`
unfoldable pub format_int : ℤ → Text
unfolding decimal
format_int (pos n) = decimal n
format_int (negsuc n) = b'-' ∷ decimal (suc n)

-- The number that digits spell behind `n`.
abbrev pub value : ℕ → Text → ℕ
value n [] = n
value n (c ∷ s) = value (n * 10 + (c - b'0')) s

abbrev pub all_digits : Text → Bool
all_digits [] = true
all_digits (c ∷ s) = is_digit c && all_digits s

-- An unsigned number: at least one digit, and digits only.
unfoldable pub parse_digits : Text → Option ℕ
parse_digits [] = none
parse_digits (c ∷ s) = if all_digits (c ∷ s) then some (value 0 (c ∷ s)) else none

-- A result at or above the limit, and a negative one below it, is out of range.
abbrev pub negative_below : ℕ → Option ℕ → Option ℤ
negative_below limit none = none
negative_below limit (some n) = if leb n limit then some (sub_ℕ 0 n) else none

abbrev pub positive_below : ℕ → Option ℕ → Option ℤ
positive_below limit none = none
positive_below limit (some n) = if ltb n limit then some (pos n) else none

-- `strconv.ParseInt(s, 10, bits)` with `limit` the number `2 ^ (bits - 1)`; `none` is its error.
unfoldable pub parse_int : ℕ → Text → Option ℤ
unfolding parse_digits
parse_int limit [] = none
parse_int limit (c ∷ s) =
    if eqb c b'-'
    then negative_below limit (parse_digits s)
    else if eqb c b'+'
    then positive_below limit (parse_digits s)
    else positive_below limit (parse_digits (c ∷ s))

-- `strings.CutPrefix(s, p)`; `none` is its `false`.
unfoldable pub cut_prefix : Text → Text → Option Text
cut_prefix [] s = some s
cut_prefix (p ∷ ps) [] = none
cut_prefix (p ∷ ps) (c ∷ s) = let rest = cut_prefix ps s in if eqb p c then rest else none

-- `strings.HasPrefix(s, p)`
unfoldable pub has_prefix : Text → Text → Bool
unfolding cut_prefix
has_prefix p s = elim (cut_prefix p s) [ none ↦ false | some _ ↦ true ]

-- `strings.Contains(s, needle)`
unfoldable pub contains : Text → Text → Bool
unfolding has_prefix
contains needle [] = has_prefix needle []
contains needle (c ∷ s) = has_prefix needle (c ∷ s) || contains needle s

-- `strings.Cut(s, sep)` for a separator of one character; `none` is its `false`.
unfoldable pub cut : ℕ → Text → Option (Text × Text)
cut sep [] = none
cut sep (c ∷ s) =
    let rest = cut sep s in
    if eqb c sep
    then some ([], s)
    else elim rest [ none ↦ none | some (before, after) ↦ some (c ∷ before, after) ]

-- `strings.ReplaceAll` of one character by another.
unfoldable pub replace_all : ℕ → ℕ → Text → Text
replace_all old new [] = []
replace_all old new (c ∷ s) = (if eqb c old then new else c) ∷ replace_all old new s

-- `strings.Join`
unfoldable pub join : List Text → Text → Text
join [] sep = []
join (p ∷ []) sep = p
join (p ∷ q ∷ ps) sep = p ++ (sep ++ join (q ∷ ps) sep)

-- `unicode.ToLower` on the characters whose lower case is ASCII: the letters A to Z, U+0130 and the
-- Kelvin sign U+212A. Any other character, and its lower case, lies outside `a-z`, and the callers
-- treat all of those alike.
unfoldable pub to_lower : ℕ → ℕ
to_lower c =
    if leb b'A' c && leb c b'Z'
    then c + 32
    else if eqb c 0x130
    then b'i'
    else if eqb c 0x212a
    then b'k'
    else c

-- `(r >= 'a' && r <= 'z') || (r >= '0' && r <= '9')`
abbrev pub is_alphanumeric : ℕ → Bool
is_alphanumeric c = leb b'a' c && leb c b'z' || is_digit c

-- What `[0-9]*` matches at the front of a text, and the rest.
unfoldable pub leading_digits : Text → Text
leading_digits [] = []
leading_digits (c ∷ s) = let rest = leading_digits s in if is_digit c then c ∷ rest else []

unfoldable pub after_digits : Text → Text
after_digits [] = []
after_digits (c ∷ s) = let rest = after_digits s in if is_digit c then rest else c ∷ s

-- No character of the text is `c`.
abbrev pub Lacks : ℕ → Text → Type 0
Lacks c = All (λ d. eqb d c ≡ false)
