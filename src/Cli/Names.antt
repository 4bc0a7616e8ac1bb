-- ===== src/Cli/Names.antt =====
-- internal/cli/capture.go: the names of captured objects (`baseName`, `namer`), and `narrow`.
pub mod Labels
pub mod Fresh
use ghostgpu.Base.{
  ℕ, zero, suc, ◌^◌, ◌-◌, Bool, true, false, ◌&&◌, not, List, [], ◌∷◌, ◌++◌, map, length, take, eqb,
  ltb, if◌then◌else◌, Text, codes, text_eq, ◌==◌, is_in,
}
use ghostgpu.Base.Int.{ℤ, pos}
use ghostgpu.Text.{to_lower, is_alphanumeric, format_int}
use ghostgpu.Text.Split.{trim, trim_prefix}

abbrev pub max_name_base : ℕ
max_name_base = 50

-- One round of the loop: what the builder holds, and `separated`.
unfoldable pub slug_step : Text × Bool → ℕ → Text × Bool
slug_step (b, separated) r =
    if is_alphanumeric r
    then (b ++ (r ∷ []), false)
    else if not separated && not (b == [])
    then (b ++ (b'-' ∷ []), true)
    else (b, separated)

-- The loop over the characters.
unfoldable pub slug : Text × Bool → Text → Text × Bool
unfolding slug_step
slug s [] = s
slug s (r ∷ rs) = slug (slug_step s r) rs

abbrev pub is_dash : ℕ → Bool
is_dash c = eqb c b'-'

-- The lines behind the loop. The characters are ASCII, so their number is the number of bytes.
unfoldable pub shortened : Text → Text
unfolding trim
shortened name =
    if ltb max_name_base (length name) then trim is_dash (take max_name_base name) else name

abbrev pub named : Text → Text
named [] = codes "gpu"
named (c ∷ name) = c ∷ name

unfoldable pub base_name : Text → Text
unfolding slug trim trim_prefix shortened to_lower
base_name product =
    let (b, separated) = slug ([], false) (map to_lower product) in
    named (shortened (trim_prefix (codes "nvidia-") (trim is_dash b)))

-- The loop over `i`, from `i` up: the first name that is not taken. The fuel is one more than the
-- number of names taken; behind it would stand `base`, which is taken.
unfoldable pub pick_from : ℕ → ℕ → Text → List Text → Text
unfolding format_int
pick_from zero i base taken = base
pick_from (suc fuel) i base taken =
    let rest = pick_from fuel (suc i) base taken in
    let candidate = base ++ (b'-' ∷ format_int (pos i)) in
    if is_in candidate taken then rest else candidate

-- A namer is the set of the names taken; `pick` gives a name and the namer after it.
unfoldable pub pick : List Text → Text → Text × List Text
unfolding pick_from is_in
pick taken base =
    if is_in base taken
    then (let name = pick_from (suc (length taken)) 2 base taken in (name, name ∷ taken))
    else (base, base ∷ taken)

-- `narrow(len(x))`: a length that an int32 cannot hold becomes the largest that it can.
unfoldable pub narrow : ℕ → ℤ
narrow n = if ltb (2 ^ 31 - 1) n then pos (2 ^ 31 - 1) else pos n
