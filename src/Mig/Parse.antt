-- ===== src/Mig/Parse.antt =====
-- internal/mig/parse.go: the shape of a profile, read from its name.
pub mod RoundTrip
use ghostgpu.Base.{
  ℕ, ◌^◌, Bool, true, false, ◌||◌, Option, none, some, [], Text, codes, text_eq, ◌==◌,
  if◌then◌else◌,
}
use ghostgpu.Base.Int.{ℤ, pos, ltb_ℤ, mul64}
use ghostgpu.Text.{leading_digits, after_digits, cut_prefix, parse_int}
use ghostgpu.Platform.{Platform, binary_si}
use ghostgpu.Mig.{Profile}

abbrev pub gibibyte : ℤ
gibibyte = pos (2 ^ 30)

-- `profileNamePattern`, ^([0-9]+)g\.([0-9]+)gb$: the two captured groups. The groups are greedy, and
-- what follows each is no digit, so there is one way to match.
unfoldable pub match_profile_name : Text → Option (Text × Text)
unfolding leading_digits after_digits cut_prefix
match_profile_name name = elim (cut_prefix (codes "g.") (after_digits name)) [
  | none ↦ none
  | some rest ↦
      let slices = leading_digits name in
      let memory = leading_digits rest in
      if slices == []
      then none
      else if memory == []
      then none
      else if after_digits rest == codes "gb"
      then some (slices, memory)
      else none
]

-- `n < 1`
abbrev pub below_one : ℤ → Bool
below_one n = ltb_ℤ n (pos 1)

module _ (P : Platform) where
  -- `int64(memoryGiB)*gibibyte` is a product of `int64`.
  abbrev pub profile_of : Text → ℤ → ℤ → Profile P
  profile_of name slices memory_gib = record {
    name = name;
    memory = P.new_quantity (mul64 memory_gib gibibyte) binary_si;
    slices = slices;
  }

  unfoldable pub parse_profile_name : Text → Option (Profile P)
  unfolding match_profile_name parse_int
  parse_profile_name name = elim (match_profile_name name) [
    | none ↦ none
    | some (first, second) ↦ elim (parse_int (2 ^ 31) first) [
      | none ↦ none
      | some slices ↦ if below_one slices then none else elim (parse_int (2 ^ 63) second) [
        | none ↦ none
        | some memory_gib ↦
            if below_one memory_gib then none else some (profile_of name slices memory_gib)
      ]
    ]
  ]
