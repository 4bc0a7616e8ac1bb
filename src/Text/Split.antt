-- ===== src/Text/Split.antt =====
-- More of Go's `strings`: splitting and trimming, and the order of strings.
use ghostgpu.Base.{
  ℕ, Bool, true, false, ◌&&◌, ◌||◌, none, some, List, [], ◌∷◌, ◌≡◌, refl, arith, ltb, leb, eqb,
  if◌then◌else◌, Text, text_eq, ◌==◌, Option,
}
use ghostgpu.Text.{cut_prefix}

-- `unicode.IsSpace`
abbrev pub is_space : ℕ → Bool
is_space c =
    leb 9 c && leb c 13
    || eqb c b' '
    || eqb c 0x85
    || eqb c 0xa0
    || eqb c 0x1680
    || leb 0x2000 c && leb c 0x200a
    || eqb c 0x2028
    || eqb c 0x2029
    || eqb c 0x202f
    || eqb c 0x205f
    || eqb c 0x3000

-- `strings.TrimLeftFunc` and `strings.TrimRightFunc`
unfoldable pub trim_left : (ℕ → Bool) → Text → Text
trim_left p [] = []
trim_left p (c ∷ s) = let rest = trim_left p s in if p c then rest else c ∷ s

-- One character in front of what is left of the rest.
abbrev pub onto_trimmed : (ℕ → Bool) → ℕ → Text → Text
onto_trimmed p c [] = if p c then [] else c ∷ []
onto_trimmed p c (d ∷ ds) = c ∷ d ∷ ds

unfoldable pub trim_right : (ℕ → Bool) → Text → Text
trim_right p [] = []
trim_right p (c ∷ s) = onto_trimmed p c (trim_right p s)

unfoldable pub trim : (ℕ → Bool) → Text → Text
unfolding trim_left trim_right
trim p s = trim_right p (trim_left p s)

-- `strings.TrimSpace(s)`
unfoldable pub trim_space : Text → Text
unfolding trim
trim_space s = trim is_space s

-- `strings.TrimPrefix(s, p)`
unfoldable pub trim_prefix : Text → Text → Text
unfolding cut_prefix
trim_prefix p s = elim (cut_prefix p s) [ none ↦ s | some rest ↦ rest ]

-- `strings.CutSuffix(s, p)`; `none` is its `false`.
unfoldable pub cut_suffix : Text → Text → Option Text
cut_suffix p [] = if [] == p then some [] else none
cut_suffix p (c ∷ s) =
    let rest = cut_suffix p s in
    if c ∷ s == p then some [] else elim rest [ none ↦ none | some front ↦ some (c ∷ front) ]

-- `strings.TrimSuffix(s, p)`
unfoldable pub trim_suffix : Text → Text → Text
unfolding cut_suffix
trim_suffix p s = elim (cut_suffix p s) [ none ↦ s | some front ↦ front ]

-- One character in front of the first part.
abbrev pub onto_first : ℕ → List Text → List Text
onto_first c [] = (c ∷ []) ∷ []
onto_first c (p ∷ ps) = (c ∷ p) ∷ ps

-- `strings.SplitSeq(s, sep)` for a separator of one character: at least one part.
unfoldable pub split : ℕ → Text → List Text
split sep [] = [] ∷ []
split sep (c ∷ s) = let rest = split sep s in if eqb c sep then [] ∷ rest else onto_first c rest

-- `a <= b` on strings. The order of the bytes of UTF-8 is the order of the code points.
unfoldable pub text_leb : Text → Text → Bool
text_leb [] t = true
text_leb (c ∷ s) [] = false
text_leb (c ∷ s) (d ∷ t) =
    let rest = text_leb s t in if ltb c d then true else if ltb d c then false else rest

pub text_leb-total : (s t : Text) → text_leb s t ≡ false → text_leb t s ≡ true
unfolding text_leb
text_leb-total [] t h = cc
text_leb-total (c ∷ s) [] h = refl
text_leb-total (c ∷ s) (d ∷ t) h = ground (arith, text_leb-total s t)
