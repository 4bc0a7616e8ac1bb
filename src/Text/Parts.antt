-- ===== src/Text/Parts.antt =====
-- Splitting where texts were joined, and trimming what has no space at its ends.
use ghostgpu.Base.{
  ℕ, Bool, false, List, [], ◌∷◌, ◌++◌, ◌≡◌, refl, ap, ◌∙◌, arith, Text, All, All-append,
}
use ghostgpu.Text.{join, Lacks}
use ghostgpu.Text.Split.{split, trim_left, trim_right, trim, trim_space, is_space, onto_trimmed}

-- A text of characters of which none passes the test.
abbrev pub NoneOf : (ℕ → Bool) → Text → Type 0
NoneOf p = All (λ c. p c ≡ false)

trim_left_id : (p : ℕ → Bool) (s : Text) → NoneOf p s → trim_left p s ≡ s
unfolding trim_left
trim_left_id p [] h = refl
trim_left_id p (c ∷ s) (h, hs) = rw h refl

onto_trimmed_id : (p : ℕ → Bool) (c : ℕ) (s : Text) → p c ≡ false → onto_trimmed p c s ≡ c ∷ s
onto_trimmed_id p c [] h = rw h refl
onto_trimmed_id p c (d ∷ s) h = refl

trim_right_id : (p : ℕ → Bool) (s : Text) → NoneOf p s → trim_right p s ≡ s
unfolding trim_right
trim_right_id p [] h = refl
trim_right_id p (c ∷ s) (h, hs) = rw (trim_right_id p s hs) (onto_trimmed_id p c s h)

pub trim_space_id : (s : Text) → NoneOf is_space s → trim_space s ≡ s
unfolding trim_space trim
trim_space_id s h = rw (trim_left_id is_space s h) (trim_right_id is_space s h)

pub split-Lacks : (sep : ℕ) (s : Text) → Lacks sep s → split sep s ≡ s ∷ []
unfolding split
split-Lacks sep [] h = refl
split-Lacks sep (c ∷ s) (h, hs) = rw (h, split-Lacks sep s hs) refl

pub split-append :
    (sep : ℕ) (s rest : Text) → Lacks sep s → split sep (s ++ (sep ∷ rest)) ≡ s ∷ split sep rest
unfolding split
split-append sep [] rest h = ground arith
split-append sep (c ∷ s) rest (h, hs) = rw (h, split-append sep s rest hs) refl

-- Parts without the separator are split where they were joined.
pub split-join :
    (sep : ℕ) (p : Text) (ps : List Text)
    → All (Lacks sep) (p ∷ ps)
    → split sep (join (p ∷ ps) (sep ∷ [])) ≡ p ∷ ps
unfolding join
split-join sep p [] (h, _) = split-Lacks sep p h
split-join sep p (q ∷ ps) (h, hs) =
    split-append sep p (join (q ∷ ps) (sep ∷ [])) h ∙ ap (◌∷◌ p) (split-join sep q ps hs)

-- A joined text has the characters of its parts and of the separator.
pub join-NoneOf :
    (t : ℕ → Bool) (sep : ℕ) (ps : List Text)
    → t sep ≡ false
    → All (NoneOf t) ps
    → NoneOf t (join ps (sep ∷ []))
unfolding join
join-NoneOf t sep [] h hs = tt
join-NoneOf t sep (p ∷ []) h (hp, _) = hp
join-NoneOf t sep (p ∷ q ∷ ps) h (hp, hs) =
    All-append (λ c. t c ≡ false) p (sep ∷ join (q ∷ ps) (sep ∷ [])) hp
      (h, join-NoneOf t sep (q ∷ ps) h hs)
