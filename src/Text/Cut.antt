-- ===== src/Text/Cut.antt =====
-- Cutting a text where it was put together.
use mathlib.Core.List.{reverse, reverse-append, reverse-reverse}
use ghostgpu.Base.{
  append_assoc, ℕ, true, false, Option, none, some, [], ◌∷◌, ◌++◌, ◌≡◌, refl, sym, ◌∙◌, ap, arith,
  eqb, Text, All-append, if◌then◌else◌,
}
use ghostgpu.Text.{cut_prefix, has_prefix, cut, replace_all, Lacks}

pub cut_prefix-append : (p s : Text) → cut_prefix p (p ++ s) ≡ some s
unfolding cut_prefix
cut_prefix-append [] s = refl
cut_prefix-append (c ∷ p) s = ground (arith, cut_prefix-append p s)

-- A prefix that was cut stood in front.
pub cut_prefix-eq : (p s r : Text) → cut_prefix p s ≡ some r → s ≡ p ++ r
unfolding cut_prefix
cut_prefix-eq [] s r h = ground arith
cut_prefix-eq (c ∷ p) [] r h = cc
cut_prefix-eq (c ∷ p) (d ∷ s) r h = ground (arith, cut_prefix-eq p s r)

pub has_prefix-append : (p s : Text) → has_prefix p (p ++ s) ≡ true
unfolding has_prefix
has_prefix-append p s = rw (cut_prefix-append p s, has_prefix)

pub cut-append :
    (sep : ℕ) (s rest : Text) → Lacks sep s → cut sep (s ++ (sep ∷ rest)) ≡ some (s, rest)
unfolding cut
cut-append sep [] rest h = ground arith
cut-append sep (c ∷ s) rest (hc, hs) = rw (hc, cut-append sep s rest hs)

pub cut-Lacks : (sep : ℕ) (s : Text) → Lacks sep s → cut sep s ≡ none
unfolding cut
cut-Lacks sep [] h = refl
cut-Lacks sep (c ∷ s) (hc, hs) = rw (hc, cut-Lacks sep s hs)

some_pair :
    (a b c d : Text)
    → ◌≡◌ {A = Option (Text × Text)} (some (a, b)) (some (c, d))
    → (a ≡ c) × (b ≡ d)
some_pair a b c d e = ground arith

-- Two texts that are put together around their first separator are equal only part by part.
pub append-sep_inj :
    (sep : ℕ) (a b c d : Text)
    → Lacks sep a
    → Lacks sep c
    → a ++ (sep ∷ b) ≡ c ++ (sep ∷ d)
    → (a ≡ c) × (b ≡ d)
append-sep_inj sep a b c d ha hc e =
    some_pair a b c d (sym (cut-append sep a b ha) ∙ ap (cut sep) e ∙ cut-append sep c d hc)

pub replace_all_inj :
    (old new : ℕ) (s t : Text)
    → Lacks new s
    → Lacks new t
    → replace_all old new s ≡ replace_all old new t
    → s ≡ t
unfolding replace_all
replace_all_inj old new [] [] hs ht e = refl
replace_all_inj old new [] (d ∷ t) hs ht e = cc
replace_all_inj old new (c ∷ s) [] hs ht e = cc
replace_all_inj old new (c ∷ s) (d ∷ t) (hc, hs) (hd, ht) e =
    let parts : ((if eqb c old then new else c) ≡ (if eqb d old then new else d))
        × (replace_all old new s ≡ replace_all old new t) =
      ground arith in
    let rest : s ≡ t = replace_all_inj old new s t hs ht parts.1 in ground arith

Lacks-reverse : (sep : ℕ) (s : Text) → Lacks sep s → Lacks sep (reverse s)
Lacks-reverse sep [] h = tt
Lacks-reverse sep (c ∷ s) (hc, hs) =
    rw (reverse-append (c ∷ []) s)
      (All-append (λ d. eqb d sep ≡ false) (reverse s) (c ∷ []) (Lacks-reverse sep s hs) (hc, tt))

reverse-sep : (sep : ℕ) (a b : Text) → reverse (a ++ (sep ∷ b)) ≡ reverse b ++ (sep ∷ reverse a)
reverse-sep sep a b =
    rw (reverse-append a (sep ∷ b), reverse-append (sep ∷ []) b, append_assoc) refl

-- Two texts that are put together around their last separator are equal only part by part.
pub append-sep_inj_last :
    (sep : ℕ) (a b c d : Text)
    → Lacks sep b
    → Lacks sep d
    → a ++ (sep ∷ b) ≡ c ++ (sep ∷ d)
    → (a ≡ c) × (b ≡ d)
append-sep_inj_last sep a b c d hb hd e =
    let turned : reverse b ++ (sep ∷ reverse a) ≡ reverse d ++ (sep ∷ reverse c) =
      sym (reverse-sep sep a b) ∙ ap reverse e ∙ reverse-sep sep c d in
    let (back, front) =
      append-sep_inj sep (reverse b) (reverse a) (reverse d) (reverse c) (Lacks-reverse sep b hb)
        (Lacks-reverse sep d hd) turned in
    (
      sym (reverse-reverse a) ∙ ap reverse front ∙ reverse-reverse c,
      sym (reverse-reverse b) ∙ ap reverse back ∙ reverse-reverse d,
    )
