-- ===== src/Cli/Names/Labels.antt =====
-- The form of the names that are made of product names.
use ghostgpu.Base.{
  ℕ, zero, suc, ◌≤◌, Bool, true, false, ◌&&◌, not, [], ◌∷◌, ◌++◌, map, length, take, length-take,
  ltb, ◌≡◌, ◌≢◌, refl, sym, inl, inr, arith, Bool-cases, Option-cases, if◌then◌else◌, Text, codes,
  text_eq, ◌==◌,
}
use ghostgpu.Text.{to_lower, is_alphanumeric, cut_prefix}
use ghostgpu.Text.Cut.{cut_prefix-eq}
use ghostgpu.Text.Split.{onto_trimmed, trim_left, trim_right, trim, trim_prefix}
use ghostgpu.Cli.Names.{slug_step, slug, is_dash, shortened, named, base_name, max_name_base}

-- Letters a to z, digits, and dashes of which no two are adjacent; `p` says that a dash stands in
-- front, so that none may lead.
unfoldable pub tidy : Bool → Text → Bool
tidy p [] = true
tidy p (c ∷ s) =
    let rest = tidy (not (is_alphanumeric c)) s in
    if is_alphanumeric c then rest else is_dash c && (not p && rest)

-- Whether a dash stands last, `p` for an empty text.
unfoldable pub last_dash : Bool → Text → Bool
last_dash p [] = p
last_dash p (c ∷ s) = last_dash (is_dash c) s

tidy-snoc :
    (p : Bool) (s : Text) (c : ℕ)
    → tidy p s ≡ true
    → (if is_alphanumeric c then true else is_dash c && not (last_dash p s)) ≡ true
    → tidy p (s ++ (c ∷ [])) ≡ true
unfolding tidy last_dash
tidy-snoc p [] c h k = ground arith
tidy-snoc p (d ∷ s) c h k = elim (Bool-cases (is_alphanumeric d)) [
  | inl alnum ↦ rw alnum (tidy-snoc false s c (ground arith) (ground arith))
  | inr other ↦ ground (arith, tidy-snoc true s c)
]

last_dash-snoc : (p : Bool) (s : Text) (c : ℕ) → last_dash p (s ++ (c ∷ [])) ≡ is_dash c
unfolding last_dash
last_dash-snoc p [] c = refl
last_dash-snoc p (d ∷ s) c = last_dash-snoc (is_dash d) s c

-- What the loop holds: a tidy text, and whether it ends in a dash.
abbrev Holds : Text × Bool → Type 0
Holds (b, separated) = (tidy true b ≡ true) × (separated ≡ last_dash false b)

-- A text that is not empty ends in a dash or not, whatever stands in front.
last_dash-front : (p q : Bool) (s : Text) → s ≢ [] → last_dash p s ≡ last_dash q s
unfolding last_dash
last_dash-front p q [] ne = absurd (ne refl)
last_dash-front p q (c ∷ s) ne = refl

alnum-Holds :
    (b : Text) (r : ℕ)
    → is_alphanumeric r ≡ true
    → tidy true b ≡ true
    → Holds (b ++ (r ∷ []), false)
alnum-Holds b r a t = (tidy-snoc true b r t (rw a), ground (arith, last_dash-snoc false b r))

dash-Holds :
    (b : Text)
    → b ≢ []
    → tidy true b ≡ true
    → last_dash false b ≡ false
    → Holds (b ++ codes "-", true)
dash-Holds b ne t e = (
  tidy-snoc true b b'-' t (rw (last_dash-front true false b ne, e)),
  sym (last_dash-snoc false b b'-'),
)

slug_step-Holds : (s : Text × Bool) (r : ℕ) → Holds s → Holds (slug_step s r)
unfolding slug_step
slug_step-Holds (b, separated) r (t, e) = elim (Bool-cases (is_alphanumeric r)) [
  | inl a ↦ rw a (alnum-Holds b r a t)
  | inr o ↦ rw o (other separated e)
]
  where
    other :
        (q : Bool)
        → q ≡ last_dash false b
        → Holds (if not q && not (b == []) then (b ++ codes "-", true) else (b, q))
    other true f = (t, f)
    other false f = elim (Bool-cases (b == [])) [
      | inl empty ↦ rw empty (t, f)
      | inr more ↦ rw more (dash-Holds b (λ p. ground arith) t (sym f))
    ]

slug-Holds : (s : Text × Bool) (rs : Text) → Holds s → Holds (slug s rs)
unfolding slug
slug-Holds s [] h = h
slug-Holds s (r ∷ rs) h = slug-Holds (slug_step s r) rs (slug_step-Holds s r h)

-- A tidy text, led by no dash and ended by none.
abbrev IsTidy : Text → Type 0
IsTidy s = (tidy true s ≡ true) × (last_dash false s ≡ false)

trim_left-tidy : (s : Text) → tidy true s ≡ true → trim_left is_dash s ≡ s
unfolding trim_left tidy
trim_left-tidy [] h = refl
trim_left-tidy (c ∷ s) h = ground arith

tidy-tail :
    (p : Bool) (c : ℕ) (s : Text) → tidy p (c ∷ s) ≡ true → tidy (not (is_alphanumeric c)) s ≡ true
unfolding tidy
tidy-tail p c s h = ground arith

tidy-head :
    (p : Bool) (c : ℕ) (s t : Text)
    → tidy p (c ∷ s) ≡ true
    → tidy (not (is_alphanumeric c)) t ≡ true
    → tidy p (c ∷ t) ≡ true
unfolding tidy
tidy-head p c s t h k = ground arith

onto_trimmed-tidy :
    (p : Bool) (c : ℕ) (s : Text) → tidy p (c ∷ s) ≡ true → tidy p (onto_trimmed is_dash c s) ≡ true
unfolding tidy
onto_trimmed-tidy p c [] h = ground arith
onto_trimmed-tidy p c (d ∷ s) h = h

trim_right-tidy : (p : Bool) (s : Text) → tidy p s ≡ true → tidy p (trim_right is_dash s) ≡ true
unfolding trim_right
trim_right-tidy p [] h = h
trim_right-tidy p (c ∷ s) h = onto_trimmed-tidy p c (trim_right is_dash s) (
    tidy-head p c s (trim_right is_dash s) h
      (trim_right-tidy (not (is_alphanumeric c)) s (tidy-tail p c s h)))

onto_trimmed-last_dash :
    (c : ℕ) (s : Text)
    → last_dash false s ≡ false
    → last_dash false (onto_trimmed is_dash c s) ≡ false
unfolding last_dash
onto_trimmed-last_dash c [] h = ground arith
onto_trimmed-last_dash c (d ∷ s) h = h

trim_right-last_dash : (s : Text) → last_dash false (trim_right is_dash s) ≡ false
unfolding trim_right last_dash
trim_right-last_dash [] = refl
trim_right-last_dash (c ∷ s) =
    onto_trimmed-last_dash c (trim_right is_dash s) (trim_right-last_dash s)

trim-IsTidy : (s : Text) → tidy true s ≡ true → IsTidy (trim is_dash s)
unfolding trim
trim-IsTidy s h = rw (trim_left-tidy s h) (trim_right-tidy true s h, trim_right-last_dash s)

-- Behind the vendor's name and its dash a tidy text goes on with no dash.
behind_prefix : (s : Text) → IsTidy (codes "nvidia-" ++ s) → IsTidy s
unfolding tidy last_dash
behind_prefix [] (t, l) = absurd (cc)
behind_prefix (c ∷ s) (t, l) = (t, l)

trim_prefix-IsTidy : (s : Text) → IsTidy s → IsTidy (trim_prefix (codes "nvidia-") s)
unfolding trim_prefix
trim_prefix-IsTidy s h = elim (Option-cases (cut_prefix (codes "nvidia-") s)) [
  | inl e ↦ rw e h
  | inr (rest, e) ↦ rw e (behind_prefix rest (rw (← cut_prefix-eq (codes "nvidia-") s rest e) h))
]

take-tidy : (p : Bool) (n : ℕ) (s : Text) → tidy p s ≡ true → tidy p (take n s) ≡ true
take-tidy p zero s h = unfold tidy in refl
take-tidy p (suc n) [] h = h
take-tidy p (suc n) (c ∷ s) h =
    tidy-head p c s (take n s) h (take-tidy (not (is_alphanumeric c)) n s (tidy-tail p c s h))

length-onto_trimmed : (c : ℕ) (s : Text) → length (onto_trimmed is_dash c s) ≤ suc (length s)
length-onto_trimmed c [] = ground arith
length-onto_trimmed c (d ∷ s) = omega arith

length-trim_right : (s : Text) → length (trim_right is_dash s) ≤ length s
unfolding trim_right
length-trim_right [] = omega arith
length-trim_right (c ∷ s) =
    omega (arith, length-onto_trimmed c (trim_right is_dash s), length-trim_right s)

length-trim : (s : Text) → tidy true s ≡ true → length (trim is_dash s) ≤ length s
unfolding trim
length-trim s h = rw (trim_left-tidy s h) (length-trim_right s)

shortened-IsTidy :
    (s : Text) → IsTidy s → IsTidy (shortened s) × (length (shortened s) ≤ max_name_base)
unfolding shortened
shortened-IsTidy s (t, l) = elim (Bool-cases (ltb max_name_base (length s))) [
  | inl long ↦ rw long (
    trim-IsTidy (take max_name_base s) (take-tidy true max_name_base s t),
    omega (
      arith,
      length-trim (take max_name_base s) (take-tidy true max_name_base s t),
      length-take max_name_base s,
    ),
  )
  | inr short ↦ rw short ((t, l), ground arith)
]

-- A name that Kubernetes accepts as a label: letters a to z, digits and dashes, no dash at either end.
pub record IsLabel (s : Text) : Type 0 where
  pub not_empty : s ≢ []
  pub within : length s ≤ 50
  pub characters : tidy true s ≡ true
  pub last : last_dash false s ≡ false

named-IsLabel : (s : Text) → IsTidy s × (length s ≤ max_name_base) → IsLabel (named s)
unfolding tidy last_dash
named-IsLabel [] h = record {
  not_empty = λ e. cc;
  within = omega arith;
  characters = refl;
  last = refl;
}
named-IsLabel (c ∷ s) ((t, l), n) = record {
  not_empty = λ e. cc;
  within = n;
  characters = t;
  last = l;
}

-- Whatever the product is called, the name that is made of it has 1 to 50 characters, each of them a
-- letter a to z, a digit or a dash, with no dash at either end and no two adjacent.
pub base_name-IsLabel : (product : Text) → IsLabel (base_name product)
unfolding base_name
base_name-IsLabel product =
    let s = slug ([], false) (map to_lower product) in
    let held : Holds s =
      slug-Holds ([], false) (map to_lower product) (unfold tidy last_dash in (refl, refl)) in
    named-IsLabel (shortened (trim_prefix (codes "nvidia-") (trim is_dash s.0))) (
      shortened-IsTidy (trim_prefix (codes "nvidia-") (trim is_dash s.0))
        (trim_prefix-IsTidy (trim is_dash s.0) (trim-IsTidy s.0 held.0)))
