-- ===== src/Base/Lists.antt =====
-- Lists measured and indexed by native numbers, under the library's names, and predicates on lists
-- by recursion.
use Prim.Native.Nat.{ℕ, zero, suc, ◌+◌, ◌-◌, ◌≤◌, min}
use mathlib.Core.Path.{◌≡◌, refl, sym, ap, subst}
use mathlib.Core.Logic.{◌⊎◌, inl, inr}
use mathlib.Core.List.{List, [], ◌∷◌, ◌++◌, map}
use mathlib.Core.Bool.{Bool, true, false}
use native.Mathlib.Omega.{arith}

module _ {ℓ} {A : Type ℓ} where
  abbrev pub length : List A → ℕ
  length [] = 0
  length (x ∷ xs) = suc (length xs)

  abbrev pub take : ℕ → List A → List A
  take zero xs = []
  take (suc n) [] = []
  take (suc n) (x ∷ xs) = x ∷ take n xs

  abbrev pub drop : ℕ → List A → List A
  drop zero xs = xs
  drop (suc n) [] = []
  drop (suc n) (x ∷ xs) = drop n xs

  -- The elements that pass a Boolean test, as a `for` loop with `continue` collects them.
  abbrev pub keep : (A → Bool) → List A → List A
  keep p [] = []
  keep p (x ∷ xs) = let rest = keep p xs in elim (p x) [ true ↦ x ∷ rest | false ↦ rest ]

  pub length-keep :
      (p : A → Bool) (x : A) (xs : List A)
      → length (keep p (x ∷ xs))
        ≡ elim (p x) [ true ↦ suc (length (keep p xs)) | false ↦ length (keep p xs) ]
  length-keep p x xs = ground arith

  -- How many elements pass a test.
  abbrev pub count_if : (A → Bool) → List A → ℕ
  count_if p xs = length (keep p xs)

  pub length-append : (xs ys : List A) → length (xs ++ ys) ≡ length xs + length ys
  length-append [] ys = omega arith
  length-append (x ∷ xs) ys = omega (arith, length-append xs ys)

module _ {ℓ} {A : Type ℓ} where
  pub count_if-append :
      (p : A → Bool) (xs ys : List A) → count_if p (xs ++ ys) ≡ count_if p xs + count_if p ys
  count_if-append p [] ys = omega arith
  count_if-append p (x ∷ xs) ys = ground (arith, count_if-append p xs ys)

module _ {ℓ κ} {A : Type ℓ} {B : Type κ} where
  pub length-map : (f : A → B) (xs : List A) → length (map f xs) ≡ length xs
  length-map f [] = refl
  length-map f (x ∷ xs) = ap suc (length-map f xs)

  -- What nested loops append: one list for each element.
  abbrev pub flat_map : (A → List B) → List A → List B
  flat_map f [] = []
  flat_map f (x ∷ xs) = f x ++ flat_map f xs

module _ {ℓ} {A : Type ℓ} where
  pub length-take : (n : ℕ) (xs : List A) → length (take n xs) ≡ min n (length xs)
  length-take zero xs = omega arith
  length-take (suc n) [] = omega arith
  length-take (suc n) (x ∷ xs) = omega (arith, length-take n xs)

  pub length-drop : (n : ℕ) (xs : List A) → length (drop n xs) ≡ length xs - n
  length-drop zero xs = omega arith
  length-drop (suc n) [] = omega arith
  length-drop (suc n) (x ∷ xs) = omega (arith, length-drop n xs)

  pub take-append-drop : (n : ℕ) (xs : List A) → take n xs ++ drop n xs ≡ xs
  take-append-drop zero xs = refl
  take-append-drop (suc n) [] = refl
  take-append-drop (suc n) (x ∷ xs) = rw (take-append-drop n xs)

  pub drop_all : (n : ℕ) (xs : List A) → length xs ≤ n → drop n xs ≡ []
  drop_all zero [] h = refl
  drop_all zero (x ∷ xs) h = absurd (omega arith)
  drop_all (suc n) [] h = refl
  drop_all (suc n) (x ∷ xs) h = drop_all n xs (omega arith)

  pub drop-drop : (m n : ℕ) (xs : List A) → drop m (drop n xs) ≡ drop (n + m) xs
  drop-drop m zero xs = rw (unit m)
    where
      unit : (m : ℕ) → zero + m ≡ m
      unit m = omega arith
  drop-drop zero (suc n) [] = rw (unit n)
    where
      unit : (n : ℕ) → suc n + 0 ≡ suc n
      unit n = omega arith
  drop-drop (suc m) (suc n) [] = rw (shift m n)
    where
      shift : (m n : ℕ) → suc n + suc m ≡ suc (n + suc m)
      shift m n = omega arith
  drop-drop m (suc n) (x ∷ xs) = rw (shift m n) (drop-drop m n xs)
    where
      shift : (m n : ℕ) → suc n + m ≡ suc (n + m)
      shift m n = omega arith

-- The numbers from `i` up, `n` of them: the indices of `for i := range n` are `count_from 0 n`.
abbrev pub count_from : ℕ → ℕ → List ℕ
count_from i zero = []
count_from i (suc n) = i ∷ count_from (suc i) n

pub length-count_from : (i n : ℕ) → length (count_from i n) ≡ n
length-count_from i zero = refl
length-count_from i (suc n) = ap suc (length-count_from (suc i) n)

module _ {ℓ κ} {A : Type ℓ} (P : A → Type κ) where
  -- A predicate by recursion computes to tuples, which the tactics read and build.
  abbrev pub All : List A → Type κ
  All [] = Unit
  All (x ∷ xs) = P x × All xs

  pub All-append : (xs ys : List A) → All xs → All ys → All (xs ++ ys)
  All-append [] ys _ hy = hy
  All-append (x ∷ xs) ys (px, hx) hy = (px, All-append xs ys hx hy)

  pub All-take : (n : ℕ) (xs : List A) → All xs → All (take n xs)
  All-take zero xs h = tt
  All-take (suc n) [] h = tt
  All-take (suc n) (x ∷ xs) (px, h) = (px, All-take n xs h)

  pub All-drop : (n : ℕ) (xs : List A) → All xs → All (drop n xs)
  All-drop zero xs h = h
  All-drop (suc n) [] h = tt
  All-drop (suc n) (x ∷ xs) (px, h) = All-drop n xs h

module _ {ℓ κ μ} {A : Type ℓ} {P : A → Type κ} {Q : A → Type μ} where
  pub All-imp : ((a : A) → P a → Q a) → (xs : List A) → All P xs → All Q xs
  All-imp f [] h = tt
  All-imp f (x ∷ xs) (p, h) = (f x p, All-imp f xs h)

module _ {A : Type 0} (P : A → Type 0) where
  -- A position where the predicate holds, with its witness.
  abbrev pub Any : List A → Type 0
  Any [] = ⊥
  Any (x ∷ xs) = P x ⊎ Any xs

  pub Any-append_left : (xs ys : List A) → Any xs → Any (xs ++ ys)
  Any-append_left [] ys h = absurd h
  Any-append_left (x ∷ xs) ys (inl p) = inl p
  Any-append_left (x ∷ xs) ys (inr h) = inr (Any-append_left xs ys h)

  pub Any-append_right : (xs ys : List A) → Any ys → Any (xs ++ ys)
  Any-append_right [] ys h = h
  Any-append_right (x ∷ xs) ys h = inr (Any-append_right xs ys h)

  pub Any-append_cases : (xs ys : List A) → Any (xs ++ ys) → Any xs ⊎ Any ys
  Any-append_cases [] ys h = inr h
  Any-append_cases (x ∷ xs) ys (inl p) = inl (inl p)
  Any-append_cases (x ∷ xs) ys (inr h) = elim (Any-append_cases xs ys h) [
    | inl l ↦ inl (inr l)
    | inr r ↦ inr r
  ]

module _ {A : Type 0} where
  -- Membership as a position: untruncated, so that it can be matched.
  abbrev pub In : A → List A → Type 0
  In a = Any (λ x. a ≡ x)

  -- No element stands twice.
  abbrev pub Distinct : List A → Type 0
  Distinct [] = Unit
  Distinct (x ∷ xs) = (¬ In x xs) × Distinct xs

  pub In-All : (P : A → Type 0) (xs : List A) → All P xs → (a : A) → In a xs → P a
  In-All P [] h a i = absurd i
  In-All P (x ∷ xs) (p, h) a (inl e) = subst P (sym e) p
  In-All P (x ∷ xs) (p, h) a (inr i) = In-All P xs h a i

  pub Distinct-append :
      (xs ys : List A)
      → Distinct xs
      → Distinct ys
      → ((a : A) → In a xs → ¬ In a ys)
      → Distinct (xs ++ ys)
  Distinct-append [] ys _ dy apart = dy
  Distinct-append (x ∷ xs) ys (fresh, dx) dy apart = (
    λ i. elim (Any-append_cases (λ y. x ≡ y) xs ys i) [
      | inl l ↦ fresh l
      | inr r ↦ apart x (inl refl) r
    ],
    Distinct-append xs ys dx dy (λ a l. apart a (inr l)),
  )

module _ {A B : Type 0} where
  pub In-map : (f : A → B) (xs : List A) (b : B) → In b (map f xs) → (a : A) × In a xs × (b ≡ f a)
  In-map f [] b i = absurd i
  In-map f (x ∷ xs) b (inl e) = (x, inl refl, e)
  In-map f (x ∷ xs) b (inr i) = let (a, at, e) = In-map f xs b i in (a, inr at, e)

  pub In-map_of : (f : A → B) (xs : List A) (a : A) → In a xs → In (f a) (map f xs)
  In-map_of f [] a i = absurd i
  In-map_of f (x ∷ xs) a (inl e) = inl (ap f e)
  In-map_of f (x ∷ xs) a (inr i) = inr (In-map_of f xs a i)

  -- `f` has to tell apart the elements that meet `P` only.
  pub map-Distinct :
      (P : A → Type 0) (f : A → B) (xs : List A)
      → ((a b : A) → P a → P b → f a ≡ f b → a ≡ b)
      → All P xs
      → Distinct xs
      → Distinct (map f xs)
  map-Distinct P f [] inj h d = tt
  map-Distinct P f (x ∷ xs) inj (px, h) (fresh, d) = (
    λ i.
        let (a, at, e) = In-map f xs (f x) i in
        fresh (subst (λ y. In y xs) (sym (inj x a px (In-All P xs h a at) e)) at),
    map-Distinct P f xs inj h d,
  )
