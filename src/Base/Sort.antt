-- ===== src/Base/Sort.antt =====
-- Go's `slices.Sort` and `slices.SortFunc`. The order of elements that compare equal is not specified
-- there; here it is the order of an insertion from the front.
use mathlib.Core.Path.{◌≡◌, refl, ◌∙◌}
use mathlib.Core.Logic.{inl, inr}
use mathlib.Core.Bool.{Bool, true, false}
use mathlib.Core.List.{List, [], ◌∷◌, Perm}
use mathlib.Core.List.Perm
use native.Mathlib.Omega.{arith}
use ghostgpu.Base.Tests.{if◌then◌else◌, Bool-cases}
use ghostgpu.Base.Lists.{length, keep, All}

module _ {A : Type 0} (le : A → A → Bool) where
  unfoldable pub insert_sorted : A → List A → List A
  insert_sorted x [] = x ∷ []
  insert_sorted x (y ∷ ys) =
      let rest = insert_sorted x ys in if le x y then x ∷ y ∷ ys else y ∷ rest

  unfoldable pub sort_by : List A → List A
  unfolding insert_sorted
  sort_by [] = []
  sort_by (x ∷ xs) = insert_sorted x (sort_by xs)

  -- Each element is at most the next.
  abbrev pub IsSorted : List A → Type 0
  IsSorted [] = Unit
  IsSorted (x ∷ []) = Unit
  IsSorted (x ∷ y ∷ ys) = (le x y ≡ true) × IsSorted (y ∷ ys)

  -- `y` may stand in front of the list.
  Leads : A → List A → Type 0
  Leads y [] = Unit
  Leads y (x ∷ xs) = le y x ≡ true

  IsSorted-cons : (y : A) (xs : List A) → Leads y xs → IsSorted xs → IsSorted (y ∷ xs)
  unfolding Leads
  IsSorted-cons y [] l s = tt
  IsSorted-cons y (x ∷ xs) l s = (l, s)

  module _ (total : (a b : A) → le a b ≡ false → le b a ≡ true) where
    insert_sorted-Leads :
        (x y : A) (ys : List A) → le y x ≡ true → IsSorted (y ∷ ys) → Leads y (insert_sorted x ys)
    unfolding insert_sorted Leads
    insert_sorted-Leads x y [] h s = h
    insert_sorted-Leads x y (z ∷ zs) h s = elim (Bool-cases (le x z)) [
      | inl before ↦ rw before h
      | inr after ↦ rw after (s.0)
    ]

    insert_sorted-IsSorted : (x : A) (ys : List A) → IsSorted ys → IsSorted (insert_sorted x ys)
    unfolding insert_sorted
    insert_sorted-IsSorted x [] s = tt
    insert_sorted-IsSorted x (y ∷ []) s = elim (Bool-cases (le x y)) [
      | inl before ↦ rw before (before, tt)
      | inr after ↦ rw after (total x y after, tt)
    ]
    insert_sorted-IsSorted x (y ∷ z ∷ zs) s = elim (Bool-cases (le x y)) [
      | inl before ↦ rw before (before, s)
      | inr after ↦ rw after (
          IsSorted-cons y (insert_sorted x (z ∷ zs))
            (insert_sorted-Leads x y (z ∷ zs) (total x y after) s)
            (insert_sorted-IsSorted x (z ∷ zs) s.1))
    ]

    pub sort_by-IsSorted : (xs : List A) → IsSorted (sort_by xs)
    unfolding sort_by
    sort_by-IsSorted [] = tt
    sort_by-IsSorted (x ∷ xs) = insert_sorted-IsSorted x (sort_by xs) (sort_by-IsSorted xs)

  insert_sorted-perm : (x : A) (ys : List A) → Perm (insert_sorted x ys) (x ∷ ys)
  unfolding insert_sorted
  insert_sorted-perm x [] = Perm.refl (x ∷ [])
  insert_sorted-perm x (y ∷ ys) = elim (Bool-cases (le x y)) [
    | inl before ↦ rw before (Perm.refl (x ∷ y ∷ ys))
    | inr after ↦ rw after (Perm.trans (Perm.cons y (insert_sorted-perm x ys)) (Perm.swap x y ys))
  ]

  -- Sorting only rearranges.
  pub sort_by-perm : (xs : List A) → Perm (sort_by xs) xs
  unfolding sort_by
  sort_by-perm [] = Perm.refl []
  sort_by-perm (x ∷ xs) =
      Perm.trans (insert_sorted-perm x (sort_by xs)) (Perm.cons x (sort_by-perm xs))

  -- How many elements pass a test does not depend on their order.
  insert_sorted-count :
      (p : A → Bool) (x : A) (ys : List A)
      → length (keep p (insert_sorted x ys)) ≡ length (keep p (x ∷ ys))
  unfolding insert_sorted
  insert_sorted-count p x [] = refl
  insert_sorted-count p x (y ∷ ys) = ground (arith, insert_sorted-count p x ys)

  pub sort_by-count :
      (p : A → Bool) (xs : List A) → length (keep p (sort_by xs)) ≡ length (keep p xs)
  unfolding sort_by
  sort_by-count p [] = refl
  sort_by-count p (x ∷ xs) =
      insert_sorted-count p x (sort_by xs) ∙ ground (arith, sort_by-count p xs)

module _ {A : Type 0} (P : A → Type 0) (le : A → A → Bool) where
  insert_sorted-All : (x : A) (ys : List A) → P x → All P ys → All P (insert_sorted le x ys)
  unfolding insert_sorted
  insert_sorted-All x [] p h = (p, tt)
  insert_sorted-All x (y ∷ ys) p (q, h) = elim (Bool-cases (le x y)) [
    | inl before ↦ rw before (p, (q, h))
    | inr after ↦ rw after (q, insert_sorted-All x ys p h)
  ]

  pub sort_by-All : (xs : List A) → All P xs → All P (sort_by le xs)
  unfolding sort_by
  sort_by-All [] h = tt
  sort_by-All (x ∷ xs) (p, h) = insert_sorted-All x (sort_by le xs) p (sort_by-All xs h)
