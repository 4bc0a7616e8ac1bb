-- ===== src/Base/Sets.antt =====
-- Membership by a Boolean test, and the pigeonhole principle on lists.
use ghostgpu.Base.Lists.{length, All, In, Distinct}
use ghostgpu.Base.Equality.{Eq, ◌==◌}
use Prim.Native.Nat.{suc, ◌≤◌}
use mathlib.Core.Path.{◌≡◌, refl, sym, ◌∙◌}
use mathlib.Core.Logic.{inl, inr}
use mathlib.Core.Bool.{Bool, true, false, ◌||◌}
use mathlib.Core.List.{List, [], ◌∷◌}
use native.Mathlib.Omega.{arith}

module _ {A : Type 0} ⦃e : Eq A⦄ where
  unfoldable pub is_in : A → List A → Bool
  is_in a [] = false
  is_in a (x ∷ xs) = a == x || is_in a xs

  pub is_in-In : (a : A) (xs : List A) → is_in a xs ≡ true → In a xs
  unfolding is_in
  is_in-In a [] h = cc
  is_in-In a (x ∷ xs) h = elim (e.dec a x) [
    | yes p ↦ inl p
    | no n ↦ inr (is_in-In a xs (ground arith))
  ]

  pub In-is_in : (a : A) (xs : List A) → In a xs → is_in a xs ≡ true
  unfolding is_in
  In-is_in a [] i = absurd i
  In-is_in a (x ∷ xs) (inl p) = ground arith
  In-is_in a (x ∷ xs) (inr i) = ground (arith, In-is_in a xs i)

  pub not-is_in : (a : A) (xs : List A) → is_in a xs ≡ false → ¬ In a xs
  not-is_in a xs h i = let there : is_in a xs ≡ true = In-is_in a xs i in cc

  pub is_in-eq-false : (a : A) (xs : List A) → ¬ In a xs → is_in a xs ≡ false
  unfolding is_in
  is_in-eq-false a [] n = refl
  is_in-eq-false a (x ∷ xs) n =
      let rest : is_in a xs ≡ false = is_in-eq-false a xs (λ i. n (inr i)) in
      let apart : ¬ (a ≡ x) = λ p. n (inl p) in ground arith

module _ {A : Type 0} where
  -- The list without the element at a position.
  remove : (a : A) (xs : List A) → In a xs → List A
  remove a [] i = []
  remove a (x ∷ xs) (inl p) = xs
  remove a (x ∷ xs) (inr i) = x ∷ remove a xs i

  length-remove : (a : A) (xs : List A) (i : In a xs) → length xs ≡ suc (length (remove a xs i))
  unfolding remove
  length-remove a [] i = absurd i
  length-remove a (x ∷ xs) (inl p) = refl
  length-remove a (x ∷ xs) (inr i) = omega (arith, length-remove a xs i)

  In-remove : (a b : A) (xs : List A) (i : In a xs) → In b xs → ¬ (b ≡ a) → In b (remove a xs i)
  unfolding remove
  In-remove a b [] i j apart = absurd i
  In-remove a b (x ∷ xs) (inl p) (inl q) apart = absurd (apart (q ∙ sym p))
  In-remove a b (x ∷ xs) (inl p) (inr j) apart = j
  In-remove a b (x ∷ xs) (inr i) (inl q) apart = inl q
  In-remove a b (x ∷ xs) (inr i) (inr j) apart = inr (In-remove a b xs i j apart)

  All-In-remove :
      (a : A) (ys : List A) (i : In a ys) (xs : List A)
      → ¬ In a xs
      → All (λ x. In x ys) xs
      → All (λ x. In x (remove a ys i)) xs
  All-In-remove a ys i [] fresh h = tt
  All-In-remove a ys i (x ∷ xs) fresh (at, h) = (
    In-remove a x ys i at (λ p. fresh (inl (sym p))),
    All-In-remove a ys i xs (λ j. fresh (inr j)) h,
  )

  -- Elements that differ and all stand in `ys` are no more than `ys` has.
  pub pigeonhole : (xs ys : List A) → Distinct xs → All (λ x. In x ys) xs → length xs ≤ length ys
  pigeonhole [] ys d h = omega arith
  pigeonhole (x ∷ xs) ys (fresh, d) (at, h) = omega (
    arith,
    length-remove x ys at,
    pigeonhole xs (remove x ys at) d (All-In-remove x ys at xs fresh h),
  )
