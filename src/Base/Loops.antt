-- ===== src/Base/Loops.antt =====
-- Loops over a range of indices that append a list in each round.
use Prim.Native.Nat.{ℕ, zero, suc, ◌+◌, ◌*◌, ◌≤◌, ◌<◌}
use mathlib.Core.Path.{◌≡◌, refl, sym, subst}
use mathlib.Core.Logic.{◌⊎◌, inl, inr}
use mathlib.Core.List.{List, [], ◌∷◌, ◌++◌, map, map-append, append_assoc}
use native.Mathlib.Omega.{arith}
use ghostgpu.Base.Lists.{
  length, length-append, flat_map, count_from, All, All-append, In, Any-append_left,
  Any-append_right, Any-append_cases, Distinct, Distinct-append,
}

module _ {A B C : Type 0} where
  pub map-flat_map :
      (f : B → C) (g : A → List B) (xs : List A)
      → map f (flat_map g xs) ≡ flat_map (λ x. map f (g x)) xs
  map-flat_map f g [] = refl
  map-flat_map f g (x ∷ xs) = rw (map-append f (g x) (flat_map g xs), map-flat_map f g xs)

module _ {A : Type 0} where
  -- Every round appends `k` elements.
  pub length-flat_map :
      (g : ℕ → List A) (k s n : ℕ)
      → ((i : ℕ) → length (g i) ≡ k)
      → length (flat_map g (count_from s n)) ≡ n * k
  length-flat_map g k s zero h = omega arith
  length-flat_map g k s (suc n) h = omega (
    arith,
    length-append (g s) (flat_map g (count_from (suc s) n)),
    h s,
    length-flat_map g k (suc s) n h,
  )

  -- What stands in the result stands in the list of some round.
  pub In-flat_map :
      (g : ℕ → List A) (s n : ℕ) (a : A)
      → In a (flat_map g (count_from s n))
      → (i : ℕ) × (s ≤ i) × (i < s + n) × In a (g i)
  In-flat_map g s zero a h = absurd h
  In-flat_map g s (suc n) a h =
      elim (Any-append_cases (λ x. a ≡ x) (g s) (flat_map g (count_from (suc s) n)) h) [
        | inl l ↦ (s, omega arith, omega arith, l)
        | inr r ↦
            let (i, low, high, at) = In-flat_map g (suc s) n a r in
            (i, omega arith, omega arith, at)
      ]

  pub In-flat_map_of :
      (g : ℕ → List A) (s n i : ℕ) (a : A)
      → s ≤ i
      → i < s + n
      → In a (g i)
      → In a (flat_map g (count_from s n))
  In-flat_map_of g s zero i a low high at = absurd (omega arith)
  In-flat_map_of g s (suc n) i a low high at = elim (split s i low) [
    | inl e ↦
        Any-append_left (λ x. a ≡ x) (g s) (flat_map g (count_from (suc s) n))
          (subst (λ j. In a (g j)) (sym e) at)
    | inr later ↦
        Any-append_right (λ x. a ≡ x) (g s) (flat_map g (count_from (suc s) n))
          (In-flat_map_of g (suc s) n i a later (omega arith) at)
  ]
    where
      split : (s i : ℕ) → s ≤ i → (s ≡ i) ⊎ (suc s ≤ i)
      split s i h = grind arith

  -- No element stands twice if none stands twice in a round, and none in two rounds.
  pub flat_map-Distinct :
      (g : ℕ → List A) (s n : ℕ)
      → ((i : ℕ) → Distinct (g i))
      → ((i j : ℕ) (a : A) → In a (g i) → In a (g j) → i ≡ j)
      → Distinct (flat_map g (count_from s n))
  flat_map-Distinct g s zero each apart = tt
  flat_map-Distinct g s (suc n) each apart =
      Distinct-append (g s) (flat_map g (count_from (suc s) n)) (each s)
        (flat_map-Distinct g (suc s) n each apart)
        (λ a l r.
          let (i, low, high, at) = In-flat_map g (suc s) n a r in
          let e : s ≡ i = apart s i a l at in absurd (omega arith))

module _ {A B : Type 0} (P : B → Type 0) where
  pub flat_map-All :
      (g : A → List B) (xs : List A) → ((x : A) → All P (g x)) → All P (flat_map g xs)
  flat_map-All g [] h = tt
  flat_map-All g (x ∷ xs) h = All-append P (g x) (flat_map g xs) (h x) (flat_map-All g xs h)

  pub map-All : (f : A → B) (xs : List A) → ((x : A) → P (f x)) → All P (map f xs)
  map-All f [] h = tt
  map-All f (x ∷ xs) h = (h x, map-All f xs h)

module _ {A B : Type 0} where
  pub flat_map-append :
      (g : A → List B) (xs ys : List A) → flat_map g (xs ++ ys) ≡ flat_map g xs ++ flat_map g ys
  flat_map-append g [] ys = refl
  flat_map-append g (x ∷ xs) ys =
      rw (flat_map-append g xs ys) (sym (append_assoc (g x) (flat_map g xs) (flat_map g ys)))

  pub flat_map-map :
      {C : Type 0} (g : B → List C) (f : A → B) (xs : List A)
      → flat_map g (map f xs) ≡ flat_map (λ x. g (f x)) xs
  flat_map-map g f [] = refl
  flat_map-map g f (x ∷ xs) = rw (flat_map-map g f xs)

  -- Rounds that append nothing.
  pub flat_map-nil : (g : A → List B) (xs : List A) → ((x : A) → g x ≡ []) → flat_map g xs ≡ []
  flat_map-nil g [] h = refl
  flat_map-nil g (x ∷ xs) h = rw (h x, flat_map-nil g xs h)

  pub flat_map_congr :
      (f g : A → List B) (xs : List A) → ((x : A) → f x ≡ g x) → flat_map f xs ≡ flat_map g xs
  flat_map_congr f g [] h = refl
  flat_map_congr f g (x ∷ xs) h = rw (h x, flat_map_congr f g xs h)
