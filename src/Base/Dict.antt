-- ===== src/Base/Dict.antt =====
-- Go maps as association lists in insertion order. Proofs elsewhere go by the laws.
use mathlib.Core.Path.{◌≡◌, refl}
use mathlib.Core.Option.{Option, none, some}
use mathlib.Core.List.{List, [], ◌∷◌, ◌++◌}
use native.Mathlib.Omega.{arith}
use ghostgpu.Base.Tests.{if◌then◌else◌}
use ghostgpu.Base.Equality.{Eq, ◌==◌}

abbrev pub Dict {ℓ κ} : Type ℓ → Type κ → Type (ℓ ⊔ κ)
Dict K V = List (K × V)

abbrev pub keys {ℓ κ} : {K : Type ℓ} {V : Type κ} → Dict K V → List K
keys [] = []
keys ((k, v) ∷ d) = k ∷ keys d

module _ {ℓ κ} {K : Type ℓ} {V : Type κ} ⦃e : Eq K⦄ where
  -- `v, ok := d[k]`
  unfoldable pub lookup : K → Dict K V → Option V
  lookup k [] = none
  lookup k ((j, v) ∷ d) = if k == j then some v else lookup k d

  -- `d[k]`, with the zero value of the type
  abbrev pub get_or : K → Dict K V → V → V
  get_or k d z = elim (lookup k d) [ none ↦ z | some v ↦ v ]

  -- `d[k] = v`
  unfoldable pub insert : K → V → Dict K V → Dict K V
  insert k v [] = (k, v) ∷ []
  insert k v ((j, w) ∷ d) = if k == j then (k, v) ∷ d else (j, w) ∷ insert k v d

  -- `delete(d, k)`
  unfoldable pub erase : K → Dict K V → Dict K V
  erase k [] = []
  erase k ((j, w) ∷ d) = let rest = erase k d in if k == j then rest else (j, w) ∷ rest

  -- `maps.Copy(d, more)`
  unfoldable pub copy : Dict K V → Dict K V → Dict K V
  unfolding insert
  copy d [] = d
  copy d ((k, v) ∷ more) = copy (insert k v d) more

  pub lookup-nil : (k : K) → lookup k [] ≡ none
  unfolding lookup
  lookup-nil k = refl

  pub lookup-cons :
      (j k : K) (v : V) (d : Dict K V)
      → lookup j ((k, v) ∷ d) ≡ (if j == k then some v else lookup j d)
  unfolding lookup
  lookup-cons j k v d = refl

  pub lookup-insert :
      (j k : K) (v : V) (d : Dict K V)
      → lookup j (insert k v d) ≡ (if j == k then some v else lookup j d)
  unfolding insert lookup
  lookup-insert j k v [] = refl
  lookup-insert j k v (_ ∷ d) = ground (arith, lookup-insert j k v d)

  pub get_or-insert :
      (j k : K) (v z : V) (d : Dict K V)
      → get_or j (insert k v d) z ≡ (if j == k then v else get_or j d z)
  get_or-insert j k v z d = ground (arith, lookup-insert j k v d)

  pub lookup-erase :
      (j k : K) (d : Dict K V) → lookup j (erase k d) ≡ (if j == k then none else lookup j d)
  unfolding erase lookup
  lookup-erase j k [] = ground arith
  lookup-erase j k (_ ∷ d) = ground (arith, lookup-erase j k d)

-- The first value that is there.
abbrev pub prefer {κ} : {V : Type κ} → Option V → Option V → Option V
prefer (some v) o = some v
prefer none o = o

-- What a lookup finds after a copy, when no key of `more` stands twice in it.
module _ {ℓ κ} {K : Type ℓ} {V : Type κ} ⦃e : Eq K⦄ where
  abbrev pub DistinctKeys : Dict K V → Type κ
  DistinctKeys [] = Unit
  DistinctKeys ((k, _) ∷ d) = (lookup k d ≡ none) × DistinctKeys d

  pub insert-DistinctKeys :
      (k : K) (v : V) (d : Dict K V) → DistinctKeys d → DistinctKeys (insert k v d)
  unfolding insert
  insert-DistinctKeys k v [] u = unfold lookup in (refl, tt)
  insert-DistinctKeys k v ((j, w) ∷ d) (fresh, u) =
      ground (arith, insert-DistinctKeys k v d u, lookup-insert j k v d)

  pub copy-append : (d xs ys : Dict K V) → copy d (xs ++ ys) ≡ copy (copy d xs) ys
  unfolding copy
  copy-append d [] ys = refl
  copy-append d ((k, v) ∷ xs) ys = copy-append (insert k v d) xs ys

  pub lookup-copy :
      (j : K) (d more : Dict K V)
      → DistinctKeys more
      → lookup j (copy d more) ≡ prefer (lookup j more) (lookup j d)
  unfolding copy
  lookup-copy j d [] _ = unfold lookup in refl
  lookup-copy j d ((k, v) ∷ more) (fresh, u) =
      rw (lookup-copy j (insert k v d) more u, lookup-cons, lookup-insert) (ground arith)
