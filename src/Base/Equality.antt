-- ===== src/Base/Equality.antt =====
-- Go's `==` on comparable types, through an interface, and texts as lists of code points.
use Prim.Native.Nat.{ℕ}
use Prim.Native.Char.{code}
use Prim.Native.String.{String}
use mathlib.Core.Path.{refl}
use mathlib.Core.Logic.{ite}
use mathlib.Core.Bool.{Bool, true, false}
use mathlib.Core.List.{List, [], ◌∷◌}
use native.Mathlib.Decide.{ℕ_discrete}

pub record Eq {ℓ} (A : Type ℓ) : Type ℓ where
  pub dec : Discrete A

infix 50 ◌==◌
abbrev pub ◌==◌ {ℓ} : {A : Type ℓ} ⦃e : Eq A⦄ → A → A → Bool
◌==◌ ⦃e⦄ a b = ite (e.dec a b) true false

-- A Go string as its code points, which for ASCII are its bytes.
abbrev pub Text : Type 0
Text = List ℕ

-- The code points of a literal.
abbrev pub codes : String → Text
codes String.[] = []
codes (String.◌∷◌ c s) = code c ∷ codes s

unfoldable pub text_dec : Discrete Text
unfolding ℕ_discrete
text_dec [] [] = yes refl
text_dec [] (y ∷ ys) = no (λ e. cc)
text_dec (x ∷ xs) [] = no (λ e. cc)
text_dec (x ∷ xs) (y ∷ ys) = elim (ℕ_discrete x y) [
  | yes p ↦ elim (text_dec xs ys) [ yes q ↦ yes (cc) | no n ↦ no (λ e. n (cc)) ]
  | no n ↦ no (λ e. n (cc))
]

-- Shut in proofs, where a split on `s == t` yields the equation or its negation.
instance unfoldable pub text_eq : Eq Text
unfolding text_dec
text_eq = record { dec = text_dec }
