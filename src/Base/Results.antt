-- ===== src/Base/Results.antt =====
-- Fallible Go functions: `(value, error)` as a sum.
use mathlib.Core.Path.{◌≡◌, refl}
use mathlib.Core.Logic.{◌⊎◌, inl, inr}

pub data Result (E : Type 0) (A : Type 0) : Type 0 where
  ok : A → Result E A
  err : E → Result E A

infixl 5 ◌>>=◌ ◌>>◌
abbrev pub ◌>>=◌ : {E A B : Type 0} → Result E A → (A → Result E B) → Result E B
ok a >>= f = f a
err e >>= f = err e

abbrev pub ◌>>◌ : {E A B : Type 0} → Result E A → Result E B → Result E B
m >> k = m >>= λ _. k

pub Result-cases :
    {E A : Type 0} (r : Result E A) → ((a : A) × (r ≡ ok a)) ⊎ ((e : E) × (r ≡ err e))
Result-cases (ok a) = inl (a, refl)
Result-cases (err e) = inr (e, refl)

-- A chain ends well only if its first step does, and the rest on that step's value.
pub >>=-eq-ok :
    {E A B : Type 0} (step : Result E A) (next : A → Result E B) {end : B}
    → (step >>= next) ≡ ok end
    → (mid : A) × (step ≡ ok mid) × (next mid ≡ ok end)
>>=-eq-ok (err why) next e = cc
>>=-eq-ok (ok mid) next e = (mid, refl, e)

pub >>-eq-ok :
    {E A B : Type 0} (step : Result E A) (rest : Result E B) {end : B}
    → (step >> rest) ≡ ok end
    → (mid : A) × (step ≡ ok mid) × (rest ≡ ok end)
>>-eq-ok step rest e = >>=-eq-ok step (λ _. rest) e
