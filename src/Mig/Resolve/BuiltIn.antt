-- ===== src/Mig/Resolve/BuiltIn.antt =====
-- internal/mig/profiles.go in the eyes of resolve.go: the built-in tables are ones that `Resolve`
-- accepts, and some profile of each takes the memory of a whole card.
use ghostgpu.Base.{
  Bool, true, false, not, ◌&&◌, Option, none, some, List, [], ◌∷◌, ◌≡◌, ◌≢◌, refl, sym, ◌∙◌, inl,
  inr, arith, if◌then◌else◌, Text, text_eq, All-imp, Any, Distinct, Eq, is_in, not-is_in,
}
use mathlib.Core.Path.{subst}
use ghostgpu.Platform.{Platform, IsLawful}
use ghostgpu.Mig.{Profile, Table}
use ghostgpu.Mig.Expand.Names.{profile_names}
use ghostgpu.Mig.Tables.{
  profiles_for, normalize, a100_40, a100_80, h100_80, family_a100, family_h100, capacity_40,
}
use ghostgpu.Mig.Tables.Lookup.{profiles_for-eq_table_of}
use ghostgpu.Mig.Tables.Shapes.{profiles_for-AgreesWithNames}
use ghostgpu.Mig.Resolve.Laws.{IsUsable}
use ghostgpu.Text.{contains}

module _ {A : Type 0} ⦃e : Eq A⦄ where
  -- Whether no element stands twice.
  distinct : List A → Bool
  distinct [] = true
  distinct (x ∷ xs) = not (is_in x xs) && distinct xs

  distinct-Distinct : (xs : List A) → distinct xs ≡ true → Distinct xs
  unfolding distinct
  distinct-Distinct [] h = tt
  distinct-Distinct (x ∷ xs) h =
      (not-is_in x xs (ground arith), distinct-Distinct xs (ground arith))

module _ (P : Platform) where
  pub data IsBuiltIn (t : Table P) : Type 0 where
    of_a100_40 : t ≡ a100_40 P → IsBuiltIn t
    of_a100_80 : t ≡ a100_80 P → IsBuiltIn t
    of_h100_80 : t ≡ h100_80 P → IsBuiltIn t

  some_inj : (t u : Table P) → ◌≡◌ {A = Option (Table P)} (some t) (some u) → u ≡ t
  some_inj t u e = cc

  abbrev OnSome : (Table P → Type 0) → Option (Table P) → Type 0
  OnSome R none = Unit
  OnSome R (some t) = R t

  table_of-IsBuiltIn :
      (a c h : Bool)
      → OnSome IsBuiltIn (
          if a
          then (if c then some (a100_40 P) else some (a100_80 P))
          else (if h then some (h100_80 P) else none))
  table_of-IsBuiltIn true true h = of_a100_40 refl
  table_of-IsBuiltIn true false h = of_a100_80 refl
  table_of-IsBuiltIn false c true = of_h100_80 refl
  table_of-IsBuiltIn false c false = tt

  profiles_for-IsBuiltIn :
      (product : Text) (t : Table P) → profiles_for P product ≡ some t → IsBuiltIn t
  profiles_for-IsBuiltIn product t e =
      subst (OnSome IsBuiltIn) (sym (profiles_for-eq_table_of P product) ∙ e) (
        table_of-IsBuiltIn (contains family_a100 (normalize product))
          (contains capacity_40 (normalize product)) (contains family_h100 (normalize product)))

  HasNames : Table P → Type 0
  HasNames t = (t.profiles ≢ []) × Distinct (profile_names P t)

  IsBuiltIn-HasNames : (t : Table P) → IsBuiltIn t → HasNames t
  unfolding HasNames distinct is_in text_eq
  IsBuiltIn-HasNames t (of_a100_40 e) =
      subst HasNames (sym e) (λ p. cc, distinct-Distinct (profile_names P (a100_40 P)) refl)
  IsBuiltIn-HasNames t (of_a100_80 e) =
      subst HasNames (sym e) (λ p. cc, distinct-Distinct (profile_names P (a100_80 P)) refl)
  IsBuiltIn-HasNames t (of_h100_80 e) =
      subst HasNames (sym e) (λ p. cc, distinct-Distinct (profile_names P (h100_80 P)) refl)

  -- Some profile takes a whole card.
  abbrev pub HasWhole : Table P → Type 0
  HasWhole t = Any (λ (p : Profile P). p.memory ≡ t.budget.memory) t.profiles

  IsBuiltIn-HasWhole : (t : Table P) → IsBuiltIn t → HasWhole t
  IsBuiltIn-HasWhole t (of_a100_40 e) = subst HasWhole (sym e) (inr (inr (inr (inr (inl refl)))))
  IsBuiltIn-HasWhole t (of_a100_80 e) = subst HasWhole (sym e) (inr (inr (inr (inr (inl refl)))))
  IsBuiltIn-HasWhole t (of_h100_80 e) =
      subst HasWhole (sym e) (inr (inr (inr (inr (inr (inl refl))))))

  pub profiles_for-HasWhole :
      (product : Text) (t : Table P) → profiles_for P product ≡ some t → HasWhole t
  profiles_for-HasWhole product t e = IsBuiltIn-HasWhole t (profiles_for-IsBuiltIn product t e)

  module _ (L : IsLawful P) where
    -- Every built-in table is one that `Resolve` accepts.
    pub profiles_for-IsUsable :
        (product : Text) (t : Table P) → profiles_for P product ≡ some t → IsUsable P L t
    unfolding HasNames
    profiles_for-IsUsable product t e =
        let names = IsBuiltIn-HasNames t (profiles_for-IsBuiltIn product t e) in
        record {
          some_profile = names.0;
          distinct = names.1;
          fits = All-imp (λ p h. h.1) t.profiles (profiles_for-AgreesWithNames P L product t e);
        }
