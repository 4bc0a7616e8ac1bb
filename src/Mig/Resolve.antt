-- ===== src/Mig/Resolve.antt =====
-- internal/mig/resolve.go: the MIG table that a model describes. An error is its constructor with the
-- values that the message prints.
pub mod Laws
pub mod BuiltIn
use Prim.Native.Nat.{Ordering}
use ghostgpu.Base.{
  ℕ, Bool, true, false, Option, none, some, List, [], ◌∷◌, map, Result, ok, err, Text, text_eq,
  ◌==◌, ltb, if◌then◌else◌,
}
use ghostgpu.Base.Dict.{Dict, lookup, insert}
use ghostgpu.Base.Int.{ℤ, pos, ltb_ℤ}
use ghostgpu.Platform.{Platform}
use ghostgpu.Api.{GpuModel, MigProfileSpec, MigBudgetSpec}
use ghostgpu.Mig.{Profile, Budget, Table}
use ghostgpu.Mig.Tables.{profiles_for}

abbrev pub default_slices : ℤ
default_slices = pos 7

module _ (P : Platform) where
  pub data ResolveError : Type 0 where
    no_profiles : (model product : Text) → ResolveError
    duplicate_profile : (model profile : Text) → ResolveError
    slices_exceed : (model profile : Text) (slices budget : ℤ) → ResolveError
    memory_exceeds : (model profile : Text) (memory budget : P.Quantity) → ResolveError

  -- `a.Cmp(b) > 0`
  abbrev pub exceeds : P.Quantity → P.Quantity → Bool
  exceeds a b = elim (P.cmp a b) [ Ordering.gt ↦ true | _ ↦ false ]

  abbrev pub declared_profile : MigProfileSpec P → Profile P
  declared_profile p = record { name = p.name; memory = p.memory; slices = p.slices }

  -- The `switch` of `baseTable`.
  unfoldable pub base_profiles : List (MigProfileSpec P) → Option (Table P) → List (Profile P)
  base_profiles (p ∷ ps) built_in = map declared_profile (p ∷ ps)
  base_profiles [] (some t) = t.profiles
  base_profiles [] none = []

  -- The slices of the budget before the model's own.
  abbrev pub base_slices : Option (Table P) → ℤ
  base_slices (some t) = t.budget.slices
  base_slices none = default_slices

  -- `MIGBudget` overrides what it sets.
  unfoldable pub override_budget : Option (MigBudgetSpec P) → Budget P → Budget P
  override_budget none b = b
  override_budget (some o) b = record {
    memory = elim o.memory [ none ↦ b.memory | some m ↦ m ];
    slices = if ltb_ℤ (pos 0) o.slices then o.slices else b.slices;
  }

  unfoldable pub base_table : GpuModel P → Table P
  unfolding base_profiles override_budget
  base_table model =
      let built_in = profiles_for P model.spec.product_name in
      record {
        budget =
            override_budget model.spec.mig_budget
              (record { memory = model.spec.memory; slices = base_slices built_in });
        profiles = base_profiles model.spec.mig_profiles built_in;
      }

  -- The loop of `validate`; `none` is the nil error.
  unfoldable pub validate :
      Text → Budget P → Dict Text Bool → List (Profile P) → Option ResolveError
  validate model budget seen [] = none
  validate model budget seen (p ∷ ps) =
      let rest = validate model budget (insert p.name true seen) ps in
      elim (lookup p.name seen) [
        | some _ ↦ some (duplicate_profile model p.name)
        | none ↦
            if ltb_ℤ budget.slices p.slices
            then some (slices_exceed model p.name p.slices budget.slices)
            else if exceeds p.memory budget.memory
            then some (memory_exceeds model p.name p.memory budget.memory)
            else rest
      ]

  -- `if err := validate(...)`
  abbrev pub checked : Option ResolveError → Table P → Result ResolveError (Table P)
  checked none table = ok table
  checked (some e) table = err e

  -- The table, or the error that no profile is known.
  abbrev pub finish : GpuModel P → Table P → List (Profile P) → Result ResolveError (Table P)
  finish model table [] = err (no_profiles model.name model.spec.product_name)
  finish model table (p ∷ ps) = checked (validate model.name table.budget [] (p ∷ ps)) table

  unfoldable pub resolve : GpuModel P → Result ResolveError (Table P)
  unfolding base_table validate
  resolve model = let table = base_table model in finish model table table.profiles
