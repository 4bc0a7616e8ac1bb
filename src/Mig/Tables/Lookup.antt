-- ===== src/Mig/Tables/Lookup.antt =====
-- internal/mig/profiles.go: which table a product finds.
use ghostgpu.Base.{false, Option, none, some, [], ◌≡◌, refl, arith, Text, text_eq, if◌then◌else◌}
use ghostgpu.Base.Dict.{lookup, get_or}
use ghostgpu.Text.{contains}
use ghostgpu.Platform.{Platform}
use ghostgpu.Mig.{Table}
use ghostgpu.Mig.Tables.{
  profiles_for, normalize, built_in_tables, a100_40, a100_80, h100_80, no_table, family_a100,
  family_h100, capacity_40, table_a100_40, table_a100_80, table_h100_80,
}

module _ (P : Platform) where
  get_or-table_a100_40 : get_or table_a100_40 (built_in_tables P) (no_table P) ≡ a100_40 P
  unfolding lookup built_in_tables text_eq
  get_or-table_a100_40 = refl

  get_or-table_a100_80 : get_or table_a100_80 (built_in_tables P) (no_table P) ≡ a100_80 P
  unfolding lookup built_in_tables text_eq
  get_or-table_a100_80 = refl

  get_or-table_h100_80 : get_or table_h100_80 (built_in_tables P) (no_table P) ≡ h100_80 P
  unfolding lookup built_in_tables text_eq
  get_or-table_h100_80 = refl

  -- The table by the parts of the product's name. A family decides whether there is a table, and
  -- "40gb" separates the two cards of the A100 family.
  abbrev pub table_of : Text → Option (Table P)
  table_of name =
      if contains family_a100 name
      then (if contains capacity_40 name then some (a100_40 P) else some (a100_80 P))
      else (if contains family_h100 name then some (h100_80 P) else none)

  contains-nil : (contains family_a100 [] ≡ false) × (contains family_h100 [] ≡ false)
  unfolding contains
  contains-nil = (refl, refl)

  -- The table of a product is decided by its normalized name: one that holds a100 has a table, of
  -- 40 GB if it holds 40gb and else of 80 GB; else one that holds h100 has the H100's; no other has
  -- any.
  pub profiles_for-eq_table_of :
      (product : Text) → profiles_for P product ≡ table_of (normalize product)
  unfolding profiles_for
  profiles_for-eq_table_of product =
      ground (arith, get_or-table_a100_40, get_or-table_a100_80, get_or-table_h100_80, contains-nil)
