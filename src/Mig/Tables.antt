-- ===== src/Mig/Tables.antt =====
-- internal/mig/profiles.go: the profile tables that the program ships, and how a product finds one.
pub mod Shapes
pub mod Lookup
use ghostgpu.Base.{
  Bool, true, false, ◌&&◌, Option, none, some, List, [], ◌∷◌, map, keep, Text, codes, text_eq, ◌==◌,
  if◌then◌else◌,
}
use ghostgpu.Base.Dict.{Dict, get_or}
use ghostgpu.Base.Int.{ℤ, pos}
use ghostgpu.Text.{contains, to_lower, is_alphanumeric}
use ghostgpu.Platform.{Platform, binary_si}
use ghostgpu.Mig.{Profile, Budget, Table}

abbrev pub table_a100_40 : Text
table_a100_40 = codes "a100-40gb"

abbrev pub table_a100_80 : Text
table_a100_80 = codes "a100-80gb"

abbrev pub table_h100_80 : Text
table_h100_80 = codes "h100-80gb"

abbrev pub family_a100 : Text
family_a100 = codes "a100"

abbrev pub family_h100 : Text
family_h100 = codes "h100"

abbrev pub capacity_40 : Text
capacity_40 = codes "40gb"

abbrev pub capacity_80 : Text
capacity_80 = codes "80gb"

module _ (P : Platform) where
  abbrev pub profile : Text → Text → ℤ → Profile P
  profile name memory slices = record { name = name; memory = P.must_parse memory; slices = slices }

  abbrev pub a100_40 : Table P
  a100_40 = record {
    budget = record { memory = P.must_parse (codes "40Gi"); slices = pos 7 };
    profiles =
        profile (codes "1g.5gb") (codes "5Gi") (pos 1)
        ∷ profile (codes "2g.10gb") (codes "10Gi") (pos 2)
        ∷ profile (codes "3g.20gb") (codes "20Gi") (pos 3)
        ∷ profile (codes "4g.20gb") (codes "20Gi") (pos 4)
        ∷ profile (codes "7g.40gb") (codes "40Gi") (pos 7)
        ∷ [];
  }

  abbrev pub a100_80 : Table P
  a100_80 = record {
    budget = record { memory = P.must_parse (codes "80Gi"); slices = pos 7 };
    profiles =
        profile (codes "1g.10gb") (codes "10Gi") (pos 1)
        ∷ profile (codes "2g.20gb") (codes "20Gi") (pos 2)
        ∷ profile (codes "3g.40gb") (codes "40Gi") (pos 3)
        ∷ profile (codes "4g.40gb") (codes "40Gi") (pos 4)
        ∷ profile (codes "7g.80gb") (codes "80Gi") (pos 7)
        ∷ [];
  }

  abbrev pub h100_80 : Table P
  h100_80 = record {
    budget = record { memory = P.must_parse (codes "80Gi"); slices = pos 7 };
    profiles =
        profile (codes "1g.10gb") (codes "10Gi") (pos 1)
        ∷ profile (codes "1g.20gb") (codes "20Gi") (pos 1)
        ∷ profile (codes "2g.20gb") (codes "20Gi") (pos 2)
        ∷ profile (codes "3g.40gb") (codes "40Gi") (pos 3)
        ∷ profile (codes "4g.40gb") (codes "40Gi") (pos 4)
        ∷ profile (codes "7g.80gb") (codes "80Gi") (pos 7)
        ∷ [];
  }

  unfoldable pub built_in_tables : Dict Text (Table P)
  built_in_tables =
      (table_a100_40, a100_40) ∷ (table_a100_80, a100_80) ∷ (table_h100_80, h100_80) ∷ []

  -- The zero `Table`, which a missing key of the map gives.
  abbrev pub no_table : Table P
  no_table = record {
    budget = record { memory = P.new_quantity (pos 0) binary_si; slices = pos 0 };
    profiles = [];
  }

-- `productMatchers`, in the order in which they are tried.
unfoldable pub product_matchers : List (List Text × Text)
product_matchers =
    (family_a100 ∷ capacity_40 ∷ [], table_a100_40)
    ∷ (family_a100 ∷ capacity_80 ∷ [], table_a100_80)
    ∷ (family_a100 ∷ [], table_a100_80)
    ∷ (family_h100 ∷ [], table_h100_80)
    ∷ []

unfoldable pub normalize : Text → Text
unfolding to_lower
normalize product = keep is_alphanumeric (map to_lower product)

-- The inner loop: whether every needle stands in the normalized product.
abbrev pub matches : Text → List Text → Bool
matches normalized [] = true
matches normalized (needle ∷ needles) = contains needle normalized && matches normalized needles

-- The outer loop: the first matcher that matches.
unfoldable pub first_match : Text → List (List Text × Text) → Option Text
first_match normalized [] = none
first_match normalized ((needles, table) ∷ matchers) =
    let rest = first_match normalized matchers in
    if matches normalized needles then some table else rest

module _ (P : Platform) where
  unfoldable pub profiles_for : Text → Option (Table P)
  unfolding normalize first_match product_matchers built_in_tables
  profiles_for product =
      if normalize product == []
      then none
      else elim (first_match (normalize product) product_matchers) [
        | none ↦ none
        | some key ↦ some (get_or key (built_in_tables P) (no_table P))
      ]
