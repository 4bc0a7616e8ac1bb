-- ===== src/Platform.antt =====
-- What the program takes from code outside the repository: the Kubernetes type `resource.Quantity`
-- (k8s.io/apimachinery/pkg/api/resource), label selectors, and the hash function SHA-256. A record
-- of operations, and the documented laws that some theorems assume of them.
pub mod Memory
use Prim.Native.Nat.{compare, Ordering}
use ghostgpu.Base.{ℕ, ◌+◌, ◌*◌, ◌^◌, Option, ◌++◌, ◌≡◌, Bool, Text, codes}
use ghostgpu.Base.Dict.{Dict}
use ghostgpu.Base.Int.{ℤ, pos, pos_part, neg_part, ◌+ℤ◌, ◌*ℤ◌, IsInt64}
use ghostgpu.Text.{decimal}

-- How `Quantity.String` prints.
pub data Format : Type 0 where
  binary_si decimal_si : Format

pub record Platform : Type 1 where
  pub Quantity : Type 0
  -- `resource.Quantity{}`
  pub zero_quantity : Quantity
  -- `a.Cmp(b)`
  pub cmp : Quantity → Quantity → Ordering
  -- `a.Add(b)`
  pub add : Quantity → Quantity → Quantity
  -- `q.Value()`, an `int64`
  pub quantity_value : Quantity → ℤ
  -- `*resource.NewQuantity(n, format)`
  pub new_quantity : ℤ → Format → Quantity
  -- `q.String()`
  pub print : Quantity → Text
  -- `resource.MustParse(s)`, which the program calls on literals only
  pub must_parse : Text → Quantity
  -- `sha256.Sum256`, as the list of its bytes
  pub sha256 : Text → Text
  -- `metav1.LabelSelector`, and whether it matches; `none` is a selector that cannot be parsed
  pub LabelSelector : Type 0
  pub selector_matches : LabelSelector → Dict Text Text → Option Bool

-- The order of two integers.
abbrev pub compare_ℤ : ℤ → ℤ → Ordering
compare_ℤ a b = compare (pos_part a + neg_part b) (pos_part b + neg_part a)

-- A quantity is a fixed-point number, `amount` in units of 10 ^ -9. `Cmp` compares amounts, `Add`
-- adds them, and a quantity made from an `int64` has that value.
pub record IsLawful (P : Platform) : Type 0 where
  pub amount : P.Quantity → ℤ
  pub cmp-amount : (a b : P.Quantity) → P.cmp a b ≡ compare_ℤ (amount a) (amount b)
  pub amount-add : (a b : P.Quantity) → amount (P.add a b) ≡ amount a +ℤ amount b
  pub amount-new_quantity : (n : ℤ) (f : Format) → amount (P.new_quantity n f) ≡ n *ℤ pos (10 ^ 9)
  pub value-new_quantity :
      (n : ℤ) (f : Format) → IsInt64 n → P.quantity_value (P.new_quantity n f) ≡ n
  pub amount-must_parse :
      (n : ℕ) → amount (P.must_parse (decimal n ++ codes "Gi")) ≡ pos (n * 2 ^ 30 * 10 ^ 9)
