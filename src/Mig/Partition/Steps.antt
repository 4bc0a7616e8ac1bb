-- ===== src/Mig/Partition/Steps.antt =====
-- internal/mig/partition.go: the look-up of a profile, and one round of the slice counter.
use native.Mathlib.Nat.{mul-le-mul}
use ghostgpu.Base.{
  ℕ, ◌+◌, ◌*◌, ◌^◌, ◌≤◌, ◌<◌, Option, none, some, List, [], ◌∷◌, map, ◌≡◌, ◌≢◌, refl, arith, Text,
  text_eq, ◌==◌, if◌then◌else◌, In, Distinct, inl, inr,
}
use ghostgpu.Base.Dict.{Dict, lookup, insert, prefer, lookup-insert, lookup-nil}
use ghostgpu.Base.Int.{ℤ, pos, negsuc, pos_part, ◌≤ℤ◌, add32, mul32, wrap32_id, mul_pos, add_pos}
use ghostgpu.Platform.{Platform}
use ghostgpu.Mig.{Profile}
use ghostgpu.Mig.Partition.{by_name}

module _ (P : Platform) where
  -- The profile of that name.
  abbrev pub find_profile : Text → List (Profile P) → Option (Profile P)
  find_profile name [] = none
  find_profile name (p ∷ ps) = if name == p.name then some p else find_profile name ps

  find_profile_absent :
      (name : Text) (ps : List (Profile P))
      → ¬ In name (map (λ p. p.name) ps)
      → find_profile name ps ≡ none
  find_profile_absent name [] out = refl
  find_profile_absent name (p ∷ ps) out =
      let apart : name ≢ p.name = λ e. out (inl e) in
      ground (arith, find_profile_absent name ps (λ i. out (inr i)))

  lookup-by_name_onto :
      (name : Text) (d : Dict Text (Profile P)) (ps : List (Profile P))
      → Distinct (map (λ p. p.name) ps)
      → lookup name (by_name P d ps) ≡ prefer (find_profile name ps) (lookup name d)
  unfolding by_name
  lookup-by_name_onto name d [] _ = refl
  lookup-by_name_onto name d (p ∷ ps) (fresh, u) = ground (
    arith,
    lookup-by_name_onto name (insert p.name p d) ps u,
    lookup-insert name p.name p d,
    find_profile_absent p.name ps fresh,
  )

  pub lookup-by_name :
      (name : Text) (ps : List (Profile P))
      → Distinct (map (λ p. p.name) ps)
      → lookup name (by_name P [] ps) ≡ find_profile name ps
  lookup-by_name name ps u =
      ground (arith, lookup-by_name_onto name [] ps u, lookup-nil {V = Profile P} name)

pub product_le : (a b : ℕ) → a ≤ 8 → b ≤ 8 → a * b ≤ 64
product_le a b h k = mul-le-mul h k

pub part_le : (x : ℤ) → pos 0 ≤ℤ x → x ≤ℤ pos 8 → pos_part x ≤ 8
part_le (pos n) h k = omega arith
part_le (negsuc n) h k = omega arith

-- One round of the slice counter, where nothing wraps around.
pub slices_step :
    (n : ℕ) (x y : ℤ)
    → pos 0 ≤ℤ x
    → x ≤ℤ pos 8
    → pos 0 ≤ℤ y
    → y ≤ℤ pos 8
    → n + 64 < 2 ^ 31
    → add32 (pos n) (mul32 x y) ≡ pos (n + pos_part x * pos_part y)
slices_step n (pos a) (pos b) h0 h1 h2 h3 room =
    let small = product_le a b (omega arith) (omega arith) in
    rw (mul_pos a b, wrap32_id (pos (a * b)) (omega arith), add_pos n (a * b))
      (wrap32_id (pos (n + a * b)) (omega arith))
slices_step n (pos a) (negsuc b) h0 h1 h2 h3 room = absurd (omega arith)
slices_step n (negsuc a) y h0 h1 h2 h3 room = absurd (omega arith)
