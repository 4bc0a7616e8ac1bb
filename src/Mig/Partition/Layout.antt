-- ===== src/Mig/Partition/Layout.antt =====
-- internal/mig/partition.go: the instances, IDs and names of `ExpandPartitioned`.
pub mod Counts
pub mod Names
use mathlib.Core.List.{map-append}
use ghostgpu.Base.{
  ℕ, zero, suc, ◌+◌, ◌-◌, text_eq, ◌*◌, ◌^◌, ◌≤◌, ◌<◌, List, [], ◌∷◌, ◌++◌, map, ◌≡◌, refl, sym,
  ◌∙◌, ap, arith, Text, length, length-append, flat_map, count_from, All,
}
use ghostgpu.Base.Dict.{Dict, get_or}
use ghostgpu.Base.Int.{ℤ, pos, pos_part, ◌+ℤ◌, add32, wrap32_id, add_pos}
use ghostgpu.Platform.{Platform}
use ghostgpu.Mig.{Profile}
use ghostgpu.Mig.Expand.{Instance}
use ghostgpu.Mig.Partition.{partition_instance, ordinals, bump, on_gpu}

pub next : (n : ℕ) → n < 2 ^ 31 - 1 → add32 (pos n) (pos 1) ≡ pos (suc n)
next n h = rw (add_pos n 1, one n) (wrap32_id (pos (suc n)) (omega arith))
  where
    one : (n : ℕ) → n + 1 ≡ suc n
    one n = omega arith

suc-add : (k m : ℕ) → suc k + m ≡ suc (k + m)
suc-add k m = omega arith

add-suc_comm : (n k : ℕ) → n + suc k ≡ suc n + k
add-suc_comm n k = omega arith

module _ (P : Platform) where
  abbrev pub instance_ids : List (Instance P) → List ℤ
  instance_ids = map (λ i. i.instance_id)

  -- The instances of one GPU, by the counts of the profiles.
  abbrev pub per_gpu : Dict Text ℤ → List (Profile P) → ℕ
  per_gpu counts [] = 0
  per_gpu counts (p ∷ ps) = pos_part (get_or p.name counts (pos 0)) + per_gpu counts ps

  length-ordinals :
      (gpu : ℤ) (p : Profile P) (n o : ℕ) (id : ℤ) → length (ordinals P gpu p n o id) ≡ n
  unfolding ordinals
  length-ordinals gpu p zero o id = refl
  length-ordinals gpu p (suc n) o id = ap suc (length-ordinals gpu p n (suc o) _)

  pub length-on_gpu :
      (gpu : ℤ) (counts : Dict Text ℤ) (ps : List (Profile P)) (id : ℤ)
      → length (on_gpu P gpu counts ps id) ≡ per_gpu counts ps
  unfolding on_gpu
  length-on_gpu gpu counts [] id = refl
  length-on_gpu gpu counts (p ∷ ps) id =
      let n = pos_part (get_or p.name counts (pos 0)) in
      length-append (ordinals P gpu p n 0 id) (on_gpu P gpu counts ps (bump P n id))
      ∙ omega (arith, length-ordinals gpu p n 0 id, length-on_gpu gpu counts ps (bump P n id))

  -- The IDs from `n` up, `k` of them, as `int32` values.
  abbrev pub ids_from : ℕ → ℕ → List ℤ
  ids_from n k = map pos (count_from n k)

  ids_from-append : (n k m : ℕ) → ids_from n (k + m) ≡ ids_from n k ++ ids_from (n + k) m
  ids_from-append n zero m = ground arith
  ids_from-append n (suc k) m =
      rw (suc-add k m, add-suc_comm n k) (ap (λ t. pos n ∷ t) (ids_from-append (suc n) k m))

  bump-pos : (k n : ℕ) → n + k < 2 ^ 31 → bump P k (pos n) ≡ pos (n + k)
  unfolding bump
  bump-pos zero n h = ground arith
  bump-pos (suc k) n h = rw (next n (omega arith), bump-pos k (suc n) (omega arith)) (ground arith)

  ordinals-ids :
      (gpu : ℤ) (p : Profile P) (k o n : ℕ)
      → n + k < 2 ^ 31
      → instance_ids (ordinals P gpu p k o (pos n)) ≡ ids_from n k
  unfolding ordinals
  ordinals-ids gpu p zero o n h = refl
  ordinals-ids gpu p (suc k) o n h =
      rw (next n (omega arith))
        (ap (λ t. pos n ∷ t) (ordinals-ids gpu p k (suc o) (suc n) (omega arith)))

  on_gpu-ids_from :
      (gpu : ℤ) (counts : Dict Text ℤ) (ps : List (Profile P)) (n : ℕ)
      → n + per_gpu counts ps < 2 ^ 31
      → instance_ids (on_gpu P gpu counts ps (pos n)) ≡ ids_from n (per_gpu counts ps)
  unfolding on_gpu
  on_gpu-ids_from gpu counts [] n h = refl
  on_gpu-ids_from gpu counts (p ∷ ps) n h =
      let k = pos_part (get_or p.name counts (pos 0)) in
      rw
        (
          map-append (λ (i : Instance P). i.instance_id) (ordinals P gpu p k 0 (pos n))
              (on_gpu P gpu counts ps (bump P k (pos n))),
          ordinals-ids gpu p k 0 n (omega arith),
          bump-pos k n (omega arith),
          on_gpu-ids_from gpu counts ps (n + k) (omega arith),
          ids_from-append n k (per_gpu counts ps),
        )
        refl

  -- On each GPU the instances are numbered 0, 1, 2, ... in the order in which they are published.
  pub on_gpu-ids :
      (gpu : ℤ) (counts : Dict Text ℤ) (ps : List (Profile P))
      → per_gpu counts ps < 2 ^ 31
      → instance_ids (on_gpu P gpu counts ps (pos 0)) ≡ ids_from 0 (per_gpu counts ps)
  on_gpu-ids gpu counts ps h = on_gpu-ids_from gpu counts ps 0 (omega arith)
