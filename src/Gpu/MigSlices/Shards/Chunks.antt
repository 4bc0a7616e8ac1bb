-- ===== src/Gpu/MigSlices/Shards/Chunks.antt =====
-- Cutting a list, or a range of indices, into shards and putting the shards together again.
use mathlib.Core.Path.{ap₂}
use ghostgpu.Base.{
  ◌⊎◌, inl, inr, append-nil, length-take, ℕ, zero, suc, ◌+◌, ◌-◌, ◌*◌, ◌/◌, ◌≤◌, ◌<◌, min, List, [],
  ◌∷◌, ◌++◌, ◌≡◌, sym, ◌∙◌, ap, arith, length, take, drop, length-drop, take-append-drop, drop-drop,
  drop_all, flat_map, count_from,
}
use ghostgpu.Base.Int.{ℤ, pos, negsuc, pos_part, quot, ◌+ℤ◌, ◌-ℤ◌}
use ghostgpu.Gpu.MigSlices.{ceil_div}

-- The number of shards of a count.
pub ceil_div_eight : (n : ℤ) → ceil_div n (pos 8) ≡ pos ((pos_part n + 7) / 8)
unfolding ceil_div quot ◌+ℤ◌ ◌-ℤ◌
ceil_div_eight (pos n) = ground arith
ceil_div_eight (negsuc n) = ground arith

pub ceil_div_64 : (n : ℕ) → ceil_div (pos n) (pos 64) ≡ pos ((n + 63) / 64)
unfolding ceil_div quot ◌+ℤ◌ ◌-ℤ◌
ceil_div_64 n = ground arith

module _ {A : Type 0} where
  take-min : (k : ℕ) (xs : List A) → take (min k (length xs)) xs ≡ take k xs
  take-min zero xs = let e : min zero (length xs) ≡ zero = omega arith in rw e
  take-min (suc k) [] = let e : min (suc k) zero ≡ zero = omega arith in rw e
  take-min (suc k) (x ∷ xs) =
      let e : min (suc k) (suc (length xs)) ≡ suc (min k (length xs)) = omega arith in
      rw e (ap (λ t. x ∷ t) (take-min k xs))

  -- The shard number `s`, of 64 elements at most.
  abbrev pub shard_of : List A → ℕ → List A
  shard_of xs s = take (min (s * 64 + 64) (length xs) - s * 64) (drop (s * 64) xs)

  shard_of-eq-take : (xs : List A) (s : ℕ) → shard_of xs s ≡ take 64 (drop (s * 64) xs)
  shard_of-eq-take xs s =
      let e : min (s * 64 + 64) (length xs) - s * 64 ≡ min 64 (length (drop (s * 64) xs)) =
        omega (arith, length-drop (s * 64) xs) in
      ap (λ n. take n (drop (s * 64) xs)) e ∙ take-min 64 (drop (s * 64) xs)

  pub length-shard_of : (xs : List A) (s : ℕ) → length (shard_of xs s) ≤ 64
  length-shard_of xs s =
      omega (arith, ap length (shard_of-eq-take xs s), length-take 64 (drop (s * 64) xs))

  -- From the shard number `s` on, the shards are the rest of the list.
  pub shards_from :
      (xs : List A) (s m : ℕ)
      → length xs ≤ (s + m) * 64
      → flat_map (shard_of xs) (count_from s m) ≡ drop (s * 64) xs
  shards_from xs s zero h = sym (drop_all (s * 64) xs (omega arith))
  shards_from xs s (suc m) h =
      let e : s * 64 + 64 ≡ suc s * 64 = omega arith in
      let later : flat_map (shard_of xs) (count_from (suc s) m) ≡ drop 64 (drop (s * 64) xs) =
        shards_from xs (suc s) m (omega arith)
        ∙ ap (λ n. drop n xs) (sym e)
        ∙ sym (drop-drop 64 (s * 64) xs) in
      ap₂ (λ a b. a ++ b) (shard_of-eq-take xs s) later ∙ take-append-drop 64 (drop (s * 64) xs)

-- The indices of the shard number `s` of the range below `n`, of 8 at most.
abbrev pub range_of : ℕ → ℕ → List ℕ
range_of n s = count_from (s * 8) (min (s * 8 + 8) n - s * 8)

count_from-append : (i k m : ℕ) → count_from i k ++ count_from (i + k) m ≡ count_from i (k + m)
count_from-append i zero m =
    let e : i + zero ≡ i = omega arith in let e' : zero + m ≡ m = omega arith in rw (e, e')
count_from-append i (suc k) m =
    let e : i + suc k ≡ suc i + k = omega arith in
    let e' : suc k + m ≡ suc (k + m) = omega arith in
    rw (e, e') (ap (λ t. i ∷ t) (count_from-append (suc i) k m))

pub ranges_from :
    (n s m : ℕ)
    → n ≤ (s + m) * 8
    → flat_map (range_of n) (count_from s m) ≡ count_from (s * 8) (n - s * 8)
ranges_from n s zero h = let e : n - s * 8 ≡ zero = omega arith in rw e
ranges_from n s (suc m) h =
    let later = ranges_from n (suc s) m (omega arith) in
    elim (split n s) [
      | inl full ↦
          let e : min (s * 8 + 8) n - s * 8 ≡ 8 = omega arith in
          let e' : suc s * 8 ≡ s * 8 + 8 = omega arith in
          let e'' : 8 + (n - (s * 8 + 8)) ≡ n - s * 8 = omega arith in
          rw (e, later, e')
            (count_from-append (s * 8) 8 (n - (s * 8 + 8)) ∙ ap (count_from (s * 8)) e'')
      | inr short ↦
          let e : min (s * 8 + 8) n - s * 8 ≡ n - s * 8 = omega arith in
          let e' : n - suc s * 8 ≡ zero = omega arith in rw (e, later, e') (append-nil _)
    ]
  where
    split : (n s : ℕ) → (s * 8 + 8 ≤ n) ⊎ (n < s * 8 + 8)
    split n s = omega arith
