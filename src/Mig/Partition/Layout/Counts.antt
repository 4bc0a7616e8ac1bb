-- ===== src/Mig/Partition/Layout/Counts.antt =====
-- internal/mig/partition.go: the counts of the profiles and the order of the entries.
use mathlib.Core.Logic.{∥∥₁_elim}
use mathlib.Core.List.{Perm, Permᴰ}
use ghostgpu.Base.{
  List, [], ◌∷◌, ◌≡◌, refl, sym, ◌∙◌, ap, arith, Text, text_eq, ◌==◌, if◌then◌else◌, flat_map_congr,
  count_from,
}
use ghostgpu.Base.Dict.{Dict, insert, get_or, lookup-insert}
use ghostgpu.Base.Int.{ℤ, pos, negsuc, pos_part, ◌+ℤ◌, wrap32, add32}
use ghostgpu.Platform.{Platform}
use ghostgpu.Api.{MigPartitionEntry}
use ghostgpu.Mig.{Profile, Table}
use ghostgpu.Mig.Partition.{counts_of, on_gpu, expand_partitioned}

wrap32-add : (x b : ℤ) → wrap32 (wrap32 x +ℤ b) ≡ wrap32 (x +ℤ b)
unfolding wrap32 ◌+ℤ◌
wrap32-add (pos n) (pos m) = ground arith
wrap32-add (pos n) (negsuc m) = ground arith
wrap32-add (negsuc n) (pos m) = ground arith
wrap32-add (negsuc n) (negsuc m) = ground arith

add_right_comm : (x a b : ℤ) → x +ℤ a +ℤ b ≡ x +ℤ b +ℤ a
unfolding ◌+ℤ◌
add_right_comm x a b = ground arith

pub add32_right_comm : (x a b : ℤ) → add32 (add32 x a) b ≡ add32 (add32 x b) a
add32_right_comm x a b =
    wrap32-add (x +ℤ a) b ∙ ap wrap32 (add_right_comm x a b) ∙ sym (wrap32-add (x +ℤ b) a)

-- What the entries add to the count of one name.
pub tally : Text → List MigPartitionEntry → ℤ → ℤ
tally name [] acc = acc
tally name (e ∷ es) acc = tally name es (if name == e.profile then add32 acc e.count else acc)

get_or-counts_of :
    (name : Text) (es : List MigPartitionEntry) (d : Dict Text ℤ)
    → get_or name (counts_of d es) (pos 0) ≡ tally name es (get_or name d (pos 0))
unfolding counts_of tally
get_or-counts_of name [] d = refl
get_or-counts_of name (e ∷ es) d =
    let n = add32 (get_or e.profile d (pos 0)) e.count in
    get_or-counts_of name es (insert e.profile n d)
    ∙ ap (tally name es) (ground (arith, lookup-insert name e.profile n d))

tally-permᴰ :
    (name : Text) {es fs : List MigPartitionEntry}
    → Permᴰ es fs
    → (acc : ℤ) → tally name es acc ≡ tally name fs acc
unfolding tally
tally-permᴰ name Permᴰ.nil acc = refl
tally-permᴰ name (Permᴰ.cons {a = a} {b = b} e p) acc = rw e (tally-permᴰ name p _)
tally-permᴰ name (Permᴰ.swap {a = a} {b = b} {l = l} e f) acc =
    rw (← e, ← f) (ap (tally name l) (ground (arith, add32_right_comm acc a.count b.count)))
tally-permᴰ name (Permᴰ.trans p q) acc = tally-permᴰ name p acc ∙ tally-permᴰ name q acc

ℤ_set : IsSet ℤ
ℤ_set = hlevel

pub counts_of-perm :
    (name : Text) (es fs : List MigPartitionEntry)
    → Perm es fs
    → get_or name (counts_of [] es) (pos 0) ≡ get_or name (counts_of [] fs) (pos 0)
counts_of-perm name es fs p =
    ∥∥₁_elim p (ℤ_set _ _)
      (λ q. get_or-counts_of name es [] ∙ tally-permᴰ name q _ ∙ sym (get_or-counts_of name fs []))

module _ (P : Platform) where
  on_gpu_congr :
      (gpu : ℤ) (c d : Dict Text ℤ) (ps : List (Profile P)) (id : ℤ)
      → ((name : Text) → get_or name c (pos 0) ≡ get_or name d (pos 0))
      → on_gpu P gpu c ps id ≡ on_gpu P gpu d ps id
  unfolding on_gpu
  on_gpu_congr gpu c d [] id h = refl
  on_gpu_congr gpu c d (p ∷ ps) id h = rw (h p.name, on_gpu_congr gpu c d ps _ h)

  -- The same layout gives the same instances however the manifest orders its entries.
  pub expand_partitioned-perm :
      (gpus : ℤ) (table : Table P) (es fs : List MigPartitionEntry)
      → Perm es fs
      → expand_partitioned P gpus table es ≡ expand_partitioned P gpus table fs
  unfolding expand_partitioned
  expand_partitioned-perm gpus table es fs p =
      flat_map_congr (λ i. on_gpu P (pos i) (counts_of [] es) table.profiles (pos 0))
        (λ i. on_gpu P (pos i) (counts_of [] fs) table.profiles (pos 0))
        (count_from 0 (pos_part gpus))
        (λ i.
          on_gpu_congr (pos i) (counts_of [] es) (counts_of [] fs) table.profiles (pos 0)
            (λ name. counts_of-perm name es fs p))
