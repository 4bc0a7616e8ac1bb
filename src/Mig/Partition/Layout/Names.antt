-- ===== src/Mig/Partition/Layout/Names.antt =====
-- internal/mig/partition.go: the device names of the instances of a declared layout.
use mathlib.Core.Path.{subst}
use mathlib.Core.List.{map-append}
use ghostgpu.Base.{
  ℕ, zero, suc, ◌≤◌, List, [], ◌∷◌, map, ◌≡◌, refl, sym, ◌∙◌, arith, Text, text_eq, All, In, In-All,
  Distinct, Distinct-append, Any-append_cases, inl, inr, map-flat_map, flat_map-Distinct,
}
use ghostgpu.Base.Dict.{Dict, get_or}
use ghostgpu.Base.Int.{ℤ, pos, pos_part}
use ghostgpu.Text.{decimal, format_int, Lacks}
use ghostgpu.Text.Cut.{append-sep_inj_last}
use ghostgpu.Text.Decimal.{decimal-Lacks}
use ghostgpu.Platform.{Platform}
use ghostgpu.Api.{MigPartitionEntry}
use ghostgpu.Mig.{Profile, Table}
use ghostgpu.Mig.Expand.{Instance, device_name}
use ghostgpu.Text.Decimal.{decimal_inj}
use ghostgpu.Mig.Expand.Names.{device_name_inj, device_names, profile_names}
use ghostgpu.Mig.Partition.{
  partition_device_name, partition_instance, ordinals, on_gpu, bump, counts_of, expand_partitioned,
}

-- Two names are equal only for the same GPU, profile and ordinal.
pub partition_device_name_inj :
    (i j : ℕ) (p q : Text) (m n : ℕ)
    → Lacks b'-' p
    → Lacks b'-' q
    → partition_device_name (pos i) p (pos m) ≡ partition_device_name (pos j) q (pos n)
    → (i ≡ j) × (p ≡ q) × (m ≡ n)
unfolding partition_device_name format_int
partition_device_name_inj i j p q m n hp hq e =
    let (front, back) =
      append-sep_inj_last b'-' (device_name (pos i) p) (decimal m) (device_name (pos j) q)
        (decimal n) (decimal-Lacks b'-' refl m) (decimal-Lacks b'-' refl n) e in
    let (gpu, profile) = device_name_inj i j p q hp hq front in (gpu, profile, decimal_inj m n back)

module _ (P : Platform) where
  In-ordinals :
      (gpu : ℤ) (p : Profile P) (n o : ℕ) (id : ℤ) (a : Text)
      → In a (device_names P (ordinals P gpu p n o id))
      → (m : ℕ) × (o ≤ m) × (a ≡ partition_device_name gpu p.name (pos m))
  unfolding ordinals partition_instance
  In-ordinals gpu p zero o id a h = absurd h
  In-ordinals gpu p (suc n) o id a (inl e) = (o, omega arith, e)
  In-ordinals gpu p (suc n) o id a (inr h) =
      let (m, low, e) = In-ordinals gpu p n (suc o) _ a h in (m, omega arith, e)

  ordinals-Distinct :
      (i : ℕ) (p : Profile P) (n o : ℕ) (id : ℤ)
      → Lacks b'-' p.name
      → Distinct (device_names P (ordinals P (pos i) p n o id))
  unfolding ordinals partition_instance
  ordinals-Distinct i p zero o id plain = tt
  ordinals-Distinct i p (suc n) o id plain = (
    λ h.
        let (m, low, e) = In-ordinals (pos i) p n (suc o) _ _ h in
        let (_, _, same) = partition_device_name_inj i i p.name p.name o m plain plain e in
        absurd (omega arith),
    ordinals-Distinct i p n (suc o) _ plain,
  )

  In-on_gpu :
      (gpu : ℤ) (counts : Dict Text ℤ) (ps : List (Profile P)) (id : ℤ) (a : Text)
      → In a (device_names P (on_gpu P gpu counts ps id))
      → (q : Text) × In q (map (λ p. p.name) ps)
        × ((m : ℕ) × (a ≡ partition_device_name gpu q (pos m)))
  unfolding on_gpu
  In-on_gpu gpu counts [] id a h = absurd h
  In-on_gpu gpu counts (p ∷ ps) id a h =
      let n = pos_part (get_or p.name counts (pos 0)) in
      let here = ordinals P gpu p n 0 id in
      let later = on_gpu P gpu counts ps (bump P n id) in
      elim (Any-append_cases (λ x. a ≡ x) (device_names P here) (device_names P later)
        (rw (map-append (λ (i : Instance P). i.device_name) here later) at h)) [
          | inl l ↦ let (m, _, e) = In-ordinals gpu p n 0 id a l in (p.name, inl refl, (m, e))
          | inr r ↦
              let (q, at, named) = In-on_gpu gpu counts ps (bump P n id) a r in (q, inr at, named)
        ]

  on_gpu-Distinct :
      (i : ℕ) (counts : Dict Text ℤ) (ps : List (Profile P)) (id : ℤ)
      → Distinct (map (λ p. p.name) ps)
      → All (Lacks b'-') (map (λ p. p.name) ps)
      → Distinct (device_names P (on_gpu P (pos i) counts ps id))
  unfolding on_gpu
  on_gpu-Distinct i counts [] id _ _ = tt
  on_gpu-Distinct i counts (p ∷ ps) id (fresh, distinct) (plain, rest) =
      let n = pos_part (get_or p.name counts (pos 0)) in
      let here = ordinals P (pos i) p n 0 id in
      let later = on_gpu P (pos i) counts ps (bump P n id) in
      rw (map-append (λ (i : Instance P). i.device_name) here later) (
        Distinct-append (device_names P here) (device_names P later)
          (ordinals-Distinct i p n 0 id plain)
          (on_gpu-Distinct i counts ps (bump P n id) distinct rest)
          (λ a l r.
            let (m, _, e) = In-ordinals (pos i) p n 0 id a l in
            let (q, at, (m', e')) = In-on_gpu (pos i) counts ps (bump P n id) a r in
            let (_, same, _) =
              partition_device_name_inj i i p.name q m m' plain
                (In-All (Lacks b'-') (map (λ p. p.name) ps) rest q at) (sym e ∙ e') in
            fresh (subst (λ t. In t (map (λ p. p.name) ps)) (sym same) at)))

  -- No two of the instances of a declared layout share a device name, if the names of the profiles
  -- differ and hold no dash.
  pub expand_partitioned-Distinct :
      (gpus : ℤ) (table : Table P) (entries : List MigPartitionEntry)
      → Distinct (profile_names P table)
      → All (Lacks b'-') (profile_names P table)
      → Distinct (device_names P (expand_partitioned P gpus table entries))
  unfolding expand_partitioned
  expand_partitioned-Distinct gpus table entries distinct plain =
      let counts = counts_of [] entries in
      rw map-flat_map (
        flat_map-Distinct (λ i. device_names P (on_gpu P (pos i) counts table.profiles (pos 0))) 0
          (pos_part gpus) (λ i. on_gpu-Distinct i counts table.profiles (pos 0) distinct plain)
          (λ i j a l r.
            let (p, at, (m, e)) = In-on_gpu (pos i) counts table.profiles (pos 0) a l in
            let (q, at', (n, e')) = In-on_gpu (pos j) counts table.profiles (pos 0) a r in
            (partition_device_name_inj i j p q m n
              (In-All (Lacks b'-') (profile_names P table) plain p at)
              (In-All (Lacks b'-') (profile_names P table) plain q at') (sym e ∙ e')).0))
