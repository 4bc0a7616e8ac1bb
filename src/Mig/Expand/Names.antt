-- ===== src/Mig/Expand/Names.antt =====
-- internal/mig/expand.go: the device names of the instances of a node.
use ghostgpu.Base.{
  ℕ, ◌*◌, List, [], ◌∷◌, ◌++◌, map, ◌≡◌, refl, sym, ◌∙◌, ap, Text, length, length-map, All, In,
  In-map, In-All, Distinct, map-Distinct, map-flat_map, length-flat_map, flat_map-Distinct,
}
use ghostgpu.Base.Int.{ℤ, pos, pos_part}
use ghostgpu.Text.{decimal, format_int, Lacks, replace_all}
use ghostgpu.Text.Cut.{append-sep_inj, replace_all_inj}
use ghostgpu.Text.Decimal.{decimal-Lacks, decimal_inj}
use ghostgpu.Platform.{Platform}
use ghostgpu.Mig.{Profile, Table}
use ghostgpu.Mig.Expand.{Instance, device_name, instance_of, expand}

-- Two names are equal only for the same GPU and the same profile, if the profiles' names hold no
-- dash, which real ones do not.
pub device_name_inj :
    (i j : ℕ) (p q : Text)
    → Lacks b'-' p
    → Lacks b'-' q
    → device_name (pos i) p ≡ device_name (pos j) q
    → (i ≡ j) × (p ≡ q)
unfolding device_name format_int
device_name_inj i j p q hp hq e =
    let tails : decimal i ++ (b'-' ∷ replace_all b'.' b'-' p)
        ≡ decimal j ++ (b'-' ∷ replace_all b'.' b'-' q) =
      cc in
    let (same, rest) =
      append-sep_inj b'-' (decimal i) (replace_all b'.' b'-' p) (decimal j)
        (replace_all b'.' b'-' q) (decimal-Lacks b'-' refl i) (decimal-Lacks b'-' refl j) tails in
    (decimal_inj i j same, replace_all_inj b'.' b'-' p q hp hq rest)

module _ (P : Platform) where
  abbrev pub profile_names : Table P → List Text
  profile_names table = map (λ p. p.name) table.profiles

  abbrev pub device_names : List (Instance P) → List Text
  device_names = map (λ i. i.device_name)

  -- The names of one GPU's instances are those of the profiles.
  names_on : ℕ → List (Profile P) → List Text
  names_on i ps = map (device_name (pos i)) (map (λ p. p.name) ps)

  names_on-eq :
      (i : ℕ) (ps : List (Profile P))
      → device_names (map (instance_of P (pos i)) ps) ≡ names_on i ps
  unfolding names_on instance_of
  names_on-eq i [] = refl
  names_on-eq i (p ∷ ps) = ap (λ t. device_name (pos i) p.name ∷ t) (names_on-eq i ps)

  pub length-expand :
      (gpus : ℤ) (table : Table P)
      → length (expand P gpus table) ≡ pos_part gpus * length table.profiles
  unfolding expand
  length-expand gpus table =
      length-flat_map (λ i. map (instance_of P (pos i)) table.profiles) (length table.profiles) 0
        (pos_part gpus) (λ i. length-map (instance_of P (pos i)) table.profiles)

  In-names_on :
      (i : ℕ) (ps : List (Profile P)) (a : Text)
      → In a (names_on i ps)
      → (q : Text) × In q (map (λ p. p.name) ps) × (a ≡ device_name (pos i) q)
  unfolding names_on
  In-names_on i ps a h = In-map (device_name (pos i)) (map (λ p. p.name) ps) a h

  -- No two of the instances that are published without a declared layout share a device name, if
  -- the names of the profiles differ and hold no dash.
  pub expand-Distinct :
      (gpus : ℤ) (table : Table P)
      → Distinct (profile_names table)
      → All (Lacks b'-') (profile_names table)
      → Distinct (device_names (expand P gpus table))
  unfolding expand names_on
  expand-Distinct gpus table distinct plain = rw map-flat_map (
      flat_map-Distinct (λ i. device_names (map (instance_of P (pos i)) table.profiles)) 0
        (pos_part gpus)
        (λ i. rw (names_on-eq i table.profiles) (
          map-Distinct (Lacks b'-') (device_name (pos i)) (profile_names table)
            (λ p q hp hq e. (device_name_inj i i p q hp hq e).1) plain distinct))
        (λ i j a l r.
          let (p, at, e) =
            In-names_on i table.profiles a (rw (names_on-eq i table.profiles) at l) in
          let (q, at', e') =
            In-names_on j table.profiles a (rw (names_on-eq j table.profiles) at r) in
          (device_name_inj i j p q (In-All (Lacks b'-') (profile_names table) plain p at)
            (In-All (Lacks b'-') (profile_names table) plain q at') (sym e ∙ e')).0))
