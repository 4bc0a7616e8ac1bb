-- ===== src/Cli/Up/Partitions.antt =====
-- internal/cli/up.go: what `ParsePartition` reads.
use mathlib.Core.Path.{subst}
use ghostgpu.Base.{
  ◌^◌, ◌≤◌, ◌<◌, false, Option, none, some, List, [], ◌∷◌, map, ◌≡◌, ◌≢◌, inl, inr, arith,
  Bool-cases, Option-cases, Result, ok, err, ◌>>=◌, >>=-eq-ok, Text, text_eq, ◌==◌, All, All-imp,
  In, Distinct, is_in,
}
use ghostgpu.Base.Int.{ℤ, pos, pos_part}
use ghostgpu.Text.{parse_int, cut}
use ghostgpu.Text.Decimal.{parse_int-lt}
use ghostgpu.Text.Split.{split, trim_space}
use ghostgpu.Api.{MigPartitionEntry}
use ghostgpu.Cli.Up.{
  PartitionFlagError, parse_entry, entry_of, read_count, checked_count, new_entry, parse_entries,
  parse_partition, cut_or_whole,
}

-- A count from 1 to 2^31 - 1.
abbrev pub IsCount : ℤ → Type 0
IsCount c = (c ≡ pos (pos_part c)) × (1 ≤ pos_part c) × (pos_part c < 2 ^ 31)

-- An entry that names a profile and has such a count.
abbrev pub IsEntry : MigPartitionEntry → Type 0
IsEntry e = (e.profile ≢ []) × IsCount e.count

abbrev pub profiles_of : List MigPartitionEntry → List Text
profiles_of = map (λ e. e.profile)

checked_count-IsCount :
    (text profile s : Text) (c : ℤ)
    → checked_count text profile (parse_int (2 ^ 31) s) ≡ ok c
    → IsCount c
checked_count-IsCount text profile s c e = elim (Option-cases (parse_int (2 ^ 31) s)) [
  | inl none_read ↦ absurd (let wrong = rw none_read at e in cc)
  | inr (n, read) ↦
      let small : pos_part n < 2 ^ 31 = parse_int-lt (2 ^ 31) s n (omega arith) read in
      let tested = rw read at e in ground arith
]

read_count-IsCount :
    (text profile : Text) (count : Option Text) (c : ℤ)
    → read_count text profile count ≡ ok c
    → IsCount c
read_count-IsCount text profile none c e = ground arith
read_count-IsCount text profile (some s) c e = checked_count-IsCount text profile (trim_space s) c e

built_entry :
    (profile : Text) (r : Result PartitionFlagError ℤ) (e : MigPartitionEntry)
    → (r >>= λ n. ok (new_entry profile n)) ≡ ok e
    → (e.profile ≡ profile) × (r ≡ ok e.count)
built_entry profile (ok n) e h = ground arith
built_entry profile (err x) e h = cc

-- What one round takes: a profile that is named and new.
abbrev IsTaken : List Text → MigPartitionEntry → Type 0
IsTaken seen e = IsEntry e × (is_in e.profile seen ≡ false)

entry_of-IsTaken :
    (text : Text) (seen : List Text) (pair profile : Text) (count : Option Text)
    (e : MigPartitionEntry)
    → entry_of text seen pair profile count ≡ ok e
    → IsTaken seen e
entry_of-IsTaken text seen pair profile count e h = elim (Bool-cases (profile == [])) [
  | inl empty ↦ absurd (let wrong = rw empty at h in cc)
  | inr named ↦ elim (Bool-cases (is_in profile seen)) [
    | inl twice ↦ absurd (let wrong = rw (named, twice) at h in cc)
    | inr new ↦
        let (same, read) =
          built_entry profile (read_count text profile count) e (rw (named, new) at h) in
        let count_lem = read_count-IsCount text profile count e.count read in
        ((λ z. ground arith, count_lem), rw same new)
  ]
]

parse_entry-IsTaken :
    (text : Text) (seen : List Text) (part : Text) (e : MigPartitionEntry)
    → parse_entry text seen part ≡ ok e
    → IsTaken seen e
unfolding parse_entry
parse_entry-IsTaken text seen part e h = elim (Bool-cases (trim_space part == [])) [
  | inl empty ↦ absurd (let wrong = rw empty at h in cc)
  | inr more ↦
      let pair = trim_space part in
      let (profile, count) = cut_or_whole (cut b'=' pair) pair in
      entry_of-IsTaken text seen pair (trim_space profile) count e (rw more at h)
]

not_seen :
    (p : Text) (seen : List Text) (es : List MigPartitionEntry)
    → All (IsTaken (p ∷ seen)) es
    → All (IsTaken seen) es × (¬ In p (profiles_of es))
unfolding is_in
not_seen p seen [] h = (tt, λ i. i)
not_seen p seen (e ∷ es) ((entry, new), h) =
    let (rest, apart) = not_seen p seen es h in
    (
      ((entry, ground arith), rest),
      λ i. elim i [ inl same ↦ ground arith | inr later ↦ apart later ],
    )

parse_entries-IsTaken :
    (text : Text) (seen : List Text) (parts : List Text) (es : List MigPartitionEntry)
    → parse_entries text seen parts ≡ ok es
    → All (IsTaken seen) es × Distinct (profiles_of es)
unfolding parse_entries
parse_entries-IsTaken text seen [] [] h = (tt, tt)
parse_entries-IsTaken text seen [] (e ∷ es) h = cc
parse_entries-IsTaken text seen (part ∷ parts) es h =
    let (e, first, h0) = >>=-eq-ok (parse_entry text seen part) _ h in
    let (rest, later, h1) = >>=-eq-ok (parse_entries text (e.profile ∷ seen) parts) _ h0 in
    let (taken, distinct) = parse_entries-IsTaken text (e.profile ∷ seen) parts rest later in
    let (weaker, apart) = not_seen e.profile seen rest taken in
    let both : All (IsTaken seen) (e ∷ rest) × Distinct (profiles_of (e ∷ rest)) =
      ((parse_entry-IsTaken text seen part e first, weaker), (apart, distinct)) in
    subst (λ (xs : List MigPartitionEntry). All (IsTaken seen) xs × Distinct (profiles_of xs))
      (ok_inj h1) both
  where
    ok_inj :
        {xs ys : List MigPartitionEntry}
        → ◌≡◌ {A = Result PartitionFlagError (List MigPartitionEntry)} (ok xs) (ok ys)
        → xs ≡ ys
    ok_inj e = ground arith

-- A layout that the flag describes names each profile once, and gives each from 1 to 2^31 - 1
-- instances, whatever text is accepted.
pub parse_partition-IsEntry :
    (text : Text) (es : List MigPartitionEntry)
    → parse_partition text ≡ ok es
    → All IsEntry es × Distinct (profiles_of es)
unfolding parse_partition
parse_partition-IsEntry text es h = elim (Bool-cases (trim_space text == [])) [
  | inl blank ↦ empty es (rw blank at h)
  | inr more ↦
      let (taken, distinct) = parse_entries-IsTaken text [] (split b',' text) es (rw more at h) in
      (All-imp (λ e t. t.0) es taken, distinct)
]
  where
    empty :
        (es : List MigPartitionEntry)
        → ◌≡◌ {A = Result PartitionFlagError (List MigPartitionEntry)} (ok []) (ok es)
        → All IsEntry es × Distinct (profiles_of es)
    empty [] e = (tt, tt)
    empty (x ∷ xs) e = absurd (cc)
