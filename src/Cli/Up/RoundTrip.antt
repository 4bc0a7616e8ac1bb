-- ===== src/Cli/Up/RoundTrip.antt =====
-- internal/cli/up.go: `ParsePartition` on a text that spells a layout.
use ghostgpu.Base.{
  ℕ, ◌^◌, ◌≤◌, ◌<◌, Bool, true, false, ◌||◌, some, List, [], ◌∷◌, ◌++◌, map, ◌≡◌, refl, ap, arith,
  eqb, ok, Text, codes, text_eq, ◌==◌, All, All-imp, All-append, In, Distinct, is_in, inl, inr,
}
use ghostgpu.Base.Int.{pos, pos_part}
use ghostgpu.Text.{join, format_int, decimal, all_digits, Lacks}
use ghostgpu.Text.Cut.{cut-append}
use ghostgpu.Text.Decimal.{parse_int-decimal, decimal-digits}
use ghostgpu.Text.Split.{split, trim_space, is_space}
use ghostgpu.Text.Parts.{NoneOf, trim_space_id, split-join, join-NoneOf}
use ghostgpu.Api.{MigPartitionEntry}
use ghostgpu.Cli.Up.{parse_entry, entry_of, read_count, parse_entries, parse_partition}
use ghostgpu.Cli.Up.Partitions.{IsEntry, profiles_of}

-- `profile=count`
unfoldable pub print_entry : MigPartitionEntry → Text
unfolding format_int
print_entry e = e.profile ++ (b'=' ∷ format_int e.count)

-- The entries, separated by commas.
unfoldable pub print_partition : List MigPartitionEntry → Text
unfolding print_entry join
print_partition es = join (map print_entry es) (codes ",")

-- What separates entries, or their parts: spaces, commas and equals signs.
abbrev pub is_separator : ℕ → Bool
is_separator c = is_space c || (eqb c b',' || eqb c b'=')

-- An entry whose profile's name has none of those.
abbrev pub IsPrintable : MigPartitionEntry → Type 0
IsPrintable e = IsEntry e × NoneOf is_separator e.profile

digits-NoneOf : (s : Text) → all_digits s ≡ true → NoneOf is_separator s
digits-NoneOf [] h = tt
digits-NoneOf (c ∷ s) h = (ground arith, digits-NoneOf s (ground arith))

-- A printed entry has neither a space nor a comma.
abbrev is_outer : ℕ → Bool
is_outer c = is_space c || eqb c b','

print_entry-NoneOf : (e : MigPartitionEntry) → IsPrintable e → NoneOf is_outer (print_entry e)
unfolding print_entry format_int
print_entry-NoneOf e (entry, plain) =
    All-append (λ c. is_outer c ≡ false) e.profile (b'=' ∷ format_int e.count)
      (All-imp (λ c h. ground arith) e.profile plain)
      (
        refl,
        rw entry.1.0 (
            All-imp (λ c h. ground arith) (decimal (pos_part e.count))
              (digits-NoneOf (decimal (pos_part e.count)) (decimal-digits (pos_part e.count)))),
      )

print_entry-eq :
    (e : MigPartitionEntry)
    → e.count ≡ pos (pos_part e.count)
    → print_entry e ≡ e.profile ++ (b'=' ∷ decimal (pos_part e.count))
unfolding print_entry format_int
print_entry-eq e h = ap (λ c. e.profile ++ (b'=' ∷ format_int c)) h

append-sep-ne-nil : (s : Text) (c : ℕ) (t : Text) → (s ++ (c ∷ t) == []) ≡ false
append-sep-ne-nil [] c t = ground arith
append-sep-ne-nil (d ∷ s) c t = ground arith

read_count-decimal :
    (text profile : Text) (n : ℕ)
    → 1 ≤ n
    → n < 2 ^ 31
    → read_count text profile (some (decimal n)) ≡ ok (pos n)
read_count-decimal text profile n low high =
    let plain : NoneOf is_space (decimal n) =
      All-imp (λ c h. ground arith) (decimal n) (digits-NoneOf (decimal n) (decimal-digits n)) in
    rw (trim_space_id (decimal n) plain, parse_int-decimal (2 ^ 31) n high) (ground arith)

entry_of-printed :
    (text : Text) (seen : List Text) (pair : Text) (e : MigPartitionEntry)
    → IsPrintable e
    → is_in e.profile seen ≡ false
    → entry_of text seen pair e.profile (some (decimal (pos_part e.count))) ≡ ok e
entry_of-printed text seen pair e ((named, (whole, low, high)), plain) new =
    let not_empty : (e.profile == []) ≡ false = ground arith in
    let read = read_count-decimal text e.profile (pos_part e.count) low high in
    rw (not_empty, new, read) (ground arith)

parse_entry-print_entry :
    (text : Text) (seen : List Text) (e : MigPartitionEntry)
    → IsPrintable e
    → is_in e.profile seen ≡ false
    → parse_entry text seen (print_entry e) ≡ ok e
unfolding parse_entry
parse_entry-print_entry text seen e h new =
    let (entry, plain) = h in
    let n = pos_part e.count in
    let spelled : print_entry e ≡ e.profile ++ (b'=' ∷ decimal n) = print_entry-eq e entry.1.0 in
    let trimmed : trim_space (print_entry e) ≡ print_entry e =
      trim_space_id (print_entry e)
        (All-imp (λ c k. ground arith) (print_entry e) (print_entry-NoneOf e h)) in
    let name : trim_space e.profile ≡ e.profile =
      trim_space_id e.profile (All-imp (λ c k. ground arith) e.profile plain) in
    let lacks : Lacks b'=' e.profile = All-imp (λ c k. ground arith) e.profile plain in
    rw
      (
        trimmed,
        spelled,
        append-sep-ne-nil e.profile b'=' (decimal n),
        cut-append b'=' e.profile (decimal n) lacks,
        name,
      )
      (entry_of-printed text seen (e.profile ++ (b'=' ∷ decimal n)) e h new)

parse_entries-print :
    (text : Text) (seen : List Text) (es : List MigPartitionEntry)
    → All IsPrintable es
    → Distinct (profiles_of es)
    → All (λ e. is_in e.profile seen ≡ false) es
    → parse_entries text seen (map print_entry es) ≡ ok es
unfolding parse_entries
parse_entries-print text seen [] h d new = refl
parse_entries-print text seen (e ∷ es) (p, h) (fresh, d) (n, new) =
    rw
      (
        parse_entry-print_entry text seen e p n,
        parse_entries-print text (e.profile ∷ seen) es h d (unseen es fresh new),
      )
      refl
  where
    apart_from :
        (p : Text) → ¬ (e.profile ≡ p) → is_in p seen ≡ false → is_in p (e.profile ∷ seen) ≡ false
    apart_from p apart k = unfold is_in in ground arith

    unseen :
        (xs : List MigPartitionEntry)
        → ¬ In e.profile (profiles_of xs)
        → All (λ x. is_in x.profile seen ≡ false) xs
        → All (λ x. is_in x.profile (e.profile ∷ seen) ≡ false) xs
    unseen [] apart k = tt
    unseen (x ∷ xs) apart (k, ks) =
        (apart_from x.profile (λ q. apart (inl q)) k, unseen xs (λ i. apart (inr i)) ks)

none_seen : (es : List MigPartitionEntry) → All (λ e. is_in e.profile [] ≡ false) es
none_seen [] = tt
none_seen (e ∷ es) = (unfold is_in in refl, none_seen es)

printed-NoneOf :
    (es : List MigPartitionEntry) → All IsPrintable es → All (NoneOf is_outer) (map print_entry es)
printed-NoneOf [] h = tt
printed-NoneOf (e ∷ es) (p, h) = (print_entry-NoneOf e p, printed-NoneOf es h)

join-ne-nil :
    (e : MigPartitionEntry) (es : List MigPartitionEntry)
    → (join (map print_entry (e ∷ es)) (codes ",") == []) ≡ false
unfolding join print_entry
join-ne-nil e [] = append-sep-ne-nil e.profile b'=' (format_int e.count)
join-ne-nil e (x ∷ xs) =
    append-sep-ne-nil (print_entry e) b',' (join (map print_entry (x ∷ xs)) (codes ","))

-- A layout of distinct profiles whose names hold no space, comma or equals sign, each with from 1 to
-- 2^31 - 1 instances, is read back from the text that spells it, `profile=count` separated by commas.
pub parse_partition-print_partition :
    (es : List MigPartitionEntry)
    → All IsPrintable es
    → Distinct (profiles_of es)
    → parse_partition (print_partition es) ≡ ok es
unfolding parse_partition print_partition
parse_partition-print_partition [] h d = rw (trim_space_id [] tt) (ground arith)
parse_partition-print_partition (e ∷ es) h d =
    let parts = map print_entry (e ∷ es) in
    let outer : All (NoneOf is_outer) parts = printed-NoneOf (e ∷ es) h in
    let text = join parts (codes ",") in
    let trimmed : trim_space text ≡ text = trim_space_id text (
      join-NoneOf is_space b',' parts refl
        (All-imp (λ s k. All-imp (λ c i. ground arith) s k) parts outer)) in
    let apart : split b',' text ≡ parts =
      split-join b',' (print_entry e) (map print_entry es)
        (All-imp (λ s k. All-imp (λ c i. ground arith) s k) parts outer) in
    rw (trimmed, join-ne-nil e es, apart)
      (parse_entries-print text [] (e ∷ es) h d (none_seen (e ∷ es)))
