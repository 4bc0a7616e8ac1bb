-- ===== src/Cli/Up.antt =====
-- internal/cli/up.go: the flags of `ghostgpu up`, and the manifests that they describe. An error is
-- its constructor with the values that the message prints.
pub mod Selection
pub mod Partitions
pub mod RoundTrip
pub mod Manifests
use ghostgpu.Base.{
  ℕ, zero, suc, ◌^◌, Bool, true, false, ◌&&◌, ◌||◌, not, Option, none, some, List, [], ◌∷◌, ◌++◌,
  map, keep, if◌then◌else◌, Result, ok, err, ◌>>=◌, ◌>>◌, Text, codes, text_eq, ◌==◌, is_in,
  sort_by,
}
use ghostgpu.Base.Dict.{Dict, insert}
use ghostgpu.Base.Int.{ℤ, pos, ltb_ℤ}
use ghostgpu.Text.{parse_int, cut, cut_prefix, leading_digits, after_digits, all_digits}
use ghostgpu.Text.Split.{split, trim_space, text_leb}
use ghostgpu.Platform.{Platform}
use ghostgpu.Api.{
  Labels, MigPartitionEntry, OccupancyEntry, MigProfileSpec, sharing_mode_none, sharing_mode_mig,
}
use ghostgpu.Mig.{Profile, Table}
use ghostgpu.Mig.Tables.{profiles_for}
use ghostgpu.Mig.Partition.{PartitionError, validate_partition}
use ghostgpu.Cli.Objects.{Object, model_object, pool_object, new_model, new_pool}

abbrev pub max_gpus_per_node : ℤ
max_gpus_per_node = pos 128

-- `computeCapabilityPattern`, ^[0-9]+\.[0-9]+$.
unfoldable pub is_compute_capability : Text → Bool
unfolding leading_digits after_digits cut_prefix
is_compute_capability s =
    not (leading_digits s == []) && elim (cut_prefix (codes ".") (after_digits s)) [
      | none ↦ false
      | some minor ↦ not (minor == []) && all_digits minor
    ]

pub record UpOptions : Type 0 where
  pub name : Text
  pub product : Text
  pub memory : Text
  pub compute : Text
  pub gpus_per_node : ℤ
  pub nvlink_domain_size : ℤ
  pub numa_aware : Bool
  pub node_selector : Text
  pub dra : Bool
  pub extended_resource : Bool
  pub sharing_mode : Text
  pub mig_profiles : Text
  pub mig_partition : Text
  pub busy_per_node : ℤ

-- The errors of `ParsePartition`; `text` is the flag's value.
pub data PartitionFlagError : Type 0 where
  empty_entry : (text : Text) → PartitionFlagError
  no_profile : (text pair : Text) → PartitionFlagError
  profile_twice : (text profile : Text) → PartitionFlagError
  not_a_number : (text profile : Text) → PartitionFlagError
  count_below_one : (text profile : Text) (count : ℤ) → PartitionFlagError

-- `profile, countText, hasCount := strings.Cut(pair, "=")`
abbrev pub cut_or_whole : Option (Text × Text) → Text → Text × Option Text
cut_or_whole none pair = (pair, none)
cut_or_whole (some (before, after)) pair = (before, some after)

-- The count of an entry, 1 if it has none.
abbrev pub checked_count : Text → Text → Option ℤ → Result PartitionFlagError ℤ
checked_count text profile none = err (not_a_number text profile)
checked_count text profile (some n) =
    if ltb_ℤ n (pos 1) then err (count_below_one text profile n) else ok n

abbrev pub read_count : Text → Text → Option Text → Result PartitionFlagError ℤ
read_count text profile none = ok (pos 1)
read_count text profile (some count) =
    checked_count text profile (parse_int (2 ^ 31) (trim_space count))

abbrev pub new_entry : Text → ℤ → MigPartitionEntry
new_entry profile count = record { profile = profile; count = count }

-- An entry behind the check of its profile's name.
abbrev pub entry_of :
    Text → List Text → Text → Text → Option Text → Result PartitionFlagError MigPartitionEntry
entry_of text seen pair profile count =
    if profile == []
    then err (no_profile text pair)
    else if is_in profile seen
    then err (profile_twice text profile)
    else do n ← read_count text profile count; ok (new_entry profile n)

-- One round of the loop.
unfoldable pub parse_entry : Text → List Text → Text → Result PartitionFlagError MigPartitionEntry
unfolding cut trim_space is_in parse_int
parse_entry text seen part =
    let pair = trim_space part in
    let (profile, count) = cut_or_whole (cut b'=' pair) pair in
    if pair == []
    then err (empty_entry text)
    else entry_of text seen pair (trim_space profile) count

-- The loop; `seen` are the profiles so far.
unfoldable pub parse_entries :
    Text → List Text → List Text → Result PartitionFlagError (List MigPartitionEntry)
unfolding parse_entry
parse_entries text seen [] = ok []
parse_entries text seen (part ∷ parts) = do
  e ← parse_entry text seen part
  rest ← parse_entries text (e.profile ∷ seen) parts
  ok (e ∷ rest)

unfoldable pub parse_partition : Text → Result PartitionFlagError (List MigPartitionEntry)
unfolding parse_entries split trim_space
parse_partition text =
    if trim_space text == [] then ok [] else parse_entries text [] (split b',' text)

-- One round of the loop of `ParseSelector`; the error is the flag's value.
abbrev pub label_of : Text → Option (Text × Text) → Result Text (Text × Text)
label_of text none = err text
label_of text (some (key, value)) =
    if trim_space key == [] || trim_space value == []
    then err text
    else ok (trim_space key, trim_space value)

unfoldable pub parse_labels : Text → Labels → List Text → Result Text Labels
unfolding cut trim_space insert
parse_labels text labels [] = ok labels
parse_labels text labels (pair ∷ pairs) = do
  l ← label_of text (cut b'=' pair)
  parse_labels text (insert l.0 l.1 labels) pairs

unfoldable pub parse_selector : Text → Result Text Labels
unfolding parse_labels split trim_space
parse_selector text =
    if trim_space text == [] then ok [] else parse_labels text [] (split b',' text)

-- The errors of `migSelection`.
pub data SelectionError : Type 0 where
  no_built_in : (product : Text) → SelectionError
  unsupported : (product : Text) (missing available : List Text) → SelectionError

-- The set of the names in a list of parts, blank ones left out.
unfoldable pub wanted_names : List Text → List Text → List Text
unfolding trim_space is_in
wanted_names wanted [] = wanted
wanted_names wanted (part ∷ parts) =
    let name = trim_space part in
    wanted_names (if name == [] || is_in name wanted then wanted else name ∷ wanted) parts

module _ (P : Platform) where
  abbrev pub spec_of : Profile P → MigProfileSpec P
  spec_of p = record { name = p.name; memory = p.memory; slices = p.slices }

  -- The loop over the table: the profiles that are wanted, and the names that are left.
  unfoldable pub select_profiles :
      List Text → List (Profile P) → List (MigProfileSpec P) × List Text
  unfolding is_in
  select_profiles wanted [] = ([], wanted)
  select_profiles wanted (p ∷ ps) =
      let chosen = is_in p.name wanted in
      let next = if chosen then keep (λ n. not (n == p.name)) wanted else wanted in
      let (selected, left) = select_profiles next ps in
      (if chosen then spec_of p ∷ selected else selected, left)

  abbrev pub selected_or_missing :
      Text
      → Table P
      → List (MigProfileSpec P) × List Text
      → Result SelectionError (List (MigProfileSpec P))
  selected_or_missing product table (selected, []) = ok selected
  selected_or_missing product table (selected, w ∷ ws) =
      err (unsupported product (sort_by text_leb (w ∷ ws)) (map (λ p. p.name) table.profiles))

  abbrev pub selection_from :
      Text → Text → Option (Table P) → Result SelectionError (List (MigProfileSpec P))
  selection_from product profiles none = err (no_built_in product)
  selection_from product profiles (some table) =
      if trim_space profiles == []
      then ok []
      else selected_or_missing product table
          (select_profiles (wanted_names [] (split b',' profiles)) table.profiles)

  unfoldable pub mig_selection : UpOptions → Result SelectionError (List (MigProfileSpec P))
  unfolding profiles_for wanted_names select_profiles trim_space split
  mig_selection opts = selection_from opts.product opts.mig_profiles (profiles_for P opts.product)

  unfoldable pub to_mig_profiles : List (MigProfileSpec P) → List (Profile P)
  to_mig_profiles = map (λ s. record { name = s.name; memory = s.memory; slices = s.slices })
