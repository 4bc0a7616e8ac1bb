-- ===== src/Cli/Capture/Layout.antt =====
-- internal/cli/capture.go: the per-GPU layout that a node's MIG resources describe (`migLayout`).
use ghostgpu.Base.{
  Bool, true, false, ◌&&◌, eqb, Option, none, some, List, [], ◌∷◌, ◌++◌, if◌then◌else◌, Text,
  text_eq, sort_by,
}
use ghostgpu.Base.Dict.{Dict, lookup, get_or, keys}
use ghostgpu.Base.Int.{ℤ, pos, pos_part, neg_part, ltb_ℤ, quot, rem, wrap32, mul64}
use ghostgpu.Text.Split.{text_leb}
use ghostgpu.Platform.{Platform}
use ghostgpu.Api.{MigPartitionEntry, MigProfileSpec}
use ghostgpu.Mig.{Profile, Table}
use ghostgpu.Mig.Parse.{parse_profile_name}
use ghostgpu.Mig.Tables.{profiles_for}
use ghostgpu.Mig.Partition.{PartitionError, validate_partition}
use ghostgpu.Cli.Up.{spec_of, to_mig_profiles}
use ghostgpu.Cli.Capture.{
  Warning, unreadable_profile, fewer_than_gpus, not_uniform, too_many, no_table, does_not_fit,
  max_instances_per_gpu, default_mig_slices,
}

abbrev pub new_entry : Text → ℤ → MigPartitionEntry
new_entry profile count = record { profile = profile; count = count }

abbrev pub is_zero : ℤ → Bool
is_zero n = eqb (pos_part n) 0 && eqb (neg_part n) 0

module _ (P : Platform) where
  -- `migLayoutResult` with the warnings.
  pub record LayoutResult : Type 0 where
    pub partition : List MigPartitionEntry
    pub profiles : List (MigProfileSpec P)
    pub warnings : List (Warning P)

  abbrev pub no_layout : LayoutResult
  no_layout = record { partition = []; profiles = []; warnings = [] }

  -- One result in front of another.
  abbrev pub followed : LayoutResult → LayoutResult → LayoutResult
  followed a b = record {
    partition = a.partition ++ b.partition;
    profiles = a.profiles ++ b.profiles;
    warnings = a.warnings ++ b.warnings;
  }

  abbrev pub capped : ℤ → ℤ
  capped per_gpu = if ltb_ℤ max_instances_per_gpu per_gpu then max_instances_per_gpu else per_gpu

  -- The warnings about a count that is kept.
  unfoldable pub count_warnings : Text → Text → ℤ → ℤ → ℤ → List (Warning P)
  unfolding rem
  count_warnings node profile total gpus per_gpu =
      (if is_zero (rem total gpus)
        then []
        else not_uniform node total profile gpus per_gpu (mul64 per_gpu gpus) ∷ [])
      ++ (if ltb_ℤ max_instances_per_gpu per_gpu
          then too_many node per_gpu profile max_instances_per_gpu ∷ []
          else [])

  -- A profile that can be read.
  unfoldable pub read_layout : Text → Bool → ℤ → Text → ℤ → Profile P → LayoutResult
  unfolding quot wrap32 count_warnings
  read_layout node known gpus profile total shape =
      let per_gpu = quot total gpus in
      if ltb_ℤ per_gpu (pos 1)
      then record {
        partition = [];
        profiles = [];
        warnings = fewer_than_gpus node total profile gpus ∷ [];
      }
      else record {
        partition = new_entry profile (wrap32 (capped per_gpu)) ∷ [];
        profiles = if known then [] else spec_of P shape ∷ [];
        warnings = count_warnings node profile total gpus per_gpu;
      }

  abbrev pub profile_layout : Text → Bool → ℤ → Text → ℤ → Option (Profile P) → LayoutResult
  profile_layout node known gpus profile total none = record {
    partition = [];
    profiles = [];
    warnings = unreadable_profile node profile ∷ [];
  }
  profile_layout node known gpus profile total (some shape) =
      read_layout node known gpus profile total shape

  -- The loop over the profiles, in order.
  unfoldable pub layout_of : Text → Bool → ℤ → Dict Text ℤ → List Text → LayoutResult
  unfolding lookup parse_profile_name read_layout
  layout_of node known gpus resources [] = no_layout
  layout_of node known gpus resources (profile ∷ profiles) =
      followed
        (profile_layout node known gpus profile (get_or profile resources (pos 0))
          (parse_profile_name P profile))
        (layout_of node known gpus resources profiles)

  abbrev pub is_known : Option (Table P) → Bool
  is_known none = false
  is_known (some t) = true

  -- The table that the layout is checked against.
  abbrev pub table_for : Option (Table P) → P.Quantity → List (MigProfileSpec P) → Table P
  table_for (some t) memory profiles = t
  table_for none memory profiles = record {
    budget = record { memory = memory; slices = default_mig_slices };
    profiles = to_mig_profiles P profiles;
  }

  abbrev pub fit_warnings : Text → Option (PartitionError P) → List (Warning P)
  fit_warnings node none = []
  fit_warnings node (some e) = does_not_fit node e ∷ []

  abbrev pub with_warnings : List (Warning P) → LayoutResult → LayoutResult
  with_warnings more r = record r { warnings = r.warnings ++ more }

  unfoldable pub checked_layout : Text → Option (Table P) → P.Quantity → LayoutResult → LayoutResult
  unfolding to_mig_profiles validate_partition
  checked_layout node built_in memory r =
      with_warnings
        (fit_warnings node
          (validate_partition P r.partition (table_for built_in memory r.profiles)))
        r

  -- Without resources there is nothing to derive a layout from.
  abbrev pub without_resources : Text → Text → Option (Table P) → LayoutResult
  without_resources node product built_in =
      with_warnings (if is_known built_in then [] else no_table node product ∷ []) no_layout

  abbrev pub layout_from :
      Text → Text → P.Quantity → Dict Text ℤ → ℤ → Option (Table P) → LayoutResult
  layout_from node product memory [] gpus built_in = without_resources node product built_in
  layout_from node product memory (r ∷ rs) gpus built_in =
      checked_layout node built_in memory
        (layout_of node (is_known built_in) gpus (r ∷ rs) (sort_by text_leb (keys (r ∷ rs))))

  unfoldable pub mig_layout : Text → Text → P.Quantity → Dict Text ℤ → ℤ → LayoutResult
  unfolding checked_layout layout_of profiles_for sort_by text_leb
  mig_layout node product memory resources gpus =
      layout_from node product memory resources gpus (profiles_for P product)
