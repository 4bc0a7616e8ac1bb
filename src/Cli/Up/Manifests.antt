-- ===== src/Cli/Up/Manifests.antt =====
-- internal/cli/up.go: `BuildManifests`, from the options to the GPUModel and the GPUPool.
pub mod Accepted
pub mod Layouts
pub mod Operator
use ghostgpu.Base.{
  ℕ, Bool, true, false, ◌&&◌, ◌||◌, not, Option, none, some, List, [], ◌∷◌, ◌++◌, if◌then◌else◌,
  Result, ok, err, ◌>>=◌, ◌>>◌, Text, codes, text_eq, ◌==◌,
}
use ghostgpu.Base.Int.{ℤ, pos, ltb_ℤ, leb_ℤ}
use ghostgpu.Platform.{Platform}
use ghostgpu.Api.{
  MigPartitionEntry, MigProfileSpec, OccupancyEntry, GpuModel, GpuPool, Labels, sharing_mode_none,
  sharing_mode_mig,
}
use ghostgpu.Mig.{Table}
use ghostgpu.Mig.Tables.{profiles_for}
use ghostgpu.Mig.Partition.{PartitionError, validate_partition}
use ghostgpu.Cli.Objects.{new_model, new_pool}
use ghostgpu.Cli.Up.{
  UpOptions, PartitionFlagError, SelectionError, max_gpus_per_node, is_compute_capability,
  parse_partition, parse_selector, mig_selection, to_mig_profiles,
}

-- What the code takes of Kubernetes: the validation of names and of label values, whose results are
-- lists of complaints, and the reading and the sign of a quantity.
pub record Checks (P : Platform) : Type 0 where
  pub subdomain_errors : Text → List Text
  pub label_value_errors : Text → List Text
  pub parse_quantity : Text → Result Text P.Quantity
  pub sign : P.Quantity → ℤ

pub data UpError (P : Platform) : Type 0 where
  name_required : UpError P
  invalid_name : (name : Text) (errors : List Text) → UpError P
  product_required : UpError P
  invalid_product : (product : Text) (errors : List Text) → UpError P
  gpus_out_of_range : (gpus : ℤ) → UpError P
  domain_negative : (size : ℤ) → UpError P
  invalid_capability : (compute : Text) → UpError P
  invalid_memory : (memory error : Text) → UpError P
  memory_not_positive : (memory : Text) → UpError P
  invalid_sharing_mode : (mode : Text) → UpError P
  selection_error : SelectionError → UpError P
  partition_error : PartitionFlagError → UpError P
  layout_error : PartitionError P → UpError P
  profiles_without_mig : UpError P
  partition_without_mig : UpError P
  busy_out_of_range : (gpus busy : ℤ) → UpError P
  invalid_selector : (text : Text) → UpError P

-- `if errs := ...; len(errs) > 0`
abbrev pub none_of : {E : Type 0} → (List Text → E) → List Text → Result E Unit
none_of error [] = ok tt
none_of error (e ∷ es) = err (error (e ∷ es))

-- `if test { return error }`
abbrev pub unless : {E : Type 0} → Bool → E → Result E Unit
unless false error = ok tt
unless true error = err error

-- The error of a callee as an error of the caller.
abbrev pub wrapped : {D E A : Type 0} → (D → E) → Result D A → Result E A
wrapped error (ok a) = ok a
wrapped error (err d) = err (error d)

module _ (P : Platform) (K : Checks P) where
  abbrev pub Checked : Type 0 → Type 0
  Checked = Result (UpError P)

  abbrev pub check_name : Text → Checked Unit
  check_name name = none_of (invalid_name name) (K.subdomain_errors name)

  -- The checks of the names, the numbers and the compute capability.
  unfoldable pub checked_fields : UpOptions → Checked Unit
  unfolding is_compute_capability
  checked_fields opts = do
    unless (opts.name == []) name_required
    check_name opts.name
    check_name (opts.name ++ codes "-pool")
    unless (opts.product == []) product_required
    none_of (invalid_product opts.product) (K.label_value_errors opts.product)
    unless (ltb_ℤ opts.gpus_per_node (pos 1) || ltb_ℤ max_gpus_per_node opts.gpus_per_node)
        (gpus_out_of_range opts.gpus_per_node)
    unless (ltb_ℤ opts.nvlink_domain_size (pos 0)) (domain_negative opts.nvlink_domain_size)
    unless (not (is_compute_capability opts.compute)) (invalid_capability opts.compute)

  unfoldable pub checked_memory : Text → Checked P.Quantity
  checked_memory text = do
    memory ← wrapped (invalid_memory text) (K.parse_quantity text)
    unless (leb_ℤ (K.sign memory) (pos 0)) (memory_not_positive text)
    ok memory

  abbrev pub mode_of : Text → Text
  mode_of mode = if mode == [] then sharing_mode_none else mode

  unfoldable pub checked_mode : Text → Checked Text
  checked_mode mode =
      if not (mode_of mode == sharing_mode_none) && not (mode_of mode == sharing_mode_mig)
      then err (invalid_sharing_mode mode)
      else ok (mode_of mode)

  -- `if len(profiles) > 0 { table.Profiles = toMIGProfiles(profiles) }`
  unfoldable pub restricted : Table P → List (MigProfileSpec P) → Table P
  unfolding to_mig_profiles
  restricted table [] = table
  restricted table (p ∷ ps) = record table { profiles = to_mig_profiles P (p ∷ ps) }

  -- The nil error of `ValidatePartition`.
  abbrev pub fits : Option (PartitionError P) → Checked Unit
  fits none = ok tt
  fits (some e) = err (layout_error e)

  -- A layout, if there is one, against the table of a known product.
  unfoldable pub checked_layout :
      List MigPartitionEntry → List (MigProfileSpec P) → Option (Table P) → Checked Unit
  unfolding restricted validate_partition
  checked_layout [] profiles table = ok tt
  checked_layout (e ∷ es) profiles none = ok tt
  checked_layout (e ∷ es) profiles (some table) =
      fits (validate_partition P (e ∷ es) (restricted table profiles))

  abbrev pub MigParts : Type 0
  MigParts = List (MigProfileSpec P) × List MigPartitionEntry

  unfoldable pub mig_parts : UpOptions → Checked MigParts
  unfolding mig_selection parse_partition checked_layout profiles_for
  mig_parts opts = do
    profiles ← wrapped selection_error (mig_selection P opts)
    partition ← wrapped partition_error (parse_partition opts.mig_partition)
    checked_layout partition profiles (profiles_for P opts.product)
    ok (profiles, partition)

  -- The `switch` on the sharing mode.
  unfoldable pub checked_mig : Text → UpOptions → Checked MigParts
  unfolding mig_parts
  checked_mig mode opts =
      if mode == sharing_mode_mig
      then mig_parts opts
      else if not (opts.mig_profiles == [])
      then err profiles_without_mig
      else if not (opts.mig_partition == [])
      then err partition_without_mig
      else ok ([], [])

  abbrev pub occupancy_of : ℤ → List OccupancyEntry
  occupancy_of busy =
      if ltb_ℤ (pos 0) busy then record { node_selector = []; busy_per_node = busy } ∷ [] else []

  unfoldable pub checked_occupancy : UpOptions → Checked (List OccupancyEntry)
  checked_occupancy opts = do
    unless (ltb_ℤ opts.busy_per_node (pos 0) || ltb_ℤ opts.gpus_per_node opts.busy_per_node)
        (busy_out_of_range opts.gpus_per_node opts.busy_per_node)
    ok (occupancy_of opts.busy_per_node)

  unfoldable pub up_model : UpOptions → P.Quantity → List (MigProfileSpec P) → GpuModel P
  up_model opts memory profiles = new_model P opts.name (record {
    vendor = codes "nvidia";
    product_name = opts.product;
    memory = memory;
    compute_capability = opts.compute;
    mig_profiles = profiles;
    mig_budget = none;
  })

  unfoldable pub up_pool :
      UpOptions → Text → List MigPartitionEntry → List OccupancyEntry → Labels → GpuPool P
  up_pool opts mode partition occupancy selector = new_pool P (opts.name ++ codes "-pool") (record {
    model_ref = opts.name;
    node_selector = selector;
    gpus_per_node = opts.gpus_per_node;
    advertise = record { dra = some opts.dra; extended_resource = some opts.extended_resource };
    mig_partition = partition;
    faults = [];
    utilization = none;
    occupancy = occupancy;
    sharing_mode = mode;
    topology = record {
      nvlink_domain_size = opts.nvlink_domain_size;
      numa_aware = opts.numa_aware;
    };
  })

  unfoldable pub build_manifests : UpOptions → Checked (GpuModel P × GpuPool P)
  unfolding checked_fields checked_memory checked_mode checked_mig checked_occupancy parse_selector
      up_model up_pool
  build_manifests opts = do
    checked_fields opts
    memory ← checked_memory opts.memory
    mode ← checked_mode opts.sharing_mode
    parts ← checked_mig mode opts
    occupancy ← checked_occupancy opts
    selector ← wrapped invalid_selector (parse_selector opts.node_selector)
    ok (up_model opts memory parts.0, up_pool opts mode parts.1 occupancy selector)
