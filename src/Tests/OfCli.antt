-- ===== src/Tests/OfCli.antt =====
-- The theorems on the command line tool at concrete options, nodes, slices and claims.
use mathlib.Core.Path.{subst}
use ghostgpu.Base.{
  ◌⊎◌, ℕ, true, false, none, some, List, [], ◌∷◌, ◌≡◌, refl, sym, ◌∙◌, arith, if◌then◌else◌, ok,
  Text, codes, All, Distinct, is_in, text_eq,
}
use ghostgpu.Base.Dict.{lookup}
use ghostgpu.Text.{contains}
use ghostgpu.Base.Int.{wrap32, ◌+ℤ◌, ◌*ℤ◌, pos, negsuc, ltb_ℤ, ◌≤ℤ◌}
use ghostgpu.Platform.Memory.{memory, read_gi, memory-IsLawful}
use ghostgpu.Api.{MigPartitionEntry, GpuModel, GpuPool}
use ghostgpu.Mig.{Table}
use ghostgpu.Mig.Tables.{profiles_for, a100_40}
use ghostgpu.Controller.Reconcile.{validated}
use ghostgpu.Controller.Reconcile.Rejects.{IsUnfit}
use ghostgpu.Cli.Names.{base_name, pick}
use ghostgpu.Cli.Names.Labels.{IsLabel, base_name-IsLabel}
use ghostgpu.Cli.Names.Fresh.{pick-fresh}
use ghostgpu.Cli.Up.{UpOptions, parse_partition}
use ghostgpu.Cli.Up.Partitions.{IsEntry, profiles_of, parse_partition-IsEntry}
use ghostgpu.Cli.Up.RoundTrip.{IsPrintable, print_partition, parse_partition-print_partition}
use ghostgpu.Cli.Up.Manifests.{Checks, build_manifests}
use ghostgpu.Cli.Up.Manifests.Operator.{build_manifests-validated, build_manifests-undersized}
use ghostgpu.Cli.Command.{UpFlags, Outside, run_up}
use ghostgpu.Cli.Command.Writes.{Goes, applied_store, run_up-Goes}
use ghostgpu.Tests.OfApply.{simple_server}
use ghostgpu.Tests.Samples.{gib, layout}

base_name-IsLabel_example : IsLabel (base_name (codes "NVIDIA H100 80GB HBM3"))
base_name-IsLabel_example = base_name-IsLabel (codes "NVIDIA H100 80GB HBM3")

pick-fresh_example :
    is_in
      (pick (codes "a100" ∷ codes "a100-2" ∷ []) (codes "a100")).0
      (codes "a100" ∷ codes "a100-2" ∷ [])
    ≡ false
pick-fresh_example = pick-fresh (codes "a100" ∷ codes "a100-2" ∷ []) (codes "a100")

parse_partition-IsEntry_example : All IsEntry layout × Distinct (profiles_of layout)
unfolding parse_partition text_eq
parse_partition-IsEntry_example = parse_partition-IsEntry (codes "3g.20gb, 1g.5gb = 2") layout refl

layout-IsPrintable : All IsPrintable layout
layout-IsPrintable = ground arith

parse_partition-print_partition_example : parse_partition (print_partition layout) ≡ ok layout
parse_partition-print_partition_example =
    parse_partition-print_partition layout layout-IsPrintable (parse_partition-IsEntry_example.1)

-- Names and label values are all accepted, and the sign is that of the amount.
abbrev checks : Checks memory
checks = record {
  subdomain_errors = λ name. [];
  label_value_errors = λ name. [];
  parse_quantity = λ text. ok (memory.must_parse text);
  sign = λ q. if ltb_ℤ (pos 0) q then pos 1 else if ltb_ℤ q (pos 0) then negsuc 0 else pos 0;
}

abbrev fleet_of : Text → Text → UpOptions
fleet_of memory_text partition = record {
  name = codes "fleet";
  product = codes "A100-SXM4-40GB";
  memory = memory_text;
  compute = codes "8.0";
  gpus_per_node = pos 2;
  nvlink_domain_size = pos 2;
  numa_aware = true;
  node_selector = codes "type=kwok";
  dra = true;
  extended_resource = false;
  sharing_mode = codes "mig";
  mig_profiles = [];
  mig_partition = partition;
  busy_per_node = pos 1;
}

abbrev fleet_model : ℕ → GpuModel memory
fleet_model n = record {
  name = codes "fleet";
  spec = record {
    vendor = codes "nvidia";
    product_name = codes "A100-SXM4-40GB";
    memory = gib n;
    compute_capability = codes "8.0";
    mig_profiles = [];
    mig_budget = none;
  };
}

abbrev fleet_pool : List MigPartitionEntry → GpuPool memory
fleet_pool partition = record {
  name = codes "fleet-pool";
  generation = pos 0;
  spec = record {
    model_ref = codes "fleet";
    node_selector = (codes "type", codes "kwok") ∷ [];
    gpus_per_node = pos 2;
    advertise = record { dra = some true; extended_resource = some false };
    mig_partition = partition;
    faults = [];
    utilization = none;
    occupancy = record { node_selector = []; busy_per_node = pos 1 } ∷ [];
    sharing_mode = codes "mig";
    topology = record { nvlink_domain_size = pos 2; numa_aware = true };
  };
  status = record {
    conditions = [];
    observed_generation = pos 0;
    nodes_matched = pos 0;
    devices_published = pos 0;
    gpus_occupied = pos 0;
    gpus_faulted = pos 0;
    mig_profiles_published = pos 0;
  };
}

a100_known : profiles_for memory (codes "A100-SXM4-40GB") ≡ some (a100_40 memory)
unfolding profiles_for text_eq contains lookup
a100_known = refl

fleet_built :
    build_manifests memory checks (fleet_of (codes "40Gi") (codes "3g.20gb,1g.5gb=2"))
    ≡ ok (fleet_model 40, fleet_pool layout)
unfolding build_manifests text_eq read_gi contains lookup wrap32 ◌+ℤ◌ ◌*ℤ◌
fleet_built = refl

small_built :
    build_manifests memory checks (fleet_of (codes "20Gi") []) ≡ ok (fleet_model 20, fleet_pool [])
unfolding build_manifests text_eq read_gi contains
small_built = refl

-- The built-in card has 40 GiB.
card_memory :
    (t : Table memory)
    → profiles_for memory (codes "A100-SXM4-40GB") ≡ some t
    → t.budget.memory ≤ℤ gib 40
unfolding read_gi
card_memory t e =
    let same : t ≡ a100_40 memory = some_inj t (a100_40 memory) (sym e ∙ a100_known) in
    subst (λ t. t.budget.memory ≤ℤ gib 40) (sym same) (ground arith)
  where
    some_inj : (a b : Table memory) → some a ≡ some b → a ≡ b
    some_inj a b h = cc

build_manifests-validated_example :
    (t : Table memory) × (validated memory (fleet_pool layout) (fleet_model 40) ≡ ok t)
unfolding memory-IsLawful
build_manifests-validated_example =
    build_manifests-validated memory checks memory-IsLawful
      (fleet_of (codes "40Gi") (codes "3g.20gb,1g.5gb=2")) (fleet_model 40) (fleet_pool layout)
      fleet_built card_memory

build_manifests-undersized_example : IsUnfit memory (fleet_pool []) (fleet_model 20)
unfolding read_gi memory-IsLawful
build_manifests-undersized_example =
    build_manifests-undersized memory checks memory-IsLawful (fleet_of (codes "20Gi") [])
      (fleet_model 20) (fleet_pool []) (a100_40 memory) small_built refl refl a100_known
      (ground arith)

abbrev up_flags : UpFlags
up_flags = record {
  given = fleet_of (codes "40Gi") (codes "3g.20gb,1g.5gb=2");
  gpus = pos 2;
  nvlink = pos 2;
  busy = pos 1;
  dry_run = false;
  waits = false;
}

abbrev reachable : Outside memory
reachable = record { connection = ok tt; render = λ objects. ok []; polls = [] }

run_up-Goes_example :
    let store = (run_up memory simple_server checks up_flags reachable []).store in
    ((g : Goes memory checks up_flags reachable) × (store
        ≡ applied_store memory checks simple_server g.model g.pool []))
    ⊎ ((¬ Goes memory checks up_flags reachable) × (store ≡ []))
run_up-Goes_example = run_up-Goes memory checks simple_server up_flags reachable []
