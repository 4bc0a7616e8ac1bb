-- ===== src/Tests/OfStatus.antt =====
-- The theorems on the status report at concrete slices and claims.
use ghostgpu.Base.{some, List, [], ◌∷◌, refl, codes, All, text_eq}
use ghostgpu.Base.Dict.{lookup}
use ghostgpu.Platform.Memory.{memory, memory-IsLawful}
use ghostgpu.Api.{ResourceSlice}
use ghostgpu.Metrics.Claims.{Claim}
use ghostgpu.Cli.Status.{index_allocations}
use ghostgpu.Cli.Status.Budgets.{describe_gpus}
use ghostgpu.Cli.Status.Budgets.Spent.{IsCarried, describe_gpus-IsCarried}
use ghostgpu.Cli.Status.Report.{build_report}
use ghostgpu.Cli.Status.Pools.Columns.{Agrees, build_report-Agrees}
use ghostgpu.Tests.Samples.{gib, old_slice, whole_pool}

-- The counters of one GPU, and an instance that draws on them.
abbrev counted_slice : ResourceSlice memory
counted_slice = record old_slice {
  spec = record (old_slice.spec) {
    pool_name = codes "kwok-0";
    shared_counters =
        record {
          name = codes "gpu-0-counters";
          counters = (codes "slices", gib 7) ∷ (codes "memory", gib 40) ∷ [];
        }
        ∷ [];
    devices =
        record {
          name = codes "gpu-0-mig-1g-5gb-0";
          attributes = [];
          capacity = [];
          taints = [];
          consumes_counters =
              record {
                counter_set = codes "gpu-0-counters";
                counters = (codes "slices", gib 1) ∷ (codes "memory", gib 5) ∷ [];
              }
              ∷ [];
        }
        ∷ [];
  };
}

abbrev job_claims : List Claim
job_claims =
    record {
      namespace = codes "default";
      allocation = some (
          record {
            driver = codes "gpu.ghostgpu.dev";
            pool = codes "kwok-0";
            device = codes "gpu-0-mig-1g-5gb-0";
          }
          ∷ []);
      reserved_for = record { resource = codes "pods"; name = codes "train" } ∷ [];
    }
    ∷ []

build_report-Agrees_example :
    let report = build_report memory (whole_pool ∷ []) (counted_slice ∷ []) job_claims in
    All (Agrees memory report.devices) report.pools
unfolding lookup
build_report-Agrees_example =
    build_report-Agrees memory (whole_pool ∷ []) (counted_slice ∷ []) job_claims (refl, tt)

describe_gpus-IsCarried_example :
    let allocated = index_allocations job_claims in
    All
      (IsCarried memory memory-IsLawful allocated (counted_slice ∷ []))
      (describe_gpus memory (counted_slice ∷ []) allocated)
describe_gpus-IsCarried_example =
    describe_gpus-IsCarried memory memory-IsLawful (counted_slice ∷ [])
      (index_allocations job_claims)
