-- ===== src/Tests/OfMetrics.antt =====
-- The theorems on the metrics at concrete devices, cards and claims.
use ghostgpu.Base.{true, none, some, List, [], ◌∷◌, ◌≡◌, arith, codes, All, if◌then◌else◌}
use ghostgpu.Base.Int.{pos, ◌≤ℤ◌}
use ghostgpu.Platform.Memory.{memory}
use ghostgpu.Api.{UtilizationSample, UtilizationSpec, string_value, Device, ResourceSlice}
use ghostgpu.Gpu.Faults.{is_faulted, is_occupied, faulted_taint}
use ghostgpu.Gpu.WholeSlice.{whole_device, attr_mig_profile}
use ghostgpu.Controller.Slices.{pool_label}
use ghostgpu.Metrics.Readings.{no_reading}
use ghostgpu.Metrics.Devices.{faulted_xid, occupied}
use ghostgpu.Metrics.Devices.ReadBack.{reported, faulted_xid-whole_device}
use ghostgpu.Metrics.Cards.{Holder, no_holder, Card, Instance, summarize_card}
use ghostgpu.Metrics.Cards.Summary.{summarize_card_bounds}
use ghostgpu.Metrics.Claims.{Claim}
use ghostgpu.Tests.Samples.{whole_pool, model, state, old_slice}

faulted_xid-whole_device_example :
    let d = whole_device memory whole_pool model (codes "kwok-0") state (pos 0) in
    (faulted_xid memory d
      ≡ (if is_faulted state (pos 0) then reported (pos 79) else pos 0, is_faulted state (pos 0)))
    × (occupied memory d ≡ is_occupied state (pos 0))
faulted_xid-whole_device_example =
    faulted_xid-whole_device memory whole_pool model (codes "kwok-0") state (pos 0)
      (omega arith, omega arith)

abbrev idle_job : UtilizationSample
idle_job = record {
  gpu_util = some (pos 0);
  mem_copy_util = none;
  fb_used_percent = none;
  gr_engine_active_percent = none;
  tensor_active_percent = none;
  power_watts = some (pos 60);
  temperature_c = none;
}

abbrev utilization : UtilizationSpec memory
utilization = record {
  when_allocated = none;
  when_idle = none;
  workloads = record { pod_selector = some true; sample = idle_job } ∷ [];
}

abbrev instance_of_card : Instance
instance_of_card = record {
  profile = codes "1g.5gb";
  instance_id = pos 0;
  memory_mib = pos 5120;
  holder = no_holder;
  reading = record no_reading { gpu_util = pos 90; fb_used_percent = pos 100 };
}

abbrev card : Card
card = record {
  node = codes "kwok-0";
  index = pos 0;
  uuid = [];
  product_name = [];
  memory_mib = pos 40960;
  holder = no_holder;
  reading = no_reading;
  instances = instance_of_card ∷ [];
}

summarize_card_bounds_example :
    let r = (summarize_card card).reading in
    (pos 0 ≤ℤ r.fb_used_percent)
    × (r.fb_used_percent ≤ℤ pos 100)
    × All (λ i. i.reading.gpu_util ≤ℤ r.gpu_util) card.instances
summarize_card_bounds_example = summarize_card_bounds card (omega arith)

-- A failed instance, as a node publishes it.
abbrev failed_device : Device memory
failed_device = record {
  name = codes "gpu-0-1g-5gb";
  attributes = (attr_mig_profile, string_value (codes "1g.5gb")) ∷ [];
  capacity = [];
  taints = faulted_taint (codes "Evict") (pos 79) ∷ [];
  consumes_counters = [];
}

abbrev failed_slice : ResourceSlice memory
failed_slice = record old_slice {
  labels = (pool_label, codes "mig") ∷ [];
  spec = record (old_slice.spec) { devices = failed_device ∷ [] };
}

abbrev claims : List Claim
claims =
    record {
      namespace = codes "default";
      allocation = some (
          record {
            driver = codes "gpu.ghostgpu.dev";
            pool = codes "kwok-0";
            device = codes "gpu-0";
          }
          ∷ []);
      reserved_for = record { resource = codes "pods"; name = codes "train" } ∷ [];
    }
    ∷ []

abbrev trainer : Holder
trainer = record { namespace = codes "default"; pod = codes "train"; container = [] }
