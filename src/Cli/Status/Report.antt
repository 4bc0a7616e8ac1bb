-- ===== src/Cli/Status/Report.antt =====
-- internal/cli/status.go: `BuildReport`, and the tables that are printed of a report. A table is the
-- list of its rows, each the list of its cells; text/tabwriter aligns them.
use ghostgpu.Base.{
  Bool, true, List, [], ◌∷◌, ◌++◌, map, keep, if◌then◌else◌, Text, codes, text_eq, ◌==◌,
}
use ghostgpu.Base.Int.{ℤ, pos, ◌-ℤ◌, max_ℤ}
use ghostgpu.Text.{format_int}
use ghostgpu.Platform.{Platform}
use ghostgpu.Api.{GpuPool, ResourceSlice}
use ghostgpu.Metrics.Claims.{Claim}
use ghostgpu.Cli.Status.{PoolStatus, DeviceStatus, index_allocations}
use ghostgpu.Cli.Status.Pools.{summarise_pools}
use ghostgpu.Cli.Status.Devices.{describe_devices}
use ghostgpu.Cli.Status.Budgets.{GpuStatus, describe_gpus}

abbrev pub Row : Type 0
Row = List Text

-- The devices of a pool that are neither failed, nor occupied, nor allocated, and never below zero.
unfoldable pub free_devices : PoolStatus → ℤ
unfolding ◌-ℤ◌
free_devices p = max_ℤ (pos 0) (p.devices -ℤ pos p.allocated -ℤ pos p.occupied -ℤ pos p.faulted)

unfoldable pub pool_row : PoolStatus → Row
unfolding free_devices format_int
pool_row p =
    p.name
    ∷ p.mode
    ∷ format_int p.nodes
    ∷ format_int p.devices
    ∷ format_int (pos p.faulted)
    ∷ format_int (pos p.occupied)
    ∷ format_int (pos p.allocated)
    ∷ format_int (free_devices p)
    ∷ []

-- The status of a device and its holder; what the scheduler says comes first, then a failure.
unfoldable pub status_and_holder : DeviceStatus → Text × Text
status_and_holder d =
    if d.allocated
    then (
      codes "allocated",
      if d.pod == [] then codes "(unreserved)" else d.namespace ++ (b'/' ∷ d.pod),
    )
    else if d.faulted
    then (codes "faulted", codes "(failed)")
    else if d.occupied
    then (codes "occupied", codes "(declared)")
    else (codes "free", codes "-")

unfoldable pub device_row : DeviceStatus → Row
unfolding status_and_holder
device_row d =
    let (status, holder) = status_and_holder d in
    d.node ∷ d.device ∷ (if d.profile == [] then codes "-" else d.profile) ∷ status ∷ holder ∷ []

-- `if node != "" && d.Node != node { continue }`
abbrev pub is_shown : Text → Text → Bool
is_shown node of = if node == [] then true else of == node

unfoldable pub render_devices : List DeviceStatus → Text → List Row
unfolding device_row
render_devices devices node =
    (codes "NODE" ∷ codes "DEVICE" ∷ codes "PROFILE" ∷ codes "STATUS" ∷ codes "POD" ∷ [])
    ∷ map device_row (keep (λ d. is_shown node d.node) devices)

unfoldable pub render_pools : List PoolStatus → List Row
unfolding pool_row
render_pools pools =
    (codes "POOL"
      ∷ codes "MODE"
      ∷ codes "NODES"
      ∷ codes "DEVICES"
      ∷ codes "FAULTED"
      ∷ codes "OCCUPIED"
      ∷ codes "ALLOCATED"
      ∷ codes "FREE"
      ∷ [])
    ∷ map pool_row pools

module _ (P : Platform) where
  pub record Report : Type 0 where
    pub pools : List PoolStatus
    pub devices : List DeviceStatus
    pub gpus : List (GpuStatus P)

  unfoldable pub build_report : List (GpuPool P) → List (ResourceSlice P) → List Claim → Report
  unfolding index_allocations summarise_pools describe_devices describe_gpus
  build_report pools published claims =
      let allocated = index_allocations claims in
      record {
        pools = summarise_pools P pools published allocated;
        devices = describe_devices P published allocated;
        gpus = describe_gpus P published allocated;
      }

  unfoldable pub gpu_row : GpuStatus P → Row
  unfolding format_int
  gpu_row g =
      g.node
      ∷ g.counter_set
      ∷ (format_int g.used_slices ++ (b'/' ∷ format_int g.total_slices))
      ∷ (P.print g.used_memory ++ (b'/' ∷ P.print g.total_memory))
      ∷ []

  unfoldable pub render_gpus : List (GpuStatus P) → Text → List Row
  unfolding gpu_row
  render_gpus gpus node =
      (codes "NODE" ∷ codes "GPU" ∷ codes "SLICES" ∷ codes "MEMORY" ∷ [])
      ∷ map gpu_row (keep (λ g. is_shown node g.node) gpus)
