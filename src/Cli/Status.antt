-- ===== src/Cli/Status.antt =====
-- internal/cli/status.go: the report of `ghostgpu status` (`BuildReport` and what it calls). A Go map
-- is an association list; the code sorts what it makes of one. A number that counts the entries of a
-- list is a natural number.
pub mod Pools
pub mod Devices
pub mod Budgets
pub mod Report
use ghostgpu.Base.{
  ℕ, suc, ◌+◌, Bool, true, false, ◌&&◌, ◌||◌, not, Option, none, some, List, [], ◌∷◌, map, ◌≡◌,
  if◌then◌else◌, Text, codes, Eq, text_eq, text_dec, ◌==◌, sort_by,
}
use ghostgpu.Base.Dict.{Dict, lookup, get_or, insert}
use ghostgpu.Base.Int.{ℤ, pos, wrap64, ◌+ℤ◌}
use ghostgpu.Text.Split.{text_leb}
use ghostgpu.Platform.{Platform, binary_si}
use ghostgpu.Api.{
  GpuPool, DeviceTaint, DeviceAttribute, string_value, Device, CounterSet, DeviceCounterConsumption,
  ResourceSlice, sharing_mode_none,
}
use ghostgpu.Gpu.WholeSlice.{driver_name, attr_mig_profile}
use ghostgpu.Gpu.Occupancy.{occupied_taint_key}
use ghostgpu.Gpu.Faults.{faulted_taint_key}
use ghostgpu.Metrics.Claims.{Consumer, DeviceResult, Claim}

abbrev pub counter_slices : Text
counter_slices = codes "slices"

abbrev pub counter_memory : Text
counter_memory = codes "memory"

abbrev pub pool_label : Text
pool_label = codes "ghostgpu.dev/pool"

pub record PoolStatus : Type 0 where
  pub name : Text
  pub mode : Text
  pub nodes : ℤ
  pub devices : ℤ
  pub allocated : ℕ
  pub occupied : ℕ
  pub faulted : ℕ

pub record DeviceStatus : Type 0 where
  pub node : Text
  pub pool : Text
  pub device : Text
  pub profile : Text
  pub allocated : Bool
  pub occupied : Bool
  pub faulted : Bool
  pub pod : Text
  pub namespace : Text

-- `allocation`
pub record Holding : Type 0 where
  pub pod : Text
  pub namespace : Text

abbrev pub no_holding : Holding
no_holding = record { pod = []; namespace = [] }

pub record DeviceKey : Type 0 where
  pub pool : Text
  pub device : Text

device_key_dec : (a b : DeviceKey) → Dec (a ≡ b)
device_key_dec a b = elim (text_dec a.pool b.pool) [
  | no n ↦ no (λ e. n (cc))
  | yes p ↦ elim (text_dec a.device b.device) [ yes q ↦ yes (cc) | no n ↦ no (λ e. n (cc)) ]
]

instance unfoldable pub device_key_eq : Eq DeviceKey
unfolding device_key_dec text_dec
device_key_eq = record { dec = device_key_dec }

abbrev pub Allocated : Type 0
Allocated = Dict DeviceKey Holding

-- The first consumer that is a pod.
unfoldable pub holding_of : Text → List Consumer → Holding
holding_of namespace [] = no_holding
holding_of namespace (c ∷ consumers) =
    let rest = holding_of namespace consumers in
    if c.resource == codes "pods" then record { pod = c.name; namespace = namespace } else rest

-- The loop over the results of a claim.
unfoldable pub allot : Holding → List DeviceResult → Allocated → Allocated
unfolding insert
allot holding [] held = held
allot holding (r ∷ results) held = allot holding results (
    if r.driver == driver_name
    then insert (record { pool = r.pool; device = r.device }) holding held
    else held)

abbrev pub index_claim : Option (List DeviceResult) → Holding → Allocated → Allocated
index_claim none holding held = held
index_claim (some results) holding held = allot holding results held

-- The loop over the claims.
unfoldable pub index_onto : List Claim → Allocated → Allocated
unfolding allot holding_of
index_onto [] held = held
index_onto (c ∷ claims) held =
    index_onto claims (index_claim c.allocation (holding_of c.namespace c.reserved_for) held)

unfoldable pub index_allocations : List Claim → Allocated
unfolding index_onto
index_allocations claims = index_onto claims []

unfoldable pub has_taint : List DeviceTaint → Text → Bool
has_taint [] key = false
has_taint (t ∷ taints) key = let rest = has_taint taints key in if t.key == key then true else rest

module _ (P : Platform) where
  unfoldable pub is_occupied : Device P → Bool
  unfolding has_taint
  is_occupied d = has_taint d.taints occupied_taint_key

  unfoldable pub is_faulted : Device P → Bool
  unfolding has_taint
  is_faulted d = has_taint d.taints faulted_taint_key

  abbrev pub owner_of : ResourceSlice P → Text
  owner_of s = get_or pool_label s.labels []

  abbrev pub key_of : ResourceSlice P → Device P → DeviceKey
  key_of s d = record { pool = s.spec.pool_name; device = d.name }
