-- ===== src/Cli/Status/Pools.antt =====
-- internal/cli/status.go: the summary of the pools (`summarisePools`).
pub mod Allocations
pub mod Columns
use ghostgpu.Base.{
  ℕ, suc, ◌+◌, Bool, true, false, Option, none, some, List, [], ◌∷◌, ◌++◌, map, if◌then◌else◌, Text,
  text_eq, ◌==◌, sort_by,
}
use ghostgpu.Base.Dict.{Dict, lookup, get_or, insert}
use ghostgpu.Text.Split.{text_leb}
use ghostgpu.Platform.{Platform}
use ghostgpu.Api.{GpuPool, Device, ResourceSlice, sharing_mode_none}
use ghostgpu.Cli.Status.{
  PoolStatus, DeviceKey, device_key_eq, Holding, Allocated, is_occupied, is_faulted, owner_of,
  key_of,
}

-- `counts[name]++`
unfoldable pub increment : Text → Dict Text ℕ → Dict Text ℕ
unfolding insert lookup
increment name counts = insert name (get_or name counts 0 + 1) counts

-- `if owner, ok := poolOf[key]; ok { counts[owner]++ }`
abbrev pub count_owner : Option Text → Dict Text ℕ → Dict Text ℕ
count_owner none counts = counts
count_owner (some owner) counts = increment owner counts

-- The loop over the allocated devices.
unfoldable pub count_allocated : Dict DeviceKey Text → Allocated → Dict Text ℕ → Dict Text ℕ
unfolding increment lookup
count_allocated pool_of [] counts = counts
count_allocated pool_of ((key, holding) ∷ allocated) counts =
    count_allocated pool_of allocated (count_owner (lookup key pool_of) counts)

module _ (P : Platform) where
  -- The loops that fill `poolOf`.
  unfoldable pub note_devices :
      ResourceSlice P → List (Device P) → Dict DeviceKey Text → Dict DeviceKey Text
  unfolding insert
  note_devices s [] pool_of = pool_of
  note_devices s (d ∷ devices) pool_of =
      note_devices s devices (insert (key_of P s d) (owner_of P s) pool_of)

  unfoldable pub note_slices : List (ResourceSlice P) → Dict DeviceKey Text → Dict DeviceKey Text
  unfolding note_devices
  note_slices [] pool_of = pool_of
  note_slices (s ∷ slices) pool_of = note_slices slices (note_devices s s.spec.devices pool_of)

  -- `occupied` and `faulted`
  pub record Tally : Type 0 where
    pub occupied : Dict Text ℕ
    pub faulted : Dict Text ℕ

  -- The `switch`: a device that is both counts as faulted.
  unfoldable pub tally_device : ResourceSlice P → Device P → Tally → Tally
  unfolding is_faulted is_occupied increment
  tally_device s d t =
      if is_faulted P d
      then record t { faulted = increment (owner_of P s) t.faulted }
      else if is_occupied P d
      then record t { occupied = increment (owner_of P s) t.occupied }
      else t

  unfoldable pub tally_devices : ResourceSlice P → List (Device P) → Tally → Tally
  unfolding tally_device
  tally_devices s [] t = t
  tally_devices s (d ∷ devices) t = tally_devices s devices (tally_device s d t)

  unfoldable pub tally_slices : List (ResourceSlice P) → Tally → Tally
  unfolding tally_devices
  tally_slices [] t = t
  tally_slices (s ∷ slices) t = tally_slices slices (tally_devices s s.spec.devices t)

  abbrev pub mode_of : GpuPool P → Text
  mode_of p = if p.spec.sharing_mode == [] then sharing_mode_none else p.spec.sharing_mode

  -- The status of one pool.
  unfoldable pub pool_status : Dict Text ℕ → Tally → GpuPool P → PoolStatus
  unfolding lookup
  pool_status counts t p = record {
    name = p.name;
    mode = mode_of p;
    nodes = p.status.nodes_matched;
    devices = p.status.devices_published;
    allocated = get_or p.name counts 0;
    occupied = get_or p.name t.occupied 0;
    faulted = get_or p.name t.faulted 0;
  }

  abbrev pub pool_before : PoolStatus → PoolStatus → Bool
  pool_before a b = text_leb a.name b.name

  unfoldable pub summarise_pools :
      List (GpuPool P) → List (ResourceSlice P) → Allocated → List PoolStatus
  unfolding count_allocated note_slices tally_slices pool_status sort_by text_leb
  summarise_pools pools published allocated =
      let counts = count_allocated (note_slices published []) allocated [] in
      let t = tally_slices published (record { occupied = []; faulted = [] }) in
      sort_by pool_before (map (pool_status counts t) pools)
