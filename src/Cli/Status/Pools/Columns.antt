-- ===== src/Cli/Status/Pools/Columns.antt =====
-- internal/cli/status.go: the columns of the summary and the list of the devices.
use ghostgpu.Base.{
  ℕ, suc, ◌+◌, Bool, ◌&&◌, not, List, [], ◌∷◌, map, ◌≡◌, refl, sym, ◌∙◌, arith, if◌then◌else◌, Text,
  text_eq, ◌==◌, All, count_if, count_if-append, sort_by-count, sort_by-All, map-All,
}
use ghostgpu.Base.Dict.{get_or, lookup-nil, DistinctKeys}
use ghostgpu.Platform.{Platform}
use ghostgpu.Api.{GpuPool, Device, ResourceSlice}
use ghostgpu.Metrics.Claims.{Claim}
use ghostgpu.Cli.Status.{
  PoolStatus, DeviceStatus, device_key_eq, Allocated, owner_of, key_of, index_allocations,
}
use ghostgpu.Cli.Status.Pools.{
  count_allocated, note_slices, Tally, tally_device, tally_devices, tally_slices, pool_status,
  pool_before, summarise_pools,
}
use ghostgpu.Cli.Status.Report.{build_report}
use ghostgpu.Cli.Status.Devices.{device_status, device_rows, device_before, describe_devices}
use ghostgpu.Cli.Status.Pools.Allocations.{
  get_or-increment, owned, get_or-count_allocated, owners, lookup-note_slices, owned_congr, held,
  owned-eq-held, held-append, index_onto-DistinctKeys,
}

module _ (P : Platform) where
  abbrev is_allocated : Text → DeviceStatus → Bool
  is_allocated n r = (n == r.pool) && r.allocated

  abbrev is_failed : Text → DeviceStatus → Bool
  is_failed n r = (n == r.pool) && r.faulted

  abbrev is_busy : Text → DeviceStatus → Bool
  is_busy n r = (n == r.pool) && (not r.faulted && r.occupied)

  held-devices :
      (n : Text) (allocated : Allocated) (s : ResourceSlice P) (devices : List (Device P))
      → held n allocated (map (λ d. (key_of P s d, owner_of P s)) devices)
        ≡ count_if (is_allocated n) (map (device_status P allocated s) devices)
  unfolding held device_status
  held-devices n allocated s [] = refl
  held-devices n allocated s (d ∷ devices) = ground (arith, held-devices n allocated s devices)

  held-device_rows :
      (n : Text) (allocated : Allocated) (published : List (ResourceSlice P))
      → held n allocated (owners P published)
        ≡ count_if (is_allocated n) (device_rows P published allocated)
  unfolding device_rows
  held-device_rows n allocated [] = unfold held in refl
  held-device_rows n allocated (s ∷ slices) =
      let here = map (device_status P allocated s) s.spec.devices in
      let later = device_rows P slices allocated in
      omega (
        arith,
        held-append n allocated (map (λ d. (key_of P s d, owner_of P s)) s.spec.devices)
            (owners P slices),
        held-devices n allocated s s.spec.devices,
        held-device_rows n allocated slices,
        count_if-append (is_allocated n) here later,
      )

  -- What one device adds to the two tallies.
  tally_device-faulted :
      (n : Text) (allocated : Allocated) (s : ResourceSlice P) (d : Device P) (t : Tally P)
      → get_or n (tally_device P s d t).faulted 0 ≡ (
          if is_failed n (device_status P allocated s d)
          then suc (get_or n t.faulted 0)
          else get_or n t.faulted 0)
  unfolding tally_device device_status
  tally_device-faulted n allocated s d t =
      ground (arith, get_or-increment n (owner_of P s) t.faulted)

  tally_device-occupied :
      (n : Text) (allocated : Allocated) (s : ResourceSlice P) (d : Device P) (t : Tally P)
      → get_or n (tally_device P s d t).occupied 0 ≡ (
          if is_busy n (device_status P allocated s d)
          then suc (get_or n t.occupied 0)
          else get_or n t.occupied 0)
  unfolding tally_device device_status
  tally_device-occupied n allocated s d t =
      ground (arith, get_or-increment n (owner_of P s) t.occupied)

  -- What all devices add.
  abbrev Tallied : Text → List DeviceStatus → Tally P → Tally P → Type 0
  Tallied n rows t u =
      (get_or n u.faulted 0 ≡ get_or n t.faulted 0 + count_if (is_failed n) rows)
      × (get_or n u.occupied 0 ≡ get_or n t.occupied 0 + count_if (is_busy n) rows)

  tally_devices-Tallied :
      (n : Text) (allocated : Allocated) (s : ResourceSlice P) (devices : List (Device P))
      (t : Tally P)
      → Tallied n (map (device_status P allocated s) devices) t (tally_devices P s devices t)
  unfolding tally_devices
  tally_devices-Tallied n allocated s [] t = (omega arith, omega arith)
  tally_devices-Tallied n allocated s (d ∷ devices) t =
      let (failed, busy) = tally_devices-Tallied n allocated s devices (tally_device P s d t) in
      (
        failed ∙ ground (arith, tally_device-faulted n allocated s d t),
        busy ∙ ground (arith, tally_device-occupied n allocated s d t),
      )

  tally_slices-Tallied :
      (n : Text) (allocated : Allocated) (published : List (ResourceSlice P)) (t : Tally P)
      → Tallied n (device_rows P published allocated) t (tally_slices P published t)
  unfolding tally_slices device_rows
  tally_slices-Tallied n allocated [] t = (omega arith, omega arith)
  tally_slices-Tallied n allocated (s ∷ slices) t =
      let here = map (device_status P allocated s) s.spec.devices in
      let later = device_rows P slices allocated in
      let (f0, o0) = tally_devices-Tallied n allocated s s.spec.devices t in
      let (f1, o1) = tally_slices-Tallied n allocated slices (tally_devices P s s.spec.devices t) in
      (
        omega (arith, f0, f1, count_if-append (is_failed n) here later),
        omega (arith, o0, o1, count_if-append (is_busy n) here later),
      )

  -- What the columns of a pool have to be, by the list of the devices.
  pub record Agrees (rows : List DeviceStatus) (st : PoolStatus) : Type 0 where
    pub allocated_lem : st.allocated ≡ count_if (λ r. (st.name == r.pool) && r.allocated) rows
    pub faulted_lem : st.faulted ≡ count_if (λ r. (st.name == r.pool) && r.faulted) rows
    pub occupied_lem :
        st.occupied ≡ count_if (λ r. (st.name == r.pool) && (not r.faulted && r.occupied)) rows

  -- The allocated devices of a pool, counted by their keys, are rows of the list.
  owned-rows :
      (n : Text) (allocated : Allocated) (published : List (ResourceSlice P))
      → DistinctKeys (owners P published)
      → DistinctKeys allocated
      → owned (note_slices P published []) n allocated
        ≡ count_if (is_allocated n) (describe_devices P published allocated)
  unfolding describe_devices
  owned-rows n allocated published u v =
      owned_congr (note_slices P published []) (owners P published) n allocated
        (λ k. lookup-note_slices P published k u)
      ∙ owned-eq-held (owners P published) n allocated u v
      ∙ held-device_rows n allocated published
      ∙ sym (sort_by-count device_before (is_allocated n) (device_rows P published allocated))

  pool_status-Agrees :
      (published : List (ResourceSlice P)) (allocated : Allocated) (p : GpuPool P)
      → DistinctKeys (owners P published)
      → DistinctKeys allocated
      → Agrees (describe_devices P published allocated) (
          pool_status P
            (count_allocated (note_slices P published []) allocated [])
            (tally_slices P published (record { occupied = []; faulted = [] }))
            p)
  unfolding pool_status describe_devices
  pool_status-Agrees published allocated p u v =
      let n = p.name in
      let rows = device_rows P published allocated in
      let (failed, busy) =
        tally_slices-Tallied n allocated published (record { occupied = []; faulted = [] }) in
      record {
        allocated_lem =
            get_or-count_allocated (note_slices P published []) n allocated []
            ∙ nothing_before n _ (owned-rows n allocated published u v);
        faulted_lem =
            failed ∙ nothing_before n _ (sym (sort_by-count device_before (is_failed n) rows));
        occupied_lem =
            busy ∙ nothing_before n _ (sym (sort_by-count device_before (is_busy n) rows));
      }
    where
      nothing_before : (n : Text) {m : ℕ} (k : ℕ) → m ≡ k → get_or n [] 0 + m ≡ k
      nothing_before n k e = ground (arith, lookup-nil {V = ℕ} n)

  -- If no two published devices share pool and name, the columns of the summary are what the list of
  -- the devices shows for each pool: as many devices allocated, as many failed, and as many occupied
  -- and not failed.
  pub build_report-Agrees :
      (pools : List (GpuPool P)) (published : List (ResourceSlice P)) (claims : List Claim)
      → DistinctKeys (owners P published)
      → let report = build_report P pools published claims in
        All (Agrees report.devices) report.pools
  unfolding build_report summarise_pools index_allocations
  build_report-Agrees pools published claims u =
      let allocated = index_allocations claims in
      let counts = count_allocated (note_slices P published []) allocated [] in
      let t = tally_slices P published (record { occupied = []; faulted = [] }) in
      sort_by-All (Agrees (describe_devices P published allocated)) (pool_before P)
        (map (pool_status P counts t) pools)
        (map-All (Agrees (describe_devices P published allocated)) (pool_status P counts t) pools
          (λ p. pool_status-Agrees published allocated p u (index_onto-DistinctKeys claims [] tt)))
