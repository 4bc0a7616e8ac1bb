-- ===== src/Cli/Status/Pools/Allocations.antt =====
-- internal/cli/status.go: how often a pool is counted for the allocated devices.
use ghostgpu.Base.{
  ℕ, suc, ◌+◌, Bool, false, ◌&&◌, Option, none, some, List, [], ◌∷◌, ◌++◌, map, flat_map, ◌≡◌, refl,
  sym, ◌∙◌, ap, arith, if◌then◌else◌, Bool-cases, inl, inr, Text, text_eq, ◌==◌,
}
use ghostgpu.Base.Dict.{
  Dict, lookup, get_or, insert, copy, get_or-insert, lookup-cons, lookup-nil, lookup-copy,
  copy-append, DistinctKeys, insert-DistinctKeys, prefer,
}
use ghostgpu.Platform.{Platform}
use ghostgpu.Api.{Device, ResourceSlice}
use ghostgpu.Metrics.Claims.{DeviceResult, Claim}
use ghostgpu.Gpu.WholeSlice.{driver_name}
use ghostgpu.Cli.Status.{
  DeviceKey, device_key_eq, Holding, Allocated, owner_of, key_of, allot, index_claim, index_onto,
  holding_of,
}
use ghostgpu.Cli.Status.Pools.{increment, count_owner, count_allocated, note_devices, note_slices}
use ghostgpu.Cli.Status.Devices.{is_held}

pub get_or-increment :
    (n m : Text) (counts : Dict Text ℕ)
    → get_or n (increment m counts) 0
      ≡ (if n == m then suc (get_or n counts 0) else get_or n counts 0)
unfolding increment
get_or-increment n m counts = ground (arith, get_or-insert n m (get_or m counts 0 + 1) 0 counts)

-- Whether the owner that was found is the pool.
abbrev owned_by : Text → Option Text → Bool
owned_by n none = false
owned_by n (some owner) = n == owner

-- How many of the allocated devices belong to the pool.
unfoldable pub owned : Dict DeviceKey Text → Text → Allocated → ℕ
owned pool_of n [] = 0
owned pool_of n ((k, h) ∷ allocated) =
    let rest = owned pool_of n allocated in if owned_by n (lookup k pool_of) then suc rest else rest

pub get_or-count_allocated :
    (pool_of : Dict DeviceKey Text) (n : Text) (allocated : Allocated) (counts : Dict Text ℕ)
    → get_or n (count_allocated pool_of allocated counts) 0
      ≡ get_or n counts 0 + owned pool_of n allocated
unfolding count_allocated owned
get_or-count_allocated pool_of n [] counts = omega arith
get_or-count_allocated pool_of n ((k, h) ∷ allocated) counts =
    get_or-count_allocated pool_of n allocated (count_owner (lookup k pool_of) counts)
    ∙ one (lookup k pool_of)
  where
    one :
        (o : Option Text)
        → get_or n (count_owner o counts) 0 + owned pool_of n allocated
          ≡ get_or n counts 0
            + (if owned_by n o then suc (owned pool_of n allocated) else owned pool_of n allocated)
    one none = refl
    one (some owner) = ground (arith, get_or-increment n owner counts)

module _ (P : Platform) where
  -- The published devices with their pools, in order.
  abbrev pub owners : List (ResourceSlice P) → Dict DeviceKey Text
  owners = flat_map (λ s. map (λ d. (key_of P s d, owner_of P s)) s.spec.devices)

  note_devices-copy :
      (s : ResourceSlice P) (devices : List (Device P)) (pool_of : Dict DeviceKey Text)
      → note_devices P s devices pool_of
        ≡ copy pool_of (map (λ d. (key_of P s d, owner_of P s)) devices)
  unfolding note_devices copy
  note_devices-copy s [] pool_of = refl
  note_devices-copy s (d ∷ devices) pool_of =
      note_devices-copy s devices (insert (key_of P s d) (owner_of P s) pool_of)

  note_slices-copy :
      (slices : List (ResourceSlice P)) (pool_of : Dict DeviceKey Text)
      → note_slices P slices pool_of ≡ copy pool_of (owners slices)
  unfolding note_slices
  note_slices-copy [] pool_of = unfold copy in refl
  note_slices-copy (s ∷ slices) pool_of =
      note_slices-copy slices (note_devices P s s.spec.devices pool_of)
      ∙ ap (λ d. copy d (owners slices)) (note_devices-copy s s.spec.devices pool_of)
      ∙ sym (
          copy-append pool_of (map (λ d. (key_of P s d, owner_of P s)) s.spec.devices)
            (owners slices))

  -- `poolOf` finds the published devices' pools.
  pub lookup-note_slices :
      (slices : List (ResourceSlice P)) (k : DeviceKey)
      → DistinctKeys (owners slices)
      → lookup k (note_slices P slices []) ≡ lookup k (owners slices)
  lookup-note_slices slices k d =
      rw (note_slices-copy slices [], lookup-copy k [] (owners slices) d, lookup-nil k)
        (prefer-none (lookup k (owners slices)))
    where
      prefer-none : (o : Option Text) → prefer o none ≡ o
      prefer-none none = refl
      prefer-none (some v) = refl

pub owned_congr :
    (a b : Dict DeviceKey Text) (n : Text) (allocated : Allocated)
    → ((k : DeviceKey) → lookup k a ≡ lookup k b)
    → owned a n allocated ≡ owned b n allocated
unfolding owned
owned_congr a b n [] h = refl
owned_congr a b n ((k, _) ∷ allocated) h = rw (h k, owned_congr a b n allocated h) refl

-- One more published device adds one if its pool is the pool and it is allocated.
owned-cons :
    (k : DeviceKey) (owner : Text) (d : Dict DeviceKey Text) (n : Text) (allocated : Allocated)
    → lookup k d ≡ none
    → DistinctKeys allocated
    → owned ((k, owner) ∷ d) n allocated ≡ (
        if (n == owner) && is_held (lookup k allocated)
        then suc (owned d n allocated)
        else owned d n allocated)
unfolding owned
owned-cons k owner d n [] fresh u = rw (lookup-nil k) (ground arith)
owned-cons k owner d n ((j, h) ∷ allocated) fresh (new, u) = ground (
  arith,
  lookup-cons j k owner d,
  lookup-cons k j h allocated,
  owned-cons k owner d n allocated fresh u,
)

-- The published devices of a pool that are allocated.
unfoldable pub held : Text → Allocated → Dict DeviceKey Text → ℕ
held n allocated [] = 0
held n allocated ((k, owner) ∷ d) =
    let rest = held n allocated d in
    if (n == owner) && is_held (lookup k allocated) then suc rest else rest

owned-nil : (n : Text) (allocated : Allocated) → owned [] n allocated ≡ 0
unfolding owned
owned-nil n [] = refl
owned-nil n ((k, h) ∷ allocated) = rw (lookup-nil k) (owned-nil n allocated)

pub owned-eq-held :
    (d : Dict DeviceKey Text) (n : Text) (allocated : Allocated)
    → DistinctKeys d
    → DistinctKeys allocated
    → owned d n allocated ≡ held n allocated d
unfolding held
owned-eq-held [] n allocated u v = owned-nil n allocated
owned-eq-held ((k, owner) ∷ d) n allocated (fresh, u) v =
    rw (owned-cons k owner d n allocated fresh v, owned-eq-held d n allocated u v) refl

pub held-append :
    (n : Text) (allocated : Allocated) (d e : Dict DeviceKey Text)
    → held n allocated (d ++ e) ≡ held n allocated d + held n allocated e
unfolding held
held-append n allocated [] e = omega arith
held-append n allocated ((k, owner) ∷ d) e = ground (arith, held-append n allocated d e)

allot-DistinctKeys :
    (h : Holding) (results : List DeviceResult) (held : Allocated)
    → DistinctKeys held
    → DistinctKeys (allot h results held)
unfolding allot
allot-DistinctKeys h [] held u = u
allot-DistinctKeys h (r ∷ results) held u = elim (Bool-cases (r.driver == driver_name)) [
  | inl ours ↦ rw ours (
      allot-DistinctKeys h results (insert (result_key r) h held)
        (insert-DistinctKeys (result_key r) h held u))
  | inr other ↦ rw other (allot-DistinctKeys h results held u)
]
  where
    result_key : DeviceResult → DeviceKey
    result_key r = record { pool = r.pool; device = r.device }

index_claim-DistinctKeys :
    (o : Option (List DeviceResult)) (h : Holding) (held : Allocated)
    → DistinctKeys held
    → DistinctKeys (index_claim o h held)
index_claim-DistinctKeys none h held u = u
index_claim-DistinctKeys (some results) h held u = allot-DistinctKeys h results held u

pub index_onto-DistinctKeys :
    (claims : List Claim) (held : Allocated)
    → DistinctKeys held
    → DistinctKeys (index_onto claims held)
unfolding index_onto
index_onto-DistinctKeys [] held u = u
index_onto-DistinctKeys (c ∷ claims) held u =
    let h = holding_of c.namespace c.reserved_for in
    index_onto-DistinctKeys claims (index_claim c.allocation h held)
      (index_claim-DistinctKeys c.allocation h held u)
