-- ===== src/Tests/OfApply.antt =====
-- The theorems on `Apply` and `WaitForPool` at a concrete server and concrete reads.
use ghostgpu.Base.{
  true, false, none, some, List, [], ◌∷◌, ◌++◌, ◌≡◌, refl, arith, ◌↔◌, Result, ok, err, Option,
  Text, codes, text_eq, All, Bool-cases, ◌==◌, inl, inr,
}
use ghostgpu.Base.Dict.{Dict, lookup, insert, lookup-insert}
use ghostgpu.Base.Int.{pos}
use ghostgpu.Platform.Memory.{memory}
use ghostgpu.Api.{GpuPool}
use ghostgpu.Cli.Objects.{Object, model_object, pool_object, kind_of, name_of}
use ghostgpu.Cli.Apply.{
  ReadError, not_found, Server, apply, PoolReport, Poll, published, wait_for_pool,
}
use ghostgpu.Cli.Apply.Again.{IsServer, IsConfigured, IsDone, apply-twice}
use ghostgpu.Cli.Apply.Wait.{Reaches, wait_for_pool-published_iff}
use ghostgpu.Tests.Samples.{model, whole_pool}

abbrev pub key : Text → Text → Text
key kind name = kind ++ (b'/' ∷ name)

abbrev pub version_or_not_found : Option Text → Result ReadError Text
version_or_not_found none = err not_found
version_or_not_found (some version) = ok version

-- A server whose store is the versions of the objects.
abbrev pub simple_server : Server memory
simple_server = record {
  Store = Dict Text Text;
  get = λ kind name store. version_or_not_found (lookup (key kind name) store);
  create = λ o store. (ok tt, insert (key (kind_of memory o) (name_of memory o)) (codes "1") store);
  update = λ o version store.
      (ok tt, insert (key (kind_of memory o) (name_of memory o)) (codes "2") store);
}

inserted-keeps :
    (at k value : Text) (store : Dict Text Text)
    → (version : Text) × (version_or_not_found (lookup at store) ≡ ok version)
    → (version : Text) × (version_or_not_found (lookup at (insert k value store)) ≡ ok version)
inserted-keeps at k value store h = elim (Bool-cases (at == k)) [
  | inl same ↦ (value, rw (lookup-insert at k value store, same) refl)
  | inr other ↦ rw (lookup-insert at k value store, other) h
]

inserted-IsThere :
    (k value : Text) (store : Dict Text Text)
    → (version : Text) × (version_or_not_found (lookup k (insert k value store)) ≡ ok version)
inserted-IsThere k value store =
    let same : (k == k) ≡ true = ground arith in
    (value, rw (lookup-insert k k value store, same) refl)

simple_server-IsServer : IsServer memory simple_server
simple_server-IsServer = record {
  get-create = λ o store done.
      inserted-IsThere (key (kind_of memory o) (name_of memory o)) (codes "1") store;
  get-update = λ o version store done.
      inserted-IsThere (key (kind_of memory o) (name_of memory o)) (codes "2") store;
  create-keeps = λ o store kind name h.
      inserted-keeps (key kind name) (key (kind_of memory o) (name_of memory o)) (codes "1") store
        h;
  update-keeps = λ o version store kind name h.
      inserted-keeps (key kind name) (key (kind_of memory o) (name_of memory o)) (codes "2") store
        h;
}

abbrev manifests : List (Object memory)
manifests = model_object model ∷ pool_object whole_pool ∷ []

apply-twice_example :
    let once = apply memory simple_server manifests [] in
    IsDone memory simple_server manifests once
    × All IsConfigured (apply memory simple_server manifests once.store).lines
unfolding apply lookup insert text_eq
apply-twice_example = apply-twice memory simple_server simple_server-IsServer manifests [] refl

-- The pool with its status after the operator has seen it.
abbrev seen_pool : GpuPool memory
seen_pool = record whole_pool {
  status = record (whole_pool.status) {
    observed_generation = pos 3;
    nodes_matched = pos 1;
    devices_published = pos 2;
  };
}

abbrev polls : List (Poll memory)
polls =
    record { read = err not_found; done = false }
    ∷ record { read = ok whole_pool; done = false }
    ∷ record { read = ok seen_pool; done = true }
    ∷ []

abbrev seen_report : PoolReport
seen_report = record { nodes_matched = pos 1; devices_published = pos 2 }

wait_for_pool-published_iff_example :
    (wait_for_pool memory polls ≡ published seen_report) ↔ Reaches memory seen_report polls
wait_for_pool-published_iff_example = wait_for_pool-published_iff memory polls seen_report
