-- ===== src/Controller/Reconcile/Rejects.antt =====
-- internal/controller/gpupool_controller.go: `Reconcile` on a pool that asks for what cannot be.
use ghostgpu.Base.{
  true, false, Option, none, some, [], ◌∷◌, ◌++◌, ◌≡◌, refl, Result, ok, err, Text, codes,
}
use ghostgpu.Platform.{Platform}
use ghostgpu.Api.{Message, GpuPool, GpuModel, mig_enabled}
use ghostgpu.Mig.{Table}
use ghostgpu.Mig.Resolve.{ResolveError, resolve}
use ghostgpu.Mig.Partition.{PartitionError, validate_partition}
use ghostgpu.Gpu.Occupancy.{OccupancyError, validate_occupancy}
use ghostgpu.Gpu.Faults.{FaultsError, validate_faults}
use ghostgpu.Controller.Client.{Client, World, call, update_status}
use ghostgpu.Controller.Status.{set_ready, resolve_message, partition_message}
use ghostgpu.Controller.Reconcile.{
  Rejection, reject, mig_table, table_checked, validated, reconcile,
}

module _ (P : Platform) where
  -- What makes a pool and its model unfit: with MIG, a model whose table does not resolve or a
  -- partition that does not fit it, an occupancy or faults that the nodes cannot have.
  pub data IsUnfit (pool : GpuPool P) (model : GpuModel P) : Type 0 where
    unresolved :
        (e : ResolveError P)
        → mig_enabled P pool.spec ≡ true
        → resolve P model ≡ err e
        → IsUnfit pool model
    unpartitioned :
        (table : Table P) (e : PartitionError P)
        → mig_enabled P pool.spec ≡ true
        → resolve P model ≡ ok table
        → validate_partition P pool.spec.mig_partition table ≡ some e
        → IsUnfit pool model
    overfull : (e : OccupancyError) → validate_occupancy P pool ≡ some e → IsUnfit pool model
    overfailed : (e : FaultsError) → validate_faults P pool ≡ some e → IsUnfit pool model

  overfull-err :
      (r : Result Rejection (Table P)) (e : OccupancyError) (f : Option FaultsError)
      → (x : Rejection) × (table_checked P r (some e) f ≡ err x)
  overfull-err (err x) e f = (x, refl)
  overfull-err (ok table) e f = (_, refl)

  overfailed-err :
      (r : Result Rejection (Table P)) (o : Option OccupancyError) (e : FaultsError)
      → (x : Rejection) × (table_checked P r o (some e) ≡ err x)
  overfailed-err (err x) o e = (x, refl)
  overfailed-err (ok table) (some f) e = (_, refl)
  overfailed-err (ok table) none e = (_, refl)

  validated-unfit :
      (pool : GpuPool P) (model : GpuModel P)
      → IsUnfit pool model
      → (r : Rejection) × (validated P pool model ≡ err r)
  unfolding validated mig_table
  validated-unfit pool model (unresolved e m h) =
      ((codes "MIGProfilesInvalid", resolve_message P e), rw (m, h) refl)
  validated-unfit pool model (unpartitioned table e m h k) =
      ((codes "MIGPartitionInvalid", partition_message P e), rw (m, h, k) refl)
  validated-unfit pool model (overfull e h) = rw h (overfull-err _ e _)
  validated-unfit pool model (overfailed e h) = rw h (overfailed-err _ _ e)

  module _ (C : Client P) where
    -- The pool with the condition `Ready`, of status false, for its present generation.
    abbrev pub not_ready : GpuPool P → Text → Message → GpuPool P
    not_ready pool reason message = record pool {
      status = record (pool.status) {
        conditions = C.set_condition pool.status.conditions (record {
          kind = codes "Ready";
          status = false;
          reason = reason;
          message = message;
          observed_generation = pool.generation;
        });
      };
    }

    -- For a pool and a model that the server has and that do not fit, a reconcile makes one write,
    -- the pool's status with Ready false: no node is patched, no slice made or deleted.
    pub reconcile-unfit :
        (request : Text) (w : World P C) (pool : GpuPool P) (model : GpuModel P)
        → C.get_pool request w.store ≡ ok pool
        → C.get_model pool.spec.model_ref w.store ≡ ok model
        → IsUnfit pool model
        → (reason : Text) × (message : Message) × ((reconcile P C request w).1.writes
            ≡ w.writes ++ (update_status (not_ready pool reason message) ∷ []))
    unfolding reconcile reject call set_ready
    reconcile-unfit request w pool model hp hm unfit =
        let (r, e) = validated-unfit pool model unfit in rw (hp, hm, e) (r.0, r.1, refl)
