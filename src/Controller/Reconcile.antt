-- ===== src/Controller/Reconcile.antt =====
-- internal/controller/gpupool_controller.go: `Reconcile`, from the pool that a request names to its
-- status, and `poolsForNode`.
pub mod Traces
pub mod NodeWrites
pub mod OnlySimulated
pub mod Rejects
pub mod Counts
use ghostgpu.Base.{
  Bool, true, false, Option, none, some, List, [], ◌∷◌, map, Result, ok, err, Text, codes, length,
  if◌then◌else◌,
}
use ghostgpu.Base.Int.{ℤ, pos, wrap32, add32}
use ghostgpu.Platform.{Platform}
use ghostgpu.Api.{Message, GpuPool, GpuModel, Node, mig_enabled, dra_enabled}
use ghostgpu.Mig.{Table}
use ghostgpu.Mig.Resolve.{ResolveError, resolve}
use ghostgpu.Mig.Partition.{PartitionError, validate_partition}
use ghostgpu.Gpu.Occupancy.{OccupancyError, validate_occupancy}
use ghostgpu.Gpu.Faults.{NodeState, FaultsError, state_for, validate_faults}
use ghostgpu.Safety.{is_simulated_node}
use ghostgpu.Controller.Client.{
  ApiError, not_found, other_error, Client, World, Action, return, bind, call, update_status,
}
use ghostgpu.Controller.Status.{
  resolve_message, partition_message, occupancy_message, faults_message, model_missing_message,
  summarize, set_ready,
}
use ghostgpu.Controller.Nodes.{reconcile_node}
use ghostgpu.Controller.Slices.{reconcile_slices, prune_slices}

-- `matched`, `devices`, `occupied`, `faulted` and the keys of `live`.
pub record Progress : Type 0 where
  pub matched : ℤ
  pub devices : ℤ
  pub occupied : ℤ
  pub faulted : ℤ
  pub live : List Text

abbrev pub no_progress : Progress
no_progress = record {
  matched = pos 0;
  devices = pos 0;
  occupied = pos 0;
  faulted = pos 0;
  live = [];
}

-- A failed validation: the reason and the message of the condition.
abbrev pub Rejection : Type 0
Rejection = Text × Message

module _ (P : Platform) where
  -- `var table mig.Table`
  abbrev pub zero_table : Table P
  zero_table = record {
    budget = record { memory = P.zero_quantity; slices = pos 0 };
    profiles = [];
  }

  abbrev pub partition_checked : Option (PartitionError P) → Table P → Result Rejection (Table P)
  partition_checked none table = ok table
  partition_checked (some e) table = err (codes "MIGPartitionInvalid", partition_message P e)

  abbrev pub resolved : GpuPool P → Result (ResolveError P) (Table P) → Result Rejection (Table P)
  resolved pool (err e) = err (codes "MIGProfilesInvalid", resolve_message P e)
  resolved pool (ok table) =
      partition_checked (validate_partition P pool.spec.mig_partition table) table

  -- The table of a pool with MIG, the zero table of another.
  unfoldable pub mig_table : GpuPool P → GpuModel P → Result Rejection (Table P)
  unfolding mig_enabled resolve validate_partition resolve_message partition_message
  mig_table pool model =
      if mig_enabled P pool.spec then resolved pool (resolve P model) else ok (zero_table)

  -- The checks of the occupancy, then of the faults, by what they find.
  abbrev pub declarations_checked :
      Option OccupancyError → Option FaultsError → Table P → Result Rejection (Table P)
  declarations_checked (some e) faults table = err (codes "OccupancyInvalid", occupancy_message e)
  declarations_checked none (some e) table = err (codes "FaultsInvalid", faults_message e)
  declarations_checked none none table = ok table

  abbrev pub table_checked :
      Result Rejection (Table P)
      → Option OccupancyError
      → Option FaultsError
      → Result Rejection (Table P)
  table_checked (err e) occupancy faults = err e
  table_checked (ok table) occupancy faults = declarations_checked occupancy faults table

  -- All validations, in the order of the code: the table, or the first failure.
  unfoldable pub validated : GpuPool P → GpuModel P → Result Rejection (Table P)
  unfolding mig_table validate_occupancy validate_faults occupancy_message faults_message
  validated pool model =
      table_checked (mig_table pool model) (validate_occupancy P pool) (validate_faults P pool)

  module _ (C : Client P) where
    -- `setReady(&pool, metav1.ConditionFalse, ...); return ..., r.Status().Update(ctx, &pool)`
    unfoldable pub reject : GpuPool P → Rejection → Action P C Unit
    unfolding call set_ready
    reject pool (reason, message) =
        call P C (update_status (set_ready P C pool false reason message))

    abbrev pub add_published : Progress → ℤ × List Text → Progress
    add_published progress (devices, live) = record progress {
      devices = add32 progress.devices devices;
      live = live;
    }

    -- `if pool.Spec.Advertise.DRAEnabled()`
    unfoldable pub publish_slices :
        GpuPool P → GpuModel P → Table P → Node P → NodeState → Progress → Action P C Progress
    unfolding dra_enabled reconcile_slices
    publish_slices pool model table node state progress =
        if dra_enabled pool.spec.advertise
        then bind P C (reconcile_slices P C pool model table node.name state progress.live)
            (λ published. return P C (add_published progress published))
        else return P C progress

    -- The end of the loop's body: the slices, then the node.
    unfoldable pub publish_node :
        GpuPool P → GpuModel P → Table P → Node P → NodeState → Progress → Action P C Progress
    unfolding publish_slices reconcile_node
    publish_node pool model table node state progress =
        bind P C (publish_slices pool model table node state progress)
          (λ next. bind P C (reconcile_node P C pool model table node state) (λ _. return P C next))

    -- The progress with a node's own counts.
    unfoldable pub count_node : NodeState → Progress → Progress
    count_node state progress = record progress {
      matched = add32 progress.matched (pos 1);
      occupied = add32 progress.occupied state.busy;
      faulted = add32 progress.faulted state.faulted;
    }

    -- The loop over the nodes that the selector matched.
    unfoldable pub reconcile_nodes :
        GpuPool P → GpuModel P → Table P → List (Node P) → Progress → Action P C Progress
    unfolding is_simulated_node state_for count_node publish_node
    reconcile_nodes pool model table [] progress = return P C progress
    reconcile_nodes pool model table (node ∷ nodes) progress =
        let state = state_for P pool node in
        let skipped = reconcile_nodes pool model table nodes progress in
        if is_simulated_node P (some node)
        then bind P C (publish_node pool model table node state (count_node state progress))
            (λ next. reconcile_nodes pool model table nodes next)
        else skipped

    -- The status that a successful reconcile writes.
    unfoldable pub reconciled : GpuPool P → Table P → Progress → GpuPool P
    unfolding set_ready summarize
    reconciled pool table progress =
        let counted = record pool {
          status = record (pool.status) {
            observed_generation = pool.generation;
            nodes_matched = progress.matched;
            devices_published = progress.devices;
            gpus_occupied = progress.occupied;
            gpus_faulted = progress.faulted;
            mig_profiles_published = wrap32 (pos (length table.profiles));
          };
        } in
        set_ready P C counted true (codes "Reconciled") (
          summarize P counted progress.devices progress.matched progress.occupied progress.faulted
            table)

    -- From the list of nodes on.
    unfoldable pub publish_nodes :
        GpuPool P → GpuModel P → Table P → List (Node P) → Action P C Unit
    unfolding reconcile_nodes prune_slices reconciled call
    publish_nodes pool model table nodes =
        bind P C (reconcile_nodes pool model table nodes no_progress) (λ progress.
          bind P C (prune_slices P C pool progress.live)
            (λ _. call P C (update_status (reconciled pool table progress))))

    -- `if err := r.List(...); err != nil`
    abbrev pub with_nodes :
        GpuPool P → GpuModel P → Table P → Result ApiError (List (Node P)) → Action P C Unit
    with_nodes pool model table (err e) w = (err e, w)
    with_nodes pool model table (ok nodes) w = publish_nodes pool model table nodes w

    unfoldable pub publish : GpuPool P → GpuModel P → Table P → Action P C Unit
    unfolding publish_nodes
    publish pool model table w =
        with_nodes pool model table (C.list_nodes pool.spec.node_selector w.store) w

    abbrev pub with_table : GpuPool P → GpuModel P → Result Rejection (Table P) → Action P C Unit
    with_table pool model (err rejection) = reject pool rejection
    with_table pool model (ok table) = publish pool model table

    abbrev pub with_model : GpuPool P → Result ApiError (GpuModel P) → Action P C Unit
    with_model pool (err not_found) w =
        reject pool (codes "ModelNotFound", model_missing_message P pool.spec.model_ref) w
    with_model pool (err (other_error t)) w = (err (other_error t), w)
    with_model pool (ok model) w = with_table pool model (validated pool model) w

    -- `client.IgnoreNotFound(err)` for a pool that is gone.
    abbrev pub with_pool : Result ApiError (GpuPool P) → Action P C Unit
    with_pool (err not_found) w = (ok tt, w)
    with_pool (err (other_error t)) w = (err (other_error t), w)
    with_pool (ok pool) w = with_model pool (C.get_model pool.spec.model_ref w.store) w

    unfoldable pub reconcile : Text → Action P C Unit
    unfolding validated reject publish
    reconcile name w = with_pool (C.get_pool name w.store) w

    -- The requests, by the names of the pools; an error of the list is logged, and no pool named.
    unfoldable pub pools_for_node : World P C → List Text
    pools_for_node w = elim (C.list_pools w.store) [
      | err e ↦ []
      | ok pools ↦ map (λ p. p.name) pools
    ]
