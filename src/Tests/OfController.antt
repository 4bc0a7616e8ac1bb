-- ===== src/Tests/OfController.antt =====
-- The theorems on the reconciler at the sample server.
use ghostgpu.Base.{List, [], ◌∷◌, ◌≡◌, refl, inl, ok, Text, codes, text_eq, All, map, ◌++◌}
use ghostgpu.Base.Int.{pos}
use ghostgpu.Safety.{filter_simulated}
use ghostgpu.Platform.Memory.{memory, memory-IsLawful}
use ghostgpu.Api.{Message, Node, GpuPool}
use ghostgpu.Gpu.Occupancy.{validate_occupancy, validate_occupancy_entries, busy_exceeds}
use ghostgpu.Controller.Client.{World, update_status, delete}
use ghostgpu.Controller.Slices.{prune_slices}
use ghostgpu.Controller.Slices.Prune.{stale, prune_slices-stale}
use ghostgpu.Controller.Nodes.{reconcile_node}
use ghostgpu.Controller.Nodes.Quiet.{settled, reconcile_node-settled}
use ghostgpu.Base.{◌+◌, length, arith}
use ghostgpu.Controller.Reconcile.{reconcile, reconcile_nodes, no_progress}
use ghostgpu.Controller.Reconcile.Counts.{Yields, reconcile_nodes-matched}
use ghostgpu.Controller.Reconcile.NodeWrites.{PatchesOnly}
use ghostgpu.Controller.Reconcile.OnlySimulated.{WasSimulated, reconcile-PatchesOnly}
use ghostgpu.Controller.Reconcile.Rejects.{not_ready, IsUnfit, overfull, reconcile-unfit}
use ghostgpu.Tests.Samples.{
  pool_of, whole_pool, busy_entry, model, table, state, kwok_node, real_node, old_slice, server,
}

abbrev nodes : List (Node memory)
nodes = real_node ∷ kwok_node ∷ []

abbrev at_start : World memory (server whole_pool)
at_start = record { store = nodes; writes = [] }

reconcile-PatchesOnly_example :
    All
      (PatchesOnly memory (server whole_pool) (WasSimulated memory (server whole_pool) nodes))
      (reconcile memory (server whole_pool) (codes "pool") at_start).1.writes
reconcile-PatchesOnly_example =
    reconcile-PatchesOnly memory (server whole_pool) (λ node store. refl) (codes "pool") nodes

reconcile_node-settled_example :
    reconcile_node memory
      (server whole_pool)
      whole_pool
      model
      table
      (settled memory whole_pool model table state kwok_node)
      state
      at_start
    ≡ (ok tt, at_start)
reconcile_node-settled_example =
    reconcile_node-settled memory memory-IsLawful (server whole_pool) whole_pool model table state
      kwok_node at_start

prune_slices-stale_example :
    ((prune_slices memory (server whole_pool) whole_pool (codes "pool-kwok-0" ∷ []) at_start).0
      ≡ ok tt)
    × ((prune_slices memory
          (server whole_pool)
          whole_pool
          (codes "pool-kwok-0" ∷ [])
          at_start).1.writes
        ≡ []
          ++ map delete
              (stale memory (server whole_pool) (codes "pool-kwok-0" ∷ []) (old_slice ∷ [])))
prune_slices-stale_example =
    prune_slices-stale memory (server whole_pool) (λ s store. inl refl) whole_pool
      (codes "pool-kwok-0" ∷ []) at_start (old_slice ∷ []) refl

abbrev crowded : GpuPool memory
crowded = pool_of [] [] (busy_entry 9 ∷ []) []

crowded-overfull : IsUnfit memory crowded model
unfolding validate_occupancy validate_occupancy_entries
crowded-overfull = overfull (busy_exceeds [] (pos 9) (pos 2)) refl

reconcile-unfit_example :
    (reason : Text) × (message : Message) × ((reconcile memory
        (server crowded)
        (codes "pool")
        (record { store = nodes; writes = [] })).1.writes
      ≡ [] ++ (update_status (not_ready memory (server crowded) crowded reason message) ∷ []))
reconcile-unfit_example =
    reconcile-unfit memory (server crowded) (codes "pool") (record { store = nodes; writes = [] })
      crowded model refl refl crowded-overfull

reconcile_nodes-matched_example :
    Yields memory
      (server whole_pool)
      (λ next. next.matched ≡ pos (0 + length (filter_simulated memory nodes)))
      (reconcile_nodes memory
        (server whole_pool)
        whole_pool
        model
        table
        nodes
        no_progress
        at_start).0
reconcile_nodes-matched_example =
    reconcile_nodes-matched memory (server whole_pool) whole_pool model table nodes no_progress 0
      at_start refl (omega arith)
