-- ===== src/Controller/Slices.antt =====
-- internal/controller/gpupool_controller.go: the ResourceSlices of a node (`applySlice`,
-- `reconcileSlices`), and the removal of those that no node backs (`pruneSlices`).
pub mod Prune
use ghostgpu.Base.{
  ℕ, Bool, true, false, Option, none, some, List, [], ◌∷◌, ◌++◌, Result, ok, err, Text, codes,
  text_eq, ◌==◌, length, if◌then◌else◌,
}
use ghostgpu.Base.Dict.{insert}
use ghostgpu.Base.Int.{ℤ, pos, wrap32, add32}
use ghostgpu.Platform.{Platform}
use ghostgpu.Api.{GpuPool, GpuModel, ResourceSlice, mig_enabled}
use ghostgpu.Mig.{Table}
use ghostgpu.Gpu.Faults.{NodeState}
use ghostgpu.Gpu.WholeSlice.{slice_name, build_resource_slice}
use ghostgpu.Gpu.MigSlices.{build_mig_slices}
use ghostgpu.Controller.Client.{
  ApiError, not_found, other_error, Client, World, Action, return, bind, call, create_or_update,
  delete,
}

abbrev pub pool_label : Text
pool_label = codes "ghostgpu.dev/pool"

-- `_, keep := live[name]`; `live` is the list of the keys.
unfoldable pub is_live : Text → List Text → Bool
is_live name [] = false
is_live name (l ∷ live) = let rest = is_live name live in if name == l then true else rest

module _ (P : Platform) (C : Client P) where
  -- The function that `applySlice` passes to `CreateOrUpdate`.
  unfoldable pub mutate_slice :
      GpuPool P → ResourceSlice P → ResourceSlice P → Result ApiError (ResourceSlice P)
  unfolding insert
  mutate_slice pool desired slice =
      C.set_owner pool
        (record slice { spec = desired.spec; labels = insert pool_label pool.name slice.labels })

  unfoldable pub apply_slice : GpuPool P → ResourceSlice P → Action P C Unit
  unfolding call mutate_slice
  apply_slice pool desired = call P C (create_or_update desired.name (mutate_slice pool desired))

  -- The loop of `reconcileSlices`: the devices, and the live names with the new ones.
  unfoldable pub apply_slices :
      GpuPool P → List (ResourceSlice P) → ℤ → List Text → Action P C (ℤ × List Text)
  unfolding apply_slice
  apply_slices pool [] devices live = return P C (devices, live)
  apply_slices pool (s ∷ slices) devices live = bind P C (apply_slice pool s) (λ _.
      apply_slices pool slices (add32 devices (wrap32 (pos (length s.spec.devices))))
        (s.name ∷ live))

  unfoldable pub reconcile_slices :
      GpuPool P → GpuModel P → Table P → Text → NodeState → List Text → Action P C (ℤ × List Text)
  unfolding mig_enabled apply_slice apply_slices build_resource_slice build_mig_slices slice_name
  reconcile_slices pool model table node state live =
      if mig_enabled P pool.spec
      then apply_slices pool (build_mig_slices P pool model table node state) (pos 0) live
      else bind P C (apply_slice pool (build_resource_slice P pool model node state))
          (λ _. return P C (pool.spec.gpus_per_node, slice_name pool.name node ∷ live))

  -- `err != nil && !apierrors.IsNotFound(err)`
  abbrev pub unless_missing : Result ApiError Unit × World P C → Result ApiError Unit × World P C
  unless_missing (err not_found, w) = (ok tt, w)
  unless_missing (err (other_error t), w) = (err (other_error t), w)
  unless_missing (ok u, w) = (ok u, w)

  -- The loop of `pruneSlices`.
  unfoldable pub delete_stale : List (ResourceSlice P) → List Text → Action P C Unit
  unfolding is_live call
  delete_stale [] live = return P C tt
  delete_stale (s ∷ slices) live =
      let rest = delete_stale slices live in
      if is_live s.name live
      then rest
      else bind P C (λ w. unless_missing (call P C (delete s) w)) (λ _. rest)

  -- `if err := r.List(...); err != nil`
  abbrev pub with_slices : List Text → Result ApiError (List (ResourceSlice P)) → Action P C Unit
  with_slices live (err e) w = (err e, w)
  with_slices live (ok slices) w = delete_stale slices live w

  unfoldable pub prune_slices : GpuPool P → List Text → Action P C Unit
  unfolding delete_stale
  prune_slices pool live w =
      with_slices live (C.list_slices ((pool_label, pool.name) ∷ []) w.store) w
