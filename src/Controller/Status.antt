-- ===== src/Controller/Status.antt =====
-- internal/controller/gpupool_controller.go: the Ready condition and its messages (`setReady`,
-- `summarize`), and the texts of the errors of internal/mig and internal/gpu.
use ghostgpu.Base.{Bool, List, [], ◌∷◌, ◌++◌, Text, codes, length, if◌then◌else◌}
use ghostgpu.Base.Int.{ℤ, pos, ltb_ℤ}
use ghostgpu.Text.{join}
use ghostgpu.Platform.{Platform}
use ghostgpu.Api.{
  Argument, string_argument, number_argument, labels_argument, Message, GpuPool, mig_enabled,
}
use ghostgpu.Mig.{Table}
use ghostgpu.Mig.Resolve.{ResolveError, no_profiles, duplicate_profile}
use ghostgpu.Mig.Partition.{PartitionError, unknown_profile}
use ghostgpu.Mig.Resolve
use ghostgpu.Mig.Partition
use ghostgpu.Gpu.Occupancy.{OccupancyError, busy_negative, busy_exceeds}
use ghostgpu.Gpu.Faults.{FaultsError, faulted_negative, faulted_exceeds, unknown_effect}
use ghostgpu.Controller.Client.{Client}

abbrev pub condition_ready : Text
condition_ready = codes "Ready"

-- One call of `fmt.Sprintf` or `fmt.Errorf`.
abbrev sprintf : Text → List Argument → Message
sprintf format arguments = (format, arguments) ∷ []

unfoldable pub occupancy_message : OccupancyError → Message
occupancy_message (busy_negative selector busy) =
    sprintf (codes "occupancy %v: busyPerNode is %d; a negative count of busy GPUs is not a fleet")
      (labels_argument selector ∷ number_argument busy ∷ [])
occupancy_message (busy_exceeds selector busy gpus) =
    sprintf (codes "occupancy %v: busyPerNode is %d but the pool gives each node %d GPUs")
      (labels_argument selector ∷ number_argument busy ∷ number_argument gpus ∷ [])

unfoldable pub faults_message : FaultsError → Message
faults_message (faulted_negative selector gpus) =
    sprintf (codes "faults %v: gpus is %d; a negative count of failed GPUs is not a fleet")
      (labels_argument selector ∷ number_argument gpus ∷ [])
faults_message (faulted_exceeds selector faulted gpus) =
    sprintf (codes "faults %v: gpus is %d but the pool gives each node %d GPUs")
      (labels_argument selector ∷ number_argument faulted ∷ number_argument gpus ∷ [])
faults_message (unknown_effect selector effect) =
    sprintf (codes "faults %v: unknown effect %q; want Evict or Unschedulable")
      (labels_argument selector ∷ string_argument effect ∷ [])

module _ (P : Platform) where
  unfoldable pub resolve_message : ResolveError P → Message
  resolve_message (no_profiles model product) =
      sprintf
        (codes
          "GPUModel %q: no built-in MIG profiles for product %q; set spec.migProfiles explicitly")
        (string_argument model ∷ string_argument product ∷ [])
  resolve_message (duplicate_profile model profile) =
      sprintf (codes "GPUModel %q: duplicate MIG profile %q")
        (string_argument model ∷ string_argument profile ∷ [])
  resolve_message (Resolve.slices_exceed model profile slices budget) =
      sprintf
        (codes
          "GPUModel %q: MIG profile %q consumes %d slices but the budget is %d; it could never be allocated")
        (string_argument model
          ∷ string_argument profile
          ∷ number_argument slices
          ∷ number_argument budget
          ∷ [])
  resolve_message (Resolve.memory_exceeds model profile memory budget) =
      sprintf
        (codes
          "GPUModel %q: MIG profile %q consumes %s memory but the budget is %s; it could never be allocated")
        (string_argument model
          ∷ string_argument profile
          ∷ string_argument (P.print memory)
          ∷ string_argument (P.print budget)
          ∷ [])

  unfoldable pub partition_message : PartitionError P → Message
  unfolding join
  partition_message (unknown_profile profile available) =
      sprintf
        (codes "migPartition names profile %q, which this GPU does not support; available: %s")
        (string_argument profile ∷ string_argument (join available (codes ", ")) ∷ [])
  partition_message (Partition.slices_exceed used budget) =
      sprintf (codes "migPartition consumes %d compute slices but the GPU has %d")
        (number_argument used ∷ number_argument budget ∷ [])
  partition_message (Partition.memory_exceeds used budget) =
      sprintf (codes "migPartition consumes %s memory but the GPU has %s")
        (string_argument (P.print used) ∷ string_argument (P.print budget) ∷ [])

  -- `fmt.Sprintf("GPUModel %q not found", ...)`
  unfoldable pub model_missing_message : Text → Message
  model_missing_message model = sprintf (codes "GPUModel %q not found") (string_argument model ∷ [])

  unfoldable pub summarize : GpuPool P → ℤ → ℤ → ℤ → ℤ → Table P → Message
  unfolding mig_enabled
  summarize pool devices matched occupied faulted table =
      (if mig_enabled P pool.spec
        then sprintf (codes "simulated %d MIG instances across %d nodes (%d profiles per GPU)") (
            number_argument devices
            ∷ number_argument matched
            ∷ number_argument (pos (length table.profiles))
            ∷ [])
        else sprintf (codes "simulated %d GPUs across %d nodes")
            (number_argument devices ∷ number_argument matched ∷ []))
      ++ ((if ltb_ℤ (pos 0) occupied
            then sprintf (codes "; %d GPUs declared occupied") (number_argument occupied ∷ [])
            else [])
          ++ (if ltb_ℤ (pos 0) faulted
              then sprintf (codes "; %d GPUs declared faulted") (number_argument faulted ∷ [])
              else []))

  module _ (C : Client P) where
    unfoldable pub set_ready : GpuPool P → Bool → Text → Message → GpuPool P
    set_ready pool status reason message = record pool {
      status = record (pool.status) {
        conditions = C.set_condition pool.status.conditions (record {
          kind = condition_ready;
          status = status;
          reason = reason;
          message = message;
          observed_generation = pool.generation;
        });
      };
    }
