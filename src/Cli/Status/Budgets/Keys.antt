-- ===== src/Cli/Status/Budgets/Keys.antt =====
-- internal/cli/status.go: the entries of the map of budgets, and their keys.
use ghostgpu.Base.{
  some, List, [], ◌∷◌, ◌≡◌, refl, inl, inr, arith, Bool-cases, Option-cases, Text, text_eq,
}
use ghostgpu.Base.Dict.{lookup, insert, DistinctKeys, insert-DistinctKeys}
use ghostgpu.Base.Int.{pos}
use ghostgpu.Platform.{Platform}
use ghostgpu.Api.{Device, CounterSet, DeviceCounterConsumption, ResourceSlice}
use ghostgpu.Cli.Status.{Allocated, device_key_eq, key_of}
use ghostgpu.Cli.Status.Devices.{is_held}
use ghostgpu.Cli.Status.Budgets.{
  BudgetKey, budget_key_eq, GpuStatus, Budgets, no_memory, declared, declare_sets, declare_slices,
  used, draw, draw_all, draw_device, draw_devices, draw_slices,
}
use ghostgpu.Cli.Status.Budgets.Draws.{set_key}

module _ (P : Platform) where
  -- A budget under the key of its node and counter set, of which nothing is used.
  pub record IsNew (key : BudgetKey) (st : GpuStatus P) : Type 0 where
    pub node_lem : st.node ≡ key.node
    pub set_lem : st.counter_set ≡ key.set
    pub slices_lem : st.used_slices ≡ pos 0
    pub memory_lem : st.used_memory ≡ no_memory P

  -- Every entry is new, and no key stands twice.
  abbrev pub AllNew : Budgets P → Type 0
  AllNew [] = Unit
  AllNew ((key, st) ∷ b) = IsNew key st × AllNew b

  insert-AllNew :
      (key : BudgetKey) (st : GpuStatus P) (b : Budgets P)
      → IsNew key st
      → AllNew b
      → AllNew (insert key st b)
  unfolding insert
  insert-AllNew key st [] n h = (n, tt)
  insert-AllNew key st ((k, t) ∷ b) n (m, h) = ground (arith, insert-AllNew key st b n h)

  declare_sets-AllNew :
      (node : Text) (sets : List (CounterSet P)) (b : Budgets P)
      → AllNew b
      → AllNew (declare_sets P node sets b)
  unfolding declare_sets declared
  declare_sets-AllNew node [] b h = h
  declare_sets-AllNew node (set ∷ sets) b h =
      declare_sets-AllNew node sets
        (insert (record { node = node; set = set.name }) (declared P node set) b)
        (insert-AllNew (record { node = node; set = set.name }) (declared P node set) b
          (record { node_lem = refl; set_lem = refl; slices_lem = refl; memory_lem = refl }) h)

  pub declare_slices-AllNew :
      (published : List (ResourceSlice P)) (b : Budgets P)
      → AllNew b
      → AllNew (declare_slices P published b)
  unfolding declare_slices
  declare_slices-AllNew [] b h = h
  declare_slices-AllNew (s ∷ slices) b h =
      declare_slices-AllNew slices (declare_sets P s.spec.pool_name s.spec.shared_counters b)
        (declare_sets-AllNew s.spec.pool_name s.spec.shared_counters b h)

  pub lookup-AllNew :
      (key : BudgetKey) (st : GpuStatus P) (b : Budgets P)
      → AllNew b
      → lookup key b ≡ some st
      → IsNew key st
  unfolding lookup
  lookup-AllNew key st [] h e = cc
  lookup-AllNew key st ((k, t) ∷ b) (n, h) e = ground (arith, lookup-AllNew key st b h)

  -- No key stands twice in the budgets.
  declare_sets-DistinctKeys :
      (node : Text) (sets : List (CounterSet P)) (b : Budgets P)
      → DistinctKeys b
      → DistinctKeys (declare_sets P node sets b)
  unfolding declare_sets
  declare_sets-DistinctKeys node [] b h = h
  declare_sets-DistinctKeys node (set ∷ sets) b h =
      let key : BudgetKey = record { node = node; set = set.name } in
      declare_sets-DistinctKeys node sets (insert key (declared P node set) b)
        (insert-DistinctKeys key (declared P node set) b h)

  pub declare_slices-DistinctKeys :
      (published : List (ResourceSlice P)) (b : Budgets P)
      → DistinctKeys b
      → DistinctKeys (declare_slices P published b)
  unfolding declare_slices
  declare_slices-DistinctKeys [] b h = h
  declare_slices-DistinctKeys (s ∷ slices) b h =
      declare_slices-DistinctKeys slices (declare_sets P s.spec.pool_name s.spec.shared_counters b)
        (declare_sets-DistinctKeys s.spec.pool_name s.spec.shared_counters b h)

  draw-DistinctKeys :
      (node : Text) (c : DeviceCounterConsumption P) (b : Budgets P)
      → DistinctKeys b
      → DistinctKeys (draw P node c b)
  unfolding draw
  draw-DistinctKeys node c b h = elim (Option-cases (lookup (set_key P node c) b)) [
    | inl missing ↦ rw missing h
    | inr (st, found) ↦ rw found (insert-DistinctKeys (set_key P node c) (used P c st) b h)
  ]

  draw_all-DistinctKeys :
      (node : Text) (cs : List (DeviceCounterConsumption P)) (b : Budgets P)
      → DistinctKeys b
      → DistinctKeys (draw_all P node cs b)
  unfolding draw_all
  draw_all-DistinctKeys node [] b h = h
  draw_all-DistinctKeys node (c ∷ cs) b h =
      draw_all-DistinctKeys node cs (draw P node c b) (draw-DistinctKeys node c b h)

  draw_devices-DistinctKeys :
      (allocated : Allocated) (s : ResourceSlice P) (devices : List (Device P)) (b : Budgets P)
      → DistinctKeys b
      → DistinctKeys (draw_devices P allocated s devices b)
  unfolding draw_devices draw_device
  draw_devices-DistinctKeys allocated s [] b h = h
  draw_devices-DistinctKeys allocated s (d ∷ devices) b h =
      elim (Bool-cases (is_held (lookup (key_of P s d) allocated))) [
        | inl there ↦ rw there (
            draw_devices-DistinctKeys allocated s devices
              (draw_all P s.spec.pool_name d.consumes_counters b)
              (draw_all-DistinctKeys s.spec.pool_name d.consumes_counters b h))
        | inr free ↦ rw free (draw_devices-DistinctKeys allocated s devices b h)
      ]

  pub draw_slices-DistinctKeys :
      (allocated : Allocated) (published : List (ResourceSlice P)) (b : Budgets P)
      → DistinctKeys b
      → DistinctKeys (draw_slices P allocated published b)
  unfolding draw_slices
  draw_slices-DistinctKeys allocated [] b h = h
  draw_slices-DistinctKeys allocated (s ∷ slices) b h =
      draw_slices-DistinctKeys allocated slices (draw_devices P allocated s s.spec.devices b)
        (draw_devices-DistinctKeys allocated s s.spec.devices b h)
