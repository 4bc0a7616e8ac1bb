-- ===== src/Cli/Status/Budgets/Draws.antt =====
-- internal/cli/status.go: what the allocated devices draw on the budget of a GPU.
use ghostgpu.Base.{
  Option, none, some, List, [], ◌∷◌, ◌++◌, flat_map, ◌≡◌, refl, sym, ◌∙◌, ap, inl, inr, arith,
  if◌then◌else◌, Bool-cases, Option-cases, Text, text_eq, ◌==◌,
}
use ghostgpu.Base.Dict.{lookup, lookup-insert}
use ghostgpu.Platform.{Platform}
use ghostgpu.Api.{Device, DeviceCounterConsumption, ResourceSlice}
use ghostgpu.Cli.Status.{Allocated, device_key_eq, key_of}
use ghostgpu.Cli.Status.Devices.{is_held}
use ghostgpu.Cli.Status.Budgets.{
  BudgetKey, budget_key_eq, GpuStatus, Budgets, used, draw, draw_all, draw_device, draw_devices,
  draw_slices,
}

module _ (P : Platform) where
  abbrev pub set_key : Text → DeviceCounterConsumption P → BudgetKey
  set_key node c = record { node = node; set = c.counter_set }

  -- The consumptions of a list that draw on a budget.
  abbrev pub on_budget :
      BudgetKey → Text → DeviceCounterConsumption P → List (DeviceCounterConsumption P)
  on_budget key node c = if key == set_key node c then c ∷ [] else []

  -- What the allocated devices draw on a budget, over all slices.
  abbrev pub drawn_of_device :
      BudgetKey → Allocated → ResourceSlice P → Device P → List (DeviceCounterConsumption P)
  drawn_of_device key allocated s d =
      if is_held (lookup (key_of P s d) allocated)
      then flat_map (on_budget key s.spec.pool_name) d.consumes_counters
      else []

  unfoldable pub drawn :
      BudgetKey → Allocated → List (ResourceSlice P) → List (DeviceCounterConsumption P)
  unfolding lookup
  drawn key allocated published =
      flat_map (λ s. flat_map (drawn_of_device key allocated s) s.spec.devices) published

  -- A status behind a list of consumptions.
  unfoldable pub spend : List (DeviceCounterConsumption P) → GpuStatus P → GpuStatus P
  spend [] st = st
  spend (c ∷ cs) st = spend cs (used P c st)

  abbrev pub spend_on :
      List (DeviceCounterConsumption P) → Option (GpuStatus P) → Option (GpuStatus P)
  spend_on cs none = none
  spend_on cs (some st) = some (spend cs st)

  spend-append :
      (cs ds : List (DeviceCounterConsumption P)) (o : Option (GpuStatus P))
      → spend_on (cs ++ ds) o ≡ spend_on ds (spend_on cs o)
  unfolding spend
  spend-append cs ds none = refl
  spend-append [] ds (some st) = refl
  spend-append (c ∷ cs) ds (some st) = spend-append cs ds (some (used P c st))

  spend_on-nil : (o : Option (GpuStatus P)) → spend_on [] o ≡ o
  unfolding spend
  spend_on-nil none = refl
  spend_on-nil (some st) = refl

  lookup-draw :
      (key : BudgetKey) (node : Text) (c : DeviceCounterConsumption P) (b : Budgets P)
      → lookup key (draw P node c b) ≡ spend_on (on_budget key node c) (lookup key b)
  unfolding draw spend
  lookup-draw key node c b = elim (Option-cases (lookup (set_key node c) b)) [
    | inl missing ↦ ground (arith, spend_on-nil (lookup key b))
    | inr (st, found) ↦
        ground
          (arith, spend_on-nil (lookup key b), lookup-insert key (set_key node c) (used P c st) b)
  ]

  lookup-draw_all :
      (key : BudgetKey) (node : Text) (cs : List (DeviceCounterConsumption P)) (b : Budgets P)
      → lookup key (draw_all P node cs b)
        ≡ spend_on (flat_map (on_budget key node) cs) (lookup key b)
  unfolding draw_all
  lookup-draw_all key node [] b = sym (spend_on-nil (lookup key b))
  lookup-draw_all key node (c ∷ cs) b =
      lookup-draw_all key node cs (draw P node c b)
      ∙ ap (spend_on (flat_map (on_budget key node) cs)) (lookup-draw key node c b)
      ∙ sym (spend-append (on_budget key node c) (flat_map (on_budget key node) cs) (lookup key b))

  lookup-draw_device :
      (key : BudgetKey) (allocated : Allocated) (s : ResourceSlice P) (d : Device P) (b : Budgets P)
      → lookup key (draw_device P allocated s d b)
        ≡ spend_on (drawn_of_device key allocated s d) (lookup key b)
  unfolding draw_device
  lookup-draw_device key allocated s d b =
      elim (Bool-cases (is_held (lookup (key_of P s d) allocated))) [
        | inl there ↦ rw there (lookup-draw_all key s.spec.pool_name d.consumes_counters b)
        | inr free ↦ rw free (sym (spend_on-nil (lookup key b)))
      ]

  lookup-draw_devices :
      (key : BudgetKey) (allocated : Allocated) (s : ResourceSlice P) (devices : List (Device P))
      (b : Budgets P)
      → lookup key (draw_devices P allocated s devices b)
        ≡ spend_on (flat_map (drawn_of_device key allocated s) devices) (lookup key b)
  unfolding draw_devices
  lookup-draw_devices key allocated s [] b = sym (spend_on-nil (lookup key b))
  lookup-draw_devices key allocated s (d ∷ devices) b =
      let later = flat_map (drawn_of_device key allocated s) devices in
      lookup-draw_devices key allocated s devices (draw_device P allocated s d b)
      ∙ ap (spend_on later) (lookup-draw_device key allocated s d b)
      ∙ sym (spend-append (drawn_of_device key allocated s d) later (lookup key b))

  pub lookup-draw_slices :
      (key : BudgetKey) (allocated : Allocated) (published : List (ResourceSlice P)) (b : Budgets P)
      → lookup key (draw_slices P allocated published b)
        ≡ spend_on (drawn key allocated published) (lookup key b)
  unfolding draw_slices drawn
  lookup-draw_slices key allocated [] b = sym (spend_on-nil (lookup key b))
  lookup-draw_slices key allocated (s ∷ slices) b =
      let here = flat_map (drawn_of_device key allocated s) s.spec.devices in
      lookup-draw_slices key allocated slices (draw_devices P allocated s s.spec.devices b)
      ∙ ap (spend_on (drawn key allocated slices))
          (lookup-draw_devices key allocated s s.spec.devices b)
      ∙ sym (spend-append here (drawn key allocated slices) (lookup key b))
