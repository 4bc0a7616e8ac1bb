-- ===== src/Cli/Status/Budgets.antt =====
-- internal/cli/status.go: what each GPU's budget carries (`describeGPUs`).
pub mod Draws
pub mod Keys
pub mod Spent
use ghostgpu.Base.{
  Bool, true, false, Option, none, some, List, [], ◌∷◌, map, if◌then◌else◌, Text, text_eq, text_dec,
  Eq, ◌==◌, ◌≡◌, sort_by,
}
use ghostgpu.Base.Dict.{Dict, lookup, insert}
use ghostgpu.Base.Int.{ℤ, pos, wrap64, ◌+ℤ◌}
use ghostgpu.Text.Split.{text_leb}
use ghostgpu.Platform.{Platform, binary_si}
use ghostgpu.Api.{Device, CounterSet, DeviceCounterConsumption, ResourceSlice}
use ghostgpu.Cli.Status.{Holding, Allocated, device_key_eq, key_of, counter_slices, counter_memory}
use ghostgpu.Cli.Status.Devices.{is_held}

pub record BudgetKey : Type 0 where
  pub node : Text
  pub set : Text

budget_key_dec : (a b : BudgetKey) → Dec (a ≡ b)
budget_key_dec a b = elim (text_dec a.node b.node) [
  | no n ↦ no (λ e. n (cc))
  | yes p ↦ elim (text_dec a.set b.set) [ yes q ↦ yes (cc) | no n ↦ no (λ e. n (cc)) ]
]

instance unfoldable pub budget_key_eq : Eq BudgetKey
unfolding budget_key_dec text_dec
budget_key_eq = record { dec = budget_key_dec }

module _ (P : Platform) where
  pub record GpuStatus : Type 0 where
    pub node : Text
    pub counter_set : Text
    pub used_slices : ℤ
    pub total_slices : ℤ
    pub used_memory : P.Quantity
    pub total_memory : P.Quantity

  abbrev pub Budgets : Type 0
  Budgets = Dict BudgetKey GpuStatus

  abbrev pub no_memory : P.Quantity
  no_memory = P.new_quantity (pos 0) binary_si

  abbrev pub slices_or_zero : Option P.Quantity → ℤ
  slices_or_zero none = pos 0
  slices_or_zero (some q) = P.quantity_value q

  abbrev pub memory_or_zero : Option P.Quantity → P.Quantity
  memory_or_zero none = no_memory
  memory_or_zero (some q) = q

  -- The budget that a counter set declares.
  unfoldable pub declared : Text → CounterSet P → GpuStatus
  unfolding lookup
  declared node set = record {
    node = node;
    counter_set = set.name;
    used_slices = pos 0;
    total_slices = slices_or_zero (lookup counter_slices set.counters);
    used_memory = no_memory;
    total_memory = memory_or_zero (lookup counter_memory set.counters);
  }

  -- The first loop: the budgets of all counter sets.
  unfoldable pub declare_sets : Text → List (CounterSet P) → Budgets → Budgets
  unfolding insert declared
  declare_sets node [] budgets = budgets
  declare_sets node (set ∷ sets) budgets =
      declare_sets node sets
        (insert (record { node = node; set = set.name }) (declared node set) budgets)

  unfoldable pub declare_slices : List (ResourceSlice P) → Budgets → Budgets
  unfolding declare_sets
  declare_slices [] budgets = budgets
  declare_slices (s ∷ slices) budgets =
      declare_slices slices (declare_sets s.spec.pool_name s.spec.shared_counters budgets)

  abbrev pub add_slices : Option P.Quantity → ℤ → ℤ
  add_slices none used = used
  add_slices (some q) used = wrap64 (used +ℤ P.quantity_value q)

  abbrev pub add_memory : Option P.Quantity → P.Quantity → P.Quantity
  add_memory none used = used
  add_memory (some q) used = P.add used q

  -- What a consumption adds to its budget.
  unfoldable pub used : DeviceCounterConsumption P → GpuStatus → GpuStatus
  unfolding lookup wrap64 ◌+ℤ◌
  used c status = record status {
    used_slices = add_slices (lookup counter_slices c.counters) status.used_slices;
    used_memory = add_memory (lookup counter_memory c.counters) status.used_memory;
  }

  -- `status, ok := budgets[...]; if !ok { continue }`
  abbrev pub draw_found :
      BudgetKey → DeviceCounterConsumption P → Option GpuStatus → Budgets → Budgets
  draw_found key c none budgets = budgets
  draw_found key c (some status) budgets = insert key (used c status) budgets

  unfoldable pub draw : Text → DeviceCounterConsumption P → Budgets → Budgets
  unfolding used lookup insert
  draw node c budgets =
      let key : BudgetKey = record { node = node; set = c.counter_set } in
      draw_found key c (lookup key budgets) budgets

  unfoldable pub draw_all : Text → List (DeviceCounterConsumption P) → Budgets → Budgets
  unfolding draw
  draw_all node [] budgets = budgets
  draw_all node (c ∷ cs) budgets = draw_all node cs (draw node c budgets)

  -- The second loop: only allocated devices draw on a budget.
  unfoldable pub draw_device : Allocated → ResourceSlice P → Device P → Budgets → Budgets
  unfolding draw_all lookup
  draw_device allocated s d budgets =
      if is_held (lookup (key_of P s d) allocated)
      then draw_all s.spec.pool_name d.consumes_counters budgets
      else budgets

  unfoldable pub draw_devices : Allocated → ResourceSlice P → List (Device P) → Budgets → Budgets
  unfolding draw_device
  draw_devices allocated s [] budgets = budgets
  draw_devices allocated s (d ∷ devices) budgets =
      draw_devices allocated s devices (draw_device allocated s d budgets)

  unfoldable pub draw_slices : Allocated → List (ResourceSlice P) → Budgets → Budgets
  unfolding draw_devices
  draw_slices allocated [] budgets = budgets
  draw_slices allocated (s ∷ slices) budgets =
      draw_slices allocated slices (draw_devices allocated s s.spec.devices budgets)

  unfoldable pub final_budgets : List (ResourceSlice P) → Allocated → Budgets
  unfolding declare_slices draw_slices
  final_budgets published allocated = draw_slices allocated published (declare_slices published [])

  abbrev pub values : Budgets → List GpuStatus
  values [] = []
  values ((key, status) ∷ budgets) = status ∷ values budgets

  unfoldable pub gpu_before : GpuStatus → GpuStatus → Bool
  unfolding text_leb
  gpu_before a b =
      if a.node == b.node then text_leb a.counter_set b.counter_set else text_leb a.node b.node

  unfoldable pub describe_gpus : List (ResourceSlice P) → Allocated → List GpuStatus
  unfolding final_budgets sort_by gpu_before
  describe_gpus published allocated =
      sort_by gpu_before (values (final_budgets published allocated))
