-- ===== src/Cli/Status/Budgets/Spent.antt =====
-- internal/cli/status.go: the budget of a GPU and the devices that draw on it.
use mathlib.Core.Path.{subst}
use ghostgpu.Base.{
  ◌^◌, Option, none, some, List, [], ◌∷◌, ◌≡◌, refl, sym, ◌∙◌, ap, inl, inr, arith, Option-cases,
  text_eq, All, sort_by-All,
}
use ghostgpu.Base.Dict.{lookup, lookup-cons, DistinctKeys}
use ghostgpu.Base.Int.{ℤ, pos, ◌+ℤ◌, int_laws, mul_pos}
use ghostgpu.Platform.{Platform, IsLawful, binary_si}
use ghostgpu.Api.{DeviceCounterConsumption, ResourceSlice}
use ghostgpu.Cli.Status.{Allocated, device_key_eq, counter_slices, counter_memory}
use ghostgpu.Cli.Status.Budgets.{
  BudgetKey, budget_key_eq, GpuStatus, Budgets, declare_slices, add_slices, add_memory, used,
  final_budgets, values, gpu_before, describe_gpus,
}
use ghostgpu.Cli.Status.Budgets.Draws.{drawn, spend, spend_on, lookup-draw_slices}
use ghostgpu.Cli.Status.Budgets.Keys.{
  IsNew, declare_slices-AllNew, lookup-AllNew, declare_slices-DistinctKeys,
  draw_slices-DistinctKeys,
}

module _ (P : Platform) where
  -- What holds of all that a lookup finds holds of all values.
  values-All :
      (Q : GpuStatus P → Type 0) (b : Budgets P)
      → DistinctKeys b
      → ((key : BudgetKey) (st : GpuStatus P) → lookup key b ≡ some st → Q st)
      → All Q (values P b)
  values-All Q [] u h = tt
  values-All Q ((k, st) ∷ b) (fresh, u) h = (
    h k st (rw (lookup-cons k k st b) (ground arith)),
    values-All Q b u (λ key found e. h key found (later key found e)),
  )
    where
      later :
          (key : BudgetKey) (found : GpuStatus P)
          → lookup key b ≡ some found
          → lookup key ((k, st) ∷ b) ≡ some found
      later key found e = ground (arith, lookup-cons key k st b)

  -- The compute slices of a list of consumptions, added as int64 from the front.
  abbrev pub slices_drawn : List (DeviceCounterConsumption P) → ℤ → ℤ
  slices_drawn [] n = n
  slices_drawn (c ∷ cs) n = slices_drawn cs (add_slices P (lookup counter_slices c.counters) n)

  spend-slices :
      (cs : List (DeviceCounterConsumption P)) (st : GpuStatus P)
      → (spend P cs st).used_slices ≡ slices_drawn cs st.used_slices
  unfolding spend used
  spend-slices [] st = refl
  spend-slices (c ∷ cs) st = spend-slices cs (used P c st)

  spend-place :
      (cs : List (DeviceCounterConsumption P)) (st : GpuStatus P)
      → ((spend P cs st).node ≡ st.node) × ((spend P cs st).counter_set ≡ st.counter_set)
  unfolding spend used
  spend-place [] st = (refl, refl)
  spend-place (c ∷ cs) st = spend-place cs (used P c st)

  module _ (L : IsLawful P) where
    abbrev memory_of : Option P.Quantity → ℤ
    memory_of none = pos 0
    memory_of (some q) = L.amount q

    -- The memory of a list of consumptions.
    abbrev pub memory_drawn : List (DeviceCounterConsumption P) → ℤ
    memory_drawn [] = pos 0
    memory_drawn (c ∷ cs) = memory_of (lookup counter_memory c.counters) +ℤ memory_drawn cs

    add_memory-amount :
        (o : Option P.Quantity) (q : P.Quantity)
        → L.amount (add_memory P o q) ≡ L.amount q +ℤ memory_of o
    add_memory-amount none q = omega int_laws
    add_memory-amount (some r) q = L.amount-add q r

    spend-memory :
        (cs : List (DeviceCounterConsumption P)) (st : GpuStatus P)
        → L.amount (spend P cs st).used_memory ≡ L.amount st.used_memory +ℤ memory_drawn cs
    unfolding spend used
    spend-memory [] st = omega int_laws
    spend-memory (c ∷ cs) st =
        spend-memory cs (used P c st)
        ∙ ap (λ a. a +ℤ memory_drawn cs)
            (add_memory-amount (lookup counter_memory c.counters) st.used_memory)
        ∙ omega int_laws

    -- What a GPU is said to use is what the allocated devices draw on its counter set.
    pub record IsCarried (allocated : Allocated) (published : List (ResourceSlice P))
        (g : GpuStatus P) : Type 0 where
      pub slices_lem :
          g.used_slices
          ≡ slices_drawn
              (drawn P (record { node = g.node; set = g.counter_set }) allocated published)
              (pos 0)
      pub memory_lem :
          L.amount g.used_memory
          ≡ memory_drawn
              (drawn P (record { node = g.node; set = g.counter_set }) allocated published)

    found-IsCarried :
        (allocated : Allocated) (published : List (ResourceSlice P)) (key : BudgetKey)
        (st : GpuStatus P)
        → lookup key (final_budgets P published allocated) ≡ some st
        → IsCarried allocated published st
    unfolding final_budgets
    found-IsCarried allocated published key st e =
        let cs = drawn P key allocated published in
        let new = declare_slices P published [] in
        let spent : spend_on P cs (lookup key new) ≡ some st =
          sym (lookup-draw_slices P key allocated published new) ∙ e in
        elim (Option-cases (lookup key new)) [
          | inl missing ↦ absurd (let wrong = rw missing at spent in cc)
          | inr (first, found) ↦
              carried key first st
                (lookup-AllNew P key first new (declare_slices-AllNew P published [] tt) found)
                (some_inj (rw found at spent))
        ]
      where
        some_inj : {a b : GpuStatus P} → ◌≡◌ {A = Option (GpuStatus P)} (some a) (some b) → b ≡ a
        some_inj h = ground arith

        carried :
            (key : BudgetKey) (first st : GpuStatus P)
            → IsNew P key first
            → st ≡ spend P (drawn P key allocated published) first
            → IsCarried allocated published st
        carried key first st n same =
            let cs = drawn P key allocated published in
            let (at_node, at_set) = spend-place cs first in
            let node : st.node ≡ key.node =
              ap (λ (g : GpuStatus P). g.node) same ∙ at_node ∙ n.node_lem in
            let set : st.counter_set ≡ key.set =
              ap (λ (g : GpuStatus P). g.counter_set) same ∙ at_set ∙ n.set_lem in
            let here : ◌≡◌ {A = BudgetKey} key (record { node = st.node; set = st.counter_set }) =
              ground arith in
            record {
              slices_lem =
                  subst (λ k. st.used_slices ≡ slices_drawn (drawn P k allocated published) (pos 0))
                    here
                    (ap (λ (g : GpuStatus P). g.used_slices) same
                      ∙ spend-slices cs first
                      ∙ ap (slices_drawn cs) n.slices_lem);
              memory_lem =
                  subst
                    (λ k. L.amount st.used_memory ≡ memory_drawn (drawn P k allocated published))
                    here
                    (ap (λ (g : GpuStatus P). L.amount g.used_memory) same
                      ∙ spend-memory cs first
                      ∙ ap (λ q. L.amount q +ℤ memory_drawn cs) n.memory_lem
                      ∙ rw (L.amount-new_quantity (pos 0) binary_si, mul_pos 0 (10 ^ 9))
                          (omega int_laws));
            }

    -- For lawful quantities, the compute slices and the memory that the report shows as used on a
    -- GPU are those of what the allocated devices of its node draw on its counter set, and of nothing
    -- else: the memory as a sum, the slices as a sum of int64.
    pub describe_gpus-IsCarried :
        (published : List (ResourceSlice P)) (allocated : Allocated)
        → All (IsCarried allocated published) (describe_gpus P published allocated)
    unfolding describe_gpus
    describe_gpus-IsCarried published allocated =
        sort_by-All (IsCarried allocated published) (gpu_before P)
          (values P (final_budgets P published allocated))
          (values-All (IsCarried allocated published) (final_budgets P published allocated)
            (unfold final_budgets in
              draw_slices-DistinctKeys P allocated published (declare_slices P published [])
                (declare_slices-DistinctKeys P published [] tt))
            (found-IsCarried allocated published))
