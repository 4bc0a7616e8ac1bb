-- ===== src/Controller/Reconcile/Counts.antt =====
-- internal/controller/gpupool_controller.go: the counts that `Reconcile` writes to the status.
use ghostgpu.Base.{
  ℕ, suc, ◌+◌, ◌^◌, ◌<◌, Bool, true, false, ◌≡◌, refl, ap, ◌∙◌, arith, some, List, [], ◌∷◌, Result,
  ok, err, length, if◌then◌else◌, Bool-cases, inl, inr,
}
use ghostgpu.Base.Int.{pos, add32, add_pos, wrap32_id}
use ghostgpu.Platform.{Platform}
use ghostgpu.Api.{GpuPool, GpuModel, Node, dra_enabled}
use ghostgpu.Mig.{Table}
use ghostgpu.Gpu.Faults.{NodeState, state_for}
use ghostgpu.Safety.{is_simulated_node, filter_simulated}
use ghostgpu.Controller.Client.{ApiError, Client, World, Action, return, bind, resume}
use ghostgpu.Controller.Nodes.{reconcile_node}
use ghostgpu.Controller.Slices.{reconcile_slices}
use ghostgpu.Controller.Reconcile.{
  Progress, add_published, publish_slices, publish_node, count_node, reconcile_nodes,
}

module _ (P : Platform) (C : Client P) where
  -- The result, if there is one, has the property.
  abbrev pub Yields : {A : Type 0} → (A → Type 0) → Result ApiError A → Type 0
  Yields R (ok a) = R a
  Yields R (err e) = Unit

  abbrev Returns : {A : Type 0} → (A → Type 0) → Action P C A → Type 0
  Returns R m = (w : World P C) → Yields R (m w).0

  Yields-imp :
      {A : Type 0} (R S : A → Type 0) (r : Result ApiError A)
      → ((a : A) → R a → S a)
      → Yields R r
      → Yields S r
  Yields-imp R S (ok a) f h = f a h
  Yields-imp R S (err e) f h = tt

  resume-Yields :
      {A B : Type 0} (R : A → Type 0) (S : B → Type 0) (f : A → Action P C B)
      (r : Result ApiError A × World P C)
      → Yields R r.0
      → ((a : A) → R a → Returns S (f a))
      → Yields S (resume P C f r).0
  resume-Yields R S f (ok a, w) h each = each a h w
  resume-Yields R S f (err e, w) h each = tt

  bind-Returns :
      {A B : Type 0} (R : A → Type 0) (S : B → Type 0) (m : Action P C A) (f : A → Action P C B)
      → Returns R m
      → ((a : A) → R a → Returns S (f a))
      → Returns S (bind P C m f)
  bind-Returns R S m f h each w = resume-Yields R S f (m w) (h w) each

  anything : {A : Type 0} (m : Action P C A) → Returns (λ _. Unit) m
  anything m w = trivial (m w).0
    where
      trivial : {A : Type 0} (r : Result ApiError A) → Yields (λ _. Unit) r
      trivial (ok a) = tt
      trivial (err e) = tt

  -- The same number of nodes as before.
  abbrev SameMatched : Progress → Progress → Type 0
  SameMatched progress next = next.matched ≡ progress.matched

  publish_slices-SameMatched :
      (pool : GpuPool P) (model : GpuModel P) (table : Table P) (node : Node P) (state : NodeState)
      (progress : Progress)
      → Returns (SameMatched progress) (publish_slices P C pool model table node state progress)
  unfolding publish_slices
  publish_slices-SameMatched pool model table node state progress =
      either (dra_enabled pool.spec.advertise)
    where
      either :
          (b : Bool)
          → Returns (SameMatched progress) (
              if b
              then bind P C
                  (reconcile_slices P C pool model table node.name state progress.live)
                  (λ published. return P C (add_published P C progress published))
              else return P C progress)
      either true =
          bind-Returns (λ _. Unit) (SameMatched progress)
            (reconcile_slices P C pool model table node.name state progress.live)
            (λ published. return P C (add_published P C progress published))
            (anything (reconcile_slices P C pool model table node.name state progress.live))
            (λ published _ w. refl)
      either false = λ w. refl

  publish_node-SameMatched :
      (pool : GpuPool P) (model : GpuModel P) (table : Table P) (node : Node P) (state : NodeState)
      (progress : Progress)
      → Returns (SameMatched progress) (publish_node P C pool model table node state progress)
  unfolding publish_node
  publish_node-SameMatched pool model table node state progress =
      bind-Returns (SameMatched progress) (SameMatched progress)
        (publish_slices P C pool model table node state progress)
        (λ next. bind P C (reconcile_node P C pool model table node state) (λ _. return P C next))
        (publish_slices-SameMatched pool model table node state progress)
        (λ next same.
          bind-Returns (λ _. Unit) (SameMatched progress)
            (reconcile_node P C pool model table node state) (λ _. return P C next)
            (anything (reconcile_node P C pool model table node state)) (λ _ _ w. same))

  one_more : (m : ℕ) → suc m < 2 ^ 31 → add32 (pos m) (pos 1) ≡ pos (suc m)
  one_more m h = rw (add_pos m 1, wrap32_id (pos (m + 1)) (omega arith)) (ap pos (omega arith))

  -- If no call of the loop over the nodes fails, the number of nodes that it counts grows by the
  -- number of simulated nodes among them, for a total that an int32 holds.
  pub reconcile_nodes-matched :
      (pool : GpuPool P) (model : GpuModel P) (table : Table P) (nodes : List (Node P))
      (progress : Progress) (m : ℕ) (w : World P C)
      → progress.matched ≡ pos m
      → m + length nodes < 2 ^ 31
      → Yields
          (λ next. next.matched ≡ pos (m + length (filter_simulated P nodes)))
          (reconcile_nodes P C pool model table nodes progress w).0
  unfolding reconcile_nodes filter_simulated count_node
  reconcile_nodes-matched pool model table [] progress m w e room = e ∙ ap pos (omega arith)
  reconcile_nodes-matched pool model table (node ∷ nodes) progress m w e room =
      elim (Bool-cases (is_simulated_node P (some node))) [
        | inl real ↦
            let state = state_for P pool node in
            let counted = count_node P C state progress in
            let total = pos (m + suc (length (filter_simulated P nodes))) in
            rw real (
              bind-Returns (λ next. next.matched ≡ pos (suc m)) (λ next. next.matched ≡ total)
                (publish_node P C pool model table node state counted)
                (λ next. reconcile_nodes P C pool model table nodes next)
                (λ v.
                  Yields-imp (SameMatched counted) (λ next. next.matched ≡ pos (suc m))
                    (publish_node P C pool model table node state counted v).0
                    (λ next same. same ∙ ap (λ x. add32 x (pos 1)) e ∙ one_more m (omega arith))
                    (publish_node-SameMatched pool model table node state counted v))
                (λ next q v.
                  Yields-imp (λ n. n.matched ≡ pos (suc m + length (filter_simulated P nodes)))
                    (λ n. n.matched ≡ total) (reconcile_nodes P C pool model table nodes next v).0
                    (λ n h. h ∙ ap pos (omega arith))
                    (reconcile_nodes-matched pool model table nodes next (suc m) v q (omega arith)))
                w)
        | inr skipped ↦
            rw skipped (reconcile_nodes-matched pool model table nodes progress m w e (omega arith))
      ]
