-- ===== src/Safety/Guard.antt =====
-- internal/safety/guard.go: what `FilterSimulated` keeps.
use ghostgpu.Base.{true, some, List, [], ◌∷◌, ◌≡◌, ◌↔◌, arith, In}
use ghostgpu.Platform.{Platform}
use ghostgpu.Api.{Node}
use ghostgpu.Safety.{is_simulated_node, filter_simulated}

module _ (P : Platform) where
  -- `FilterSimulated` keeps exactly those of the given nodes that carry kwok's annotation.
  pub filter_simulated-In_iff :
      (nodes : List (Node P)) (n : Node P)
      → In n (filter_simulated P nodes) ↔ (In n nodes × (is_simulated_node P (some n) ≡ true))
  unfolding filter_simulated
  filter_simulated-In_iff [] n = ground arith
  filter_simulated-In_iff (m ∷ nodes) n = ground (arith, filter_simulated-In_iff nodes n)
