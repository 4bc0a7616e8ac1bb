-- ===== src/Safety.antt =====
-- internal/safety/guard.go: the nodes that the program may change.
pub mod Guard
use ghostgpu.Base.{
  Bool, true, false, Option, none, some, List, [], ◌∷◌, Text, codes, text_eq, if◌then◌else◌,
}
use ghostgpu.Base.Dict.{lookup}
use ghostgpu.Platform.{Platform}
use ghostgpu.Api.{Node}

abbrev pub kwok_node_annotation : Text
kwok_node_annotation = codes "kwok.x-k8s.io/node"

abbrev pub is_there : Option Text → Bool
is_there none = false
is_there (some v) = true

module _ (P : Platform) where
  -- A nil pointer is `none`.
  unfoldable pub is_simulated_node : Option (Node P) → Bool
  unfolding lookup
  is_simulated_node none = false
  is_simulated_node (some node) = is_there (lookup kwok_node_annotation node.annotations)

  unfoldable pub filter_simulated : List (Node P) → List (Node P)
  unfolding is_simulated_node
  filter_simulated [] = []
  filter_simulated (n ∷ nodes) =
      let rest = filter_simulated nodes in if is_simulated_node (some n) then n ∷ rest else rest
