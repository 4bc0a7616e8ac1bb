-- ===== src/Controller/Resources.antt =====
-- internal/controller/gpupool_controller.go: the resources and labels of a node against the desired
-- ones (`managesResource`, `resourcesMatch`, `applyGPUResources`, `labelsMatch`).
pub mod Laws
use Prim.Native.Nat.{Ordering}
use ghostgpu.Base.{
  Bool, true, false, not, ◌||◌, ◌&&◌, Option, none, some, List, [], ◌∷◌, Text, text_eq, ◌==◌,
  if◌then◌else◌,
}
use ghostgpu.Base.Dict.{Dict, lookup, get_or, copy}
use ghostgpu.Text.{has_prefix}
use ghostgpu.Platform.{Platform}
use ghostgpu.Api.{Labels, ResourceList}
use ghostgpu.Gpu.Resources.{gpu_resource_name, mig_resource_prefix}

unfoldable pub manages_resource : Text → Bool
unfolding has_prefix
manages_resource name = (name == gpu_resource_name) || has_prefix mig_resource_prefix name

module _ (P : Platform) where
  -- `ok && haveQty.Cmp(wantQty) == 0`
  abbrev pub same_quantity : Option P.Quantity → P.Quantity → Bool
  same_quantity none want = false
  same_quantity (some have) want = elim (P.cmp have want) [ Ordering.eq ↦ true | _ ↦ false ]

  abbrev pub is_expected : Option P.Quantity → Bool
  is_expected none = false
  is_expected (some q) = true

  -- The first loop: every desired resource is there in its quantity.
  unfoldable pub all_present : ResourceList P → ResourceList P → Bool
  unfolding lookup
  all_present have [] = true
  all_present have ((name, qty) ∷ want) =
      let rest = all_present have want in
      if same_quantity (lookup name have) qty then rest else false

  -- The second loop: no resource of ours is there without being desired.
  unfoldable pub none_stale : ResourceList P → ResourceList P → Bool
  unfolding lookup
  none_stale [] want = true
  none_stale ((name, qty) ∷ have) want =
      let rest = none_stale have want in
      if manages_resource name then if is_expected (lookup name want) then rest else false else rest

  unfoldable pub resources_match : ResourceList P → ResourceList P → Bool
  unfolding all_present none_stale
  resources_match have want = all_present have want && none_stale have want

  -- The loop of `applyGPUResources`.
  unfoldable pub unmanaged : ResourceList P → ResourceList P
  unmanaged [] = []
  unmanaged ((name, qty) ∷ resources) =
      let rest = unmanaged resources in if manages_resource name then rest else (name, qty) ∷ rest

  unfoldable pub apply_gpu_resources : ResourceList P → ResourceList P → ResourceList P
  unfolding unmanaged copy
  apply_gpu_resources resources want = copy (unmanaged resources) want

-- `have[k] != v` reads a missing key as the empty text.
unfoldable pub labels_match : Labels → Labels → Bool
unfolding lookup
labels_match have [] = true
labels_match have ((k, v) ∷ desired) =
    let rest = labels_match have desired in if get_or k have [] == v then rest else false
