-- ===== src/Controller/Resources/Laws.antt =====
-- internal/controller/gpupool_controller.go: `applyGPUResources` against `resourcesMatch`.
use Prim.Native.Nat.{Ordering}
use ghostgpu.Base.{
  Bool, true, false, Option, none, some, [], ◌∷◌, ◌≡◌, ◌⊎◌, inl, inr, refl, ap, ◌∙◌, arith, Text,
  text_eq, if◌then◌else◌, All, All-imp, Bool-cases,
}
use ghostgpu.Base.Dict.{Dict, lookup, insert, copy, prefer, DistinctKeys, lookup-copy}
use ghostgpu.Platform.{Platform, IsLawful}
use ghostgpu.Api.{Labels, ResourceList}
use ghostgpu.Controller.Resources.{
  manages_resource, is_expected, all_present, none_stale, resources_match, unmanaged,
  apply_gpu_resources, labels_match,
}

module _ {V : Type 0} where
  -- Each entry of a map whose keys are distinct is found by its key.
  pub entries-found : (d : Dict Text V) → DistinctKeys d → All (λ (k, v). lookup k d ≡ some v) d
  unfolding lookup
  entries-found [] u = tt
  entries-found ((k, v) ∷ d) (fresh, u) =
      (ground arith, All-imp (λ (j, w) h. later j w h) d (entries-found d u))
    where
      later : (j : Text) (w : V) → lookup j d ≡ some w → lookup j ((k, v) ∷ d) ≡ some w
      later j w h = ground arith

  module _ (Q : Text → Type 0) where
    abbrev AllKeys : Dict Text V → Type 0
    AllKeys = All (λ (k, v). Q k)

    AllKeys-insert : (k : Text) (v : V) (d : Dict Text V) → Q k → AllKeys d → AllKeys (insert k v d)
    unfolding insert
    AllKeys-insert k v [] q h = (q, tt)
    AllKeys-insert k v ((j, w) ∷ d) q (qj, h) = ground (arith, AllKeys-insert k v d q h)

    AllKeys-copy : (d more : Dict Text V) → AllKeys d → AllKeys more → AllKeys (copy d more)
    unfolding copy
    AllKeys-copy d [] h hm = h
    AllKeys-copy d ((k, v) ∷ more) h (q, hm) =
        AllKeys-copy (insert k v d) more (AllKeys-insert k v d q h) hm

module _ (P : Platform) where
  lookup-unmanaged :
      (name : Text) (resources : ResourceList P)
      → lookup name (unmanaged P resources)
        ≡ (if manages_resource name then none else lookup name resources)
  unfolding unmanaged lookup
  lookup-unmanaged name [] = ground arith
  lookup-unmanaged name ((k, q) ∷ resources) = ground (arith, lookup-unmanaged name resources)

  -- For desired resources whose names differ, after `applyGPUResources` a resource of the program
  -- is there just as desired, absent if it is not desired, and any other is as before, unless it is
  -- itself desired.
  pub lookup-apply_gpu_resources :
      (name : Text) (resources want : ResourceList P)
      → DistinctKeys want
      → lookup name (apply_gpu_resources P resources want) ≡ (
          if manages_resource name
          then lookup name want
          else prefer (lookup name want) (lookup name resources))
  unfolding apply_gpu_resources
  lookup-apply_gpu_resources name resources want u =
      rw (lookup-copy name (unmanaged P resources) want u, lookup-unmanaged name resources)
        (cases (manages_resource name) (lookup name want))
    where
      cases :
          (b : Bool) (o : Option P.Quantity)
          → prefer o (if b then none else lookup name resources)
            ≡ (if b then o else prefer o (lookup name resources))
      cases true none = refl
      cases true (some q) = refl
      cases false none = refl
      cases false (some q) = refl

  module _ (L : IsLawful P) where
    cmp_same : (q : P.Quantity) → P.cmp q q ≡ Ordering.eq
    cmp_same q = ground (arith, L.cmp-amount q q)

    all_present_of :
        (have want : ResourceList P)
        → All (λ (k, q). lookup k have ≡ some q) want
        → all_present P have want ≡ true
    unfolding all_present
    all_present_of have [] h = refl
    all_present_of have ((k, q) ∷ want) (e, h) =
        ground (arith, cmp_same q, all_present_of have want h)

    unfoldable Expected : ResourceList P → Text → Type 0
    Expected want k = (manages_resource k ≡ false) ⊎ (is_expected P (lookup k want) ≡ true)

    none_stale_of :
        (have want : ResourceList P)
        → All (λ (k, q). Expected want k) have
        → none_stale P have want ≡ true
    unfolding none_stale Expected
    none_stale_of [] want h = refl
    none_stale_of ((k, q) ∷ have) want (e, h) = ground (arith, none_stale_of have want h)

    unmanaged-Expected :
        (resources want : ResourceList P) → All (λ (k, q). Expected want k) (unmanaged P resources)
    unfolding unmanaged Expected
    unmanaged-Expected [] want = tt
    unmanaged-Expected ((k, q) ∷ resources) want = elim (Bool-cases (manages_resource k)) [
      | inl e ↦ rw e (unmanaged-Expected resources want)
      | inr e ↦ rw e ((inl e, unmanaged-Expected resources want))
    ]

    -- For lawful quantities and desired resources whose names differ, `resourcesMatch` accepts what
    -- `applyGPUResources` makes of any list.
    pub resources_match-apply_gpu_resources :
        (resources want : ResourceList P)
        → DistinctKeys want
        → resources_match P (apply_gpu_resources P resources want) want ≡ true
    unfolding resources_match apply_gpu_resources Expected
    resources_match-apply_gpu_resources resources want u =
        rw
          (
            all_present_of (copy (unmanaged P resources) want) want (
                All-imp
                  (λ (k, q) e.
                    lookup-copy k (unmanaged P resources) want u
                    ∙ ap (λ o. prefer o (lookup k (unmanaged P resources))) e)
                  want (entries-found want u)),
            none_stale_of (copy (unmanaged P resources) want) want (
                AllKeys-copy (Expected want) (unmanaged P resources) want
                  (unmanaged-Expected resources want)
                  (All-imp (λ (k, q) e. inr (ap (is_expected P) e)) want (entries-found want u))),
          )
          refl

labels_match_of :
    (have desired : Labels)
    → All (λ (k, v). lookup k have ≡ some v) desired
    → labels_match have desired ≡ true
unfolding labels_match
labels_match_of have [] h = refl
labels_match_of have ((k, v) ∷ desired) (e, h) = ground (arith, labels_match_of have desired h)

-- What a copy of the desired labels leaves, they match.
pub labels_match-copy :
    (labels desired : Labels)
    → DistinctKeys desired
    → labels_match (copy labels desired) desired ≡ true
labels_match-copy labels desired u = labels_match_of (copy labels desired) desired (
    All-imp (λ (k, v) e. lookup-copy k labels desired u ∙ ap (λ o. prefer o (lookup k labels)) e)
      desired (entries-found desired u))
