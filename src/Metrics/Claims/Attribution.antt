-- ===== src/Metrics/Claims/Attribution.antt =====
-- internal/metrics/exporter.go: the claim that a device's holder comes from.
use ghostgpu.Base.{Option, none, some, List, [], ◌∷◌, ◌≡◌, ◌≢◌, ◌⊎◌, Text, codes, text_eq, In}
use ghostgpu.Base.Dict.{prefer}
use ghostgpu.Metrics.Cards.{Holder}
use ghostgpu.Metrics.Claims.{Consumer, DeviceResult, Claim, claim_holder}
use ghostgpu.Metrics.Claims.Results.{Names, any_named, owned}

-- `pod` is the name of the first consumer that is a pod.
abbrev pub IsFirstPod : Text → List Consumer → Type 0
IsFirstPod pod [] = ⊥
IsFirstPod pod (c ∷ consumers) =
    ((c.resource ≡ codes "pods") × (pod ≡ c.name))
    ⊎ ((c.resource ≢ codes "pods") × IsFirstPod pod consumers)

-- The claim is allocated the device, and the holder is the first pod that it is reserved for, in the
-- claim's namespace.
pub record Attributes (pool device : Text) (h : Holder) (c : Claim) : Type 0 where
  pub results : List DeviceResult
  pub allocated : c.allocation ≡ some results
  pub result : DeviceResult
  pub at : In result results
  pub names : Names pool device result
  pub first : IsFirstPod h.pod c.reserved_for
  pub named : h.pod ≢ []
  pub namespace : h.namespace ≡ c.namespace
  pub no_container : h.container ≡ []

-- The last of the claims that attribute the device to some pod attributes it to `h`.
abbrev pub IsHeld : Text → Text → Holder → List Claim → Type 0
IsHeld pool device h [] = ⊥
IsHeld pool device h (c ∷ claims) =
    IsHeld pool device h claims
    ⊎ (((g : Holder) → ¬ IsHeld pool device g claims) × Attributes pool device h c)

abbrev own : Text → Text → Claim → Option Holder
own pool device c = owned pool device (claim_holder c.namespace c.reserved_for) c.allocation

-- The holder that the last of the claims gives.
unfoldable last_own : Text → Text → List Claim → Option Holder
unfolding any_named claim_holder
last_own pool device [] = none
last_own pool device (c ∷ claims) = prefer (last_own pool device claims) (own pool device c)

abbrev IsPodOf : Text → List Consumer → Holder → Type 0
IsPodOf namespace consumers h =
    IsFirstPod h.pod consumers × (h.namespace ≡ namespace) × (h.container ≡ [])
