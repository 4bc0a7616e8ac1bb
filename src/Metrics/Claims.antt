-- ===== src/Metrics/Claims.antt =====
-- internal/metrics/exporter.go: the workload that holds each allocated device (`Holders`).
pub mod Results
pub mod Attribution
use ghostgpu.Base.{
  Bool, true, false, Option, none, some, List, [], ◌∷◌, Text, codes, text_eq, ◌==◌, if◌then◌else◌,
}
use ghostgpu.Gpu.WholeSlice.{driver_name}
use ghostgpu.Metrics.Cards.{Holder, no_holder, Allocation, Holders}

-- The parts that are read of the Kubernetes type ResourceClaim.
pub record Consumer : Type 0 where
  pub resource : Text
  pub name : Text

pub record DeviceResult : Type 0 where
  pub driver : Text
  pub pool : Text
  pub device : Text

pub record Claim : Type 0 where
  pub namespace : Text
  pub allocation : Option (List DeviceResult)
  pub reserved_for : List Consumer

abbrev pub pods_resource : Text
pods_resource = codes "pods"

-- The first consumer that is a pod.
unfoldable pub claim_holder : Text → List Consumer → Holder
claim_holder namespace [] = no_holder
claim_holder namespace (c ∷ consumers) =
    let rest = claim_holder namespace consumers in
    if c.resource == pods_resource
    then record { namespace = namespace; pod = c.name; container = [] }
    else rest

-- The loop over the results; a later one of the same device stands first.
unfoldable pub hold : Holder → List DeviceResult → Holders → Holders
hold holder [] held = held
hold holder (r ∷ results) held = hold holder results (
    if r.driver == driver_name
    then (record { pool = r.pool; device = r.device }, holder) ∷ held
    else held)

abbrev pub hold_claim : Option (List DeviceResult) → Holder → Holders → Holders
hold_claim none holder held = held
hold_claim (some results) holder held = if holder.pod == [] then held else hold holder results held

-- The loop over the claims.
unfoldable pub holders_onto : List Claim → Holders → Holders
unfolding hold claim_holder
holders_onto [] held = held
holders_onto (c ∷ claims) held =
    holders_onto claims (hold_claim c.allocation (claim_holder c.namespace c.reserved_for) held)

unfoldable pub holders : List Claim → Holders
unfolding holders_onto
holders claims = holders_onto claims []
