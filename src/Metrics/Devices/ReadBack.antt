-- ===== src/Metrics/Devices/ReadBack.antt =====
-- internal/metrics/collector.go on the devices of internal/gpu and the names of internal/mig.
use ghostgpu.Base.{
  ℕ, ◌^◌, ◌<◌, Bool, true, false, not, ◌&&◌, none, some, List, ◌∷◌, ◌++◌, ◌≡◌, refl, ap, ◌∙◌, arith,
  Text, codes, text_eq, if◌then◌else◌, Bool-cases, inl, inr,
}
use ghostgpu.Base.Int.{ℤ, pos, negsuc, leb_ℤ, ltb_ℤ, IsInt32}
use ghostgpu.Text.{decimal, format_int, cut_prefix, parse_int, replace_all}
use ghostgpu.Text.Cut.{cut-append, cut-Lacks, cut_prefix-append}
use ghostgpu.Text.Decimal.{decimal-Lacks, parse_int-decimal}
use ghostgpu.Platform.{Platform}
use ghostgpu.Api.{GpuPool, GpuModel, DeviceTaint}
use ghostgpu.Mig.Expand
use ghostgpu.Gpu.Identity
use ghostgpu.Gpu.Occupancy.{occupied_taint}
use ghostgpu.Gpu.Faults.{NodeState, fault_value, faulted_taint, taint_of, is_faulted, is_occupied}
use ghostgpu.Gpu.WholeSlice.{whole_device, taint_list}
use ghostgpu.Metrics.Devices.{
  index_of, index_after, xid_of, card_index, is_occupied_taints, xid_after, faulted_xid_taints,
  occupied, faulted_xid,
}

read_index : (i : ℕ) → i < 2 ^ 31 → index_of (parse_int (2 ^ 31) (decimal i)) ≡ some (pos i)
read_index i h = rw (parse_int-decimal (2 ^ 31) i h) (ground arith)

index_after-whole : (i : ℕ) → i < 2 ^ 31 → index_after (some (decimal i)) ≡ some (pos i)
index_after-whole i h = rw (cut-Lacks b'-' (decimal i) (decimal-Lacks b'-' refl i)) (read_index i h)

index_after-instance :
    (i : ℕ) (tail : Text)
    → i < 2 ^ 31
    → index_after (some (decimal i ++ (b'-' ∷ tail))) ≡ some (pos i)
index_after-instance i tail h =
    rw (cut-append b'-' (decimal i) tail (decimal-Lacks b'-' refl i)) (read_index i h)

-- The index of the GPU is read back from the name of its device, and from the name of each of its MIG
-- instances, if an int32 holds it.
pub card_index-device_name :
    (node profile : Text) (i : ℕ)
    → i < 2 ^ 31
    → (card_index (Identity.device_name node (pos i)) ≡ some (pos i))
      × (card_index (Expand.device_name (pos i) profile) ≡ some (pos i))
unfolding card_index Identity.device_name Expand.device_name format_int
card_index-device_name node profile i h = (
  ap index_after (cut_prefix-append (codes "gpu-") (decimal i)) ∙ index_after-whole i h,
  ap index_after
        (cut_prefix-append (codes "gpu-") (decimal i ++ (b'-' ∷ replace_all b'.' b'-' profile)))
      ∙ index_after-instance i (replace_all b'.' b'-' profile) h,
)

-- The error that a taint reports.
abbrev pub reported : ℤ → ℤ
reported xid = if leb_ℤ xid (pos 0) then pos 0 else xid

xid_after-fault_value :
    (xid : ℤ) → IsInt32 xid → xid_after (cut_prefix (codes "xid-") (fault_value xid)) ≡ reported xid
unfolding fault_value format_int
xid_after-fault_value (negsuc n) h = unfold cut_prefix in ground arith
xid_after-fault_value (pos n) h = elim (Bool-cases (leb_ℤ (pos n) (pos 0))) [
  | inl e ↦ rw e (unfold cut_prefix in refl)
  | inr e ↦ rw e (
      ap xid_after (cut_prefix-append (codes "xid-") (decimal n))
      ∙ ap xid_of (parse_int-decimal (2 ^ 31) n h.0))
]

-- The taints of a GPU by what its state says of it.
taints_of : (effect : Text) (xid : ℤ) (failed busy : Bool) → List DeviceTaint
taints_of effect xid failed busy = taint_list (
    if failed
    then some (faulted_taint effect xid)
    else if not failed && busy
    then some occupied_taint
    else none)

read_taints :
    (effect : Text) (xid : ℤ) (failed busy : Bool)
    → IsInt32 xid
    → (faulted_xid_taints (taints_of effect xid failed busy)
        ≡ (if failed then reported xid else pos 0, failed))
      × (is_occupied_taints (taints_of effect xid failed busy) ≡ (not failed && busy))
unfolding taints_of faulted_xid_taints is_occupied_taints faulted_taint occupied_taint text_eq
read_taints effect xid true busy h = (ap (λ x. (x, true)) (xid_after-fault_value xid h), refl)
read_taints effect xid false true h = (refl, refl)
read_taints effect xid false false h = (refl, refl)

module _ (P : Platform) where
  -- What the metrics read from a published whole GPU is its state, for an error code that an int32
  -- holds: the GPU is failed exactly when the state says so, then with the declared error if it is
  -- positive and zero otherwise, and it is occupied exactly when the state says so.
  pub faulted_xid-whole_device :
      (pool : GpuPool P) (model : GpuModel P) (node : Text) (state : NodeState) (i : ℤ)
      → IsInt32 state.xid
      → let d = whole_device P pool model node state i in
        (faulted_xid P d
          ≡ (if is_faulted state i then reported state.xid else pos 0, is_faulted state i))
        × (occupied P d ≡ is_occupied state i)
  unfolding whole_device faulted_xid occupied taint_of is_occupied taints_of
  faulted_xid-whole_device pool model node state i h =
      read_taints state.effect state.xid (is_faulted state i) (ltb_ℤ i state.busy) h
