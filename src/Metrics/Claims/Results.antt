-- ===== src/Metrics/Claims/Results.antt =====
-- internal/metrics/exporter.go: what one claim does to the holders (the loop over its results).
use mathlib.Core.Path.{subst}
use ghostgpu.Base.{
  Bool, true, false, ◌&&◌, Option, none, some, List, [], ◌∷◌, ◌≡◌, ◌≢◌, inl, inr, refl, ◌∙◌, arith,
  Text, codes, text_eq, ◌==◌, if◌then◌else◌, In, Bool-cases,
}
use ghostgpu.Base.Dict.{prefer}
use ghostgpu.Metrics.Cards.{Holder, Holders, find_holder}
use ghostgpu.Metrics.Claims.{DeviceResult, hold, hold_claim}

-- A result of ghostgpu's driver for the device.
abbrev pub Names : Text → Text → DeviceResult → Type 0
Names pool device r = (r.driver ≡ codes "gpu.ghostgpu.dev") × (r.pool ≡ pool) × (r.device ≡ device)

abbrev pub is_named : Text → Text → DeviceResult → Bool
is_named pool device r =
    (r.driver == codes "gpu.ghostgpu.dev") && ((r.pool == pool) && (r.device == device))

-- Some result names the device.
unfoldable pub any_named : Text → Text → List DeviceResult → Bool
any_named pool device [] = false
any_named pool device (r ∷ results) =
    let rest = any_named pool device results in if is_named pool device r then true else rest

pub any_named-In :
    (pool device : Text) (results : List DeviceResult)
    → any_named pool device results ≡ true
    → (r : DeviceResult) × In r results × Names pool device r
unfolding any_named
any_named-In pool device [] e = cc
any_named-In pool device (r ∷ results) e = elim (Bool-cases (is_named pool device r)) [
  | inl here ↦ (r, inl refl, ground arith)
  | inr gone ↦
      let (s, at, names) = any_named-In pool device results (rw gone at e) in (s, inr at, names)
]

pub In-any_named :
    (pool device : Text) (r : DeviceResult) (results : List DeviceResult)
    → In r results
    → Names pool device r
    → any_named pool device results ≡ true
unfolding any_named
In-any_named pool device r [] at n = absurd at
In-any_named pool device r (s ∷ results) (inl e) n =
    let m : Names pool device s = subst (Names pool device) e n in ground arith
In-any_named pool device r (s ∷ results) (inr at) n =
    let rest = In-any_named pool device r results at n in ground arith

-- What the loop over the results does to the entry of a device.
find_holder-hold :
    (pool device : Text) (h : Holder) (results : List DeviceResult) (held : Holders)
    → find_holder pool device (hold h results held)
      ≡ (if any_named pool device results then some h else find_holder pool device held)
unfolding hold any_named find_holder
find_holder-hold pool device h [] held = refl
find_holder-hold pool device h (r ∷ results) held =
    find_holder-hold pool device h results _ ∙ ground arith

-- The holder that one claim gives the device, if it gives one.
abbrev pub owned : Text → Text → Holder → Option (List DeviceResult) → Option Holder
owned pool device h none = none
owned pool device h (some results) =
    if h.pod == [] then none else if any_named pool device results then some h else none

pub find_holder-hold_claim :
    (pool device : Text) (h : Holder) (o : Option (List DeviceResult)) (held : Holders)
    → find_holder pool device (hold_claim o h held)
      ≡ prefer (owned pool device h o) (find_holder pool device held)
find_holder-hold_claim pool device h none held = refl
find_holder-hold_claim pool device h (some results) held =
    let step = find_holder-hold pool device h results held in ground arith

pub owned-some :
    (pool device : Text) (g h : Holder) (o : Option (List DeviceResult))
    → owned pool device g o ≡ some h
    → (results : List DeviceResult) × (o ≡ some results)
      × (g.pod ≢ [])
      × (any_named pool device results ≡ true)
      × (g ≡ h)
owned-some pool device g h none e = cc
owned-some pool device g h (some results) e = elim (Bool-cases (g.pod == [])) [
  | inl blank ↦ absurd (let nothing = rw blank at e in cc)
  | inr named ↦ elim (Bool-cases (any_named pool device results)) [
    | inl here ↦ (results, refl, (λ p. ground arith), here, let same = rw (named, here) at e in cc)
    | inr gone ↦ absurd (let nothing = rw (named, gone) at e in cc)
  ]
]

pub some-owned :
    (pool device : Text) (h : Holder) (results : List DeviceResult)
    → h.pod ≢ []
    → any_named pool device results ≡ true
    → owned pool device h (some results) ≡ some h
some-owned pool device h results named here =
    let set : (h.pod == []) ≡ false = ground arith in rw (set, here) refl
