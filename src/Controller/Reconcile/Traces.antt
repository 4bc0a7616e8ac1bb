-- ===== src/Controller/Reconcile/Traces.antt =====
-- Properties of every write of a run, by the way that actions are composed.
use ghostgpu.Base.{
  Bool, true, false, ◌≡◌, refl, [], ◌∷◌, Result, ok, err, if◌then◌else◌, All, All-append,
}
use ghostgpu.Platform.{Platform}
use ghostgpu.Controller.Client.{ApiError, Write, Client, World, Action, bind, resume, call}

module _ (P : Platform) (C : Client P) (Q : Write P → Type 0) where
  -- Every write that the action adds has the property.
  abbrev pub Keeps : {A : Type 0} → Action P C A → Type 0
  Keeps m = (w : World P C) → All Q w.writes → All Q (m w).1.writes

  pub call-Keeps : (x : Write P) → Q x → Keeps (call P C x)
  unfolding call
  call-Keeps x q w h = All-append Q w.writes (x ∷ []) h (q, tt)

  -- The result, if there is one, has the property `R` as well.
  abbrev pub Holds : {A : Type 0} → (A → Type 0) → Result ApiError A → Type 0
  Holds R (ok a) = R a
  Holds R (err e) = Unit

  abbrev pub Gives : {A : Type 0} → (A → Type 0) → Action P C A → Type 0
  Gives R m = (w : World P C) → All Q w.writes → All Q (m w).1.writes × Holds R (m w).0

  resume-Keeps :
      {A B : Type 0} (R : A → Type 0) (f : A → Action P C B) (r : Result ApiError A × World P C)
      → ((a : A) → R a → Keeps (f a))
      → All Q r.1.writes
      → Holds R r.0
      → All Q (resume P C f r).1.writes
  resume-Keeps R f (ok a, w) hf h q = hf a q w h
  resume-Keeps R f (err e, w) hf h q = h

  pub bind-Gives :
      {A B : Type 0} (R : A → Type 0) (m : Action P C A) (f : A → Action P C B)
      → Gives R m
      → ((a : A) → R a → Keeps (f a))
      → Keeps (bind P C m f)
  bind-Gives R m f hm hf w h = resume-Keeps R f (m w) hf (hm w h).0 (hm w h).1

  result-Holds : {A : Type 0} (r : Result ApiError A) → Holds (λ _. Unit) r
  result-Holds (ok a) = tt
  result-Holds (err e) = tt

  pub bind-Keeps :
      {A B : Type 0} (m : Action P C A) (f : A → Action P C B)
      → Keeps m
      → ((a : A) → Keeps (f a))
      → Keeps (bind P C m f)
  bind-Keeps m f hm hf w h =
      resume-Keeps (λ _. Unit) f (m w) (λ a _. hf a) (hm w h) (result-Holds (m w).0)

  pub if-Keeps :
      {A : Type 0} (b : Bool) (m n : Action P C A)
      → (b ≡ true → Keeps m)
      → Keeps n
      → Keeps (if b then m else n)
  if-Keeps true m n hm hn = hm refl
  if-Keeps false m n hm hn = hn

  pub if-Gives :
      {A : Type 0} (R : A → Type 0) (b : Bool) (m n : Action P C A)
      → Gives R m
      → Gives R n
      → Gives R (if b then m else n)
  if-Gives R true m n hm hn = hm
  if-Gives R false m n hm hn = hn
