-- ===== src/Cli/Apply/Wait.antt =====
-- internal/cli/apply.go: when `WaitForPool` returns, and with what.
use ghostgpu.Base.{
  Bool, true, false, List, [], ◌∷◌, ◌≡◌, refl, sym, arith, ◌↔◌, ◌⊎◌, inl, inr, Result, ok, err,
  Bool-cases,
}
use ghostgpu.Base.Int.{pos, ◌≤ℤ◌, ◌<ℤ◌}
use ghostgpu.Platform.{Platform}
use ghostgpu.Api.{GpuPool}
use ghostgpu.Cli.Apply.{
  ReadError, not_found, read_failed, PoolReport, Poll, Waited, published, report_of, is_settled,
  paused, after_read, wait_for_pool_from, wait_for_pool,
}

module _ (P : Platform) where
  -- The operator has seen the pool's current spec and has published devices for it.
  pub record IsPublished (p : GpuPool P) : Type 0 where
    pub seen : p.generation ≤ℤ p.status.observed_generation
    pub devices : pos 0 <ℤ p.status.devices_published

  -- What one read tells: the pool as it should be, nothing yet, or a failure.
  abbrev Settles : PoolReport → Result ReadError (GpuPool P) → Type 0
  Settles report (ok pool) =
      IsPublished pool
      × (report ≡ record {
        nodes_matched = pool.status.nodes_matched;
        devices_published = pool.status.devices_published;
      })
  Settles report (err e) = ⊥

  abbrev Passes : Result ReadError (GpuPool P) → Type 0
  Passes (ok pool) = ¬ IsPublished pool
  Passes (err not_found) = Unit
  Passes (err (read_failed message)) = ⊥

  -- Some read settles, and every one before it only passes, with the context not done.
  abbrev pub Reaches : PoolReport → List (Poll P) → Type 0
  Reaches report [] = ⊥
  Reaches report (p ∷ polls) =
      Settles report p.read ⊎ (Passes p.read × (p.done ≡ false) × Reaches report polls)

  is_settled-IsPublished : (p : GpuPool P) → is_settled P p ≡ true → IsPublished p
  unfolding is_settled
  is_settled-IsPublished p h = record { seen = ground arith; devices = ground arith }

  IsPublished-is_settled : (p : GpuPool P) → IsPublished p → is_settled P p ≡ true
  unfolding is_settled
  IsPublished-is_settled p h = let a = h.seen in let b = h.devices in ground arith

  not_paused :
      (done : Bool) (last report : PoolReport) (rest : Waited P)
      → paused P done last rest ≡ published report
      → (done ≡ false) × (rest ≡ published report)
  not_paused true last report rest h = cc
  not_paused false last report rest h = (refl, h)

  Round : PoolReport → Result ReadError (GpuPool P) → Bool → (PoolReport → Waited P) → Type 0
  Round report read done wait =
      Settles report read
      ⊎ (Passes read × (done ≡ false) × ((last : PoolReport) × (wait last ≡ published report)))

  published_inj : (a b : PoolReport) → ◌≡◌ {A = Waited P} (published a) (published b) → a ≡ b
  published_inj a b h = cc

  after_read-Round :
      (read : Result ReadError (GpuPool P)) (done : Bool) (last report : PoolReport)
      (wait : PoolReport → Waited P)
      → after_read P read done last wait ≡ published report
      → Round report read done wait
  unfolding after_read Round
  after_read-Round (err not_found) done last report wait h =
      let (go, more) = not_paused done last report (wait last) h in inr (tt, go, (last, more))
  after_read-Round (err (read_failed message)) done last report wait h = cc
  after_read-Round (ok pool) done last report wait h = elim (Bool-cases (is_settled P pool)) [
    | inl yes_settled ↦ inl (
      is_settled-IsPublished pool yes_settled,
      published_inj report (report_of P pool) (sym (rw yes_settled at h)),
    )
    | inr not_settled ↦
        let (go, more) =
          not_paused done (report_of P pool) report (wait (report_of P pool))
            (rw not_settled at h) in
        inr ((λ k. let s = IsPublished-is_settled pool k in cc), go, (report_of P pool, more))
  ]

  wait_for_pool_from-Reaches :
      (polls : List (Poll P)) (last report : PoolReport)
      → wait_for_pool_from P polls last ≡ published report
      → Reaches report polls
  unfolding wait_for_pool_from Round
  wait_for_pool_from-Reaches [] last report h = cc
  wait_for_pool_from-Reaches (p ∷ polls) last report h =
      elim (after_read-Round p.read p.done last report (λ l. wait_for_pool_from P polls l) h) [
        | inl settled ↦ inl settled
        | inr (passes, go, (next, more)) ↦
            inr (passes, go, wait_for_pool_from-Reaches polls next report more)
      ]

  settled-after_read :
      (read : Result ReadError (GpuPool P)) (done : Bool) (last report : PoolReport)
      (wait : PoolReport → Waited P)
      → Settles report read
      → after_read P read done last wait ≡ published report
  unfolding after_read
  settled-after_read (ok pool) done last report wait (p, same) =
      rw (IsPublished-is_settled pool p, same) refl
  settled-after_read (err e) done last report wait h = absurd h

  passed-after_read :
      (read : Result ReadError (GpuPool P)) (last report : PoolReport)
      (wait : PoolReport → Waited P)
      → Passes read
      → ((l : PoolReport) → wait l ≡ published report)
      → after_read P read false last wait ≡ published report
  unfolding after_read
  passed-after_read (err not_found) last report wait h k = k last
  passed-after_read (err (read_failed message)) last report wait h k = absurd h
  passed-after_read (ok pool) last report wait h k = elim (Bool-cases (is_settled P pool)) [
    | inl yes_settled ↦ absurd (h (is_settled-IsPublished pool yes_settled))
    | inr not_settled ↦ rw not_settled (k (report_of P pool))
  ]

  Reaches-wait_for_pool_from :
      (polls : List (Poll P)) (last report : PoolReport)
      → Reaches report polls
      → wait_for_pool_from P polls last ≡ published report
  unfolding wait_for_pool_from
  Reaches-wait_for_pool_from [] last report h = absurd h
  Reaches-wait_for_pool_from (p ∷ polls) last report (inl settled) =
      settled-after_read p.read p.done last report (λ l. wait_for_pool_from P polls l) settled
  Reaches-wait_for_pool_from (p ∷ polls) last report (inr (passes, go, more)) = rw go (
      passed-after_read p.read last report (λ l. wait_for_pool_from P polls l) passes
        (λ l. Reaches-wait_for_pool_from polls l report more))

  -- The wait for a pool ends with a report exactly when, before a read fails and before the context is
  -- done, a read finds that the operator has seen the pool's current spec and published devices; a
  -- pool that is missing, or that shows an older spec, is waited for. The report is that pool's.
  pub wait_for_pool-published_iff :
      (polls : List (Poll P)) (report : PoolReport)
      → (wait_for_pool P polls ≡ published report) ↔ Reaches report polls
  unfolding wait_for_pool
  wait_for_pool-published_iff polls report =
      let zero_report : PoolReport = record { nodes_matched = pos 0; devices_published = pos 0 } in
      (
        wait_for_pool_from-Reaches polls zero_report report,
        Reaches-wait_for_pool_from polls zero_report report,
      )
