-- ===== src/Cli/Apply.antt =====
-- internal/cli/apply.go: `Apply` and `WaitForPool`. The API server is a parameter: the code reads an
-- object's resourceVersion, and creates or updates the object.
pub mod Again
pub mod Wait
use ghostgpu.Base.{
  Bool, true, false, ◌&&◌, Option, none, some, List, [], ◌∷◌, map, if◌then◌else◌, Result, ok, err,
  Text,
}
use ghostgpu.Base.Int.{ℤ, pos, leb_ℤ, ltb_ℤ}
use ghostgpu.Text.{to_lower}
use ghostgpu.Platform.{Platform}
use ghostgpu.Api.{GpuPool}
use ghostgpu.Cli.Objects.{Object, kind_of, name_of}

-- `apierrors.IsNotFound(err)`, and every other error.
pub data ReadError : Type 0 where
  not_found : ReadError
  read_failed : (message : Text) → ReadError

-- A read finds an object by its kind and its name; a write also gives the store after it.
pub record Server (P : Platform) : Type 1 where
  pub Store : Type 0
  pub get : Text → Text → Store → Result ReadError Text
  pub create : Object P → Store → Result Text Unit × Store
  pub update : Object P → Text → Store → Result Text Unit × Store

-- The lines that are printed.
pub data Line : Type 0 where
  created configured : (kind name : Text) → Line

pub data ApplyError : Type 0 where
  creating reading updating : (kind name error : Text) → ApplyError

module _ (P : Platform) (S : Server P) where
  -- `strings.ToLower` of the kind.
  abbrev pub shown_kind : Object P → Text
  shown_kind o = map to_lower (kind_of P o)

  -- What Apply returns, with the store after it.
  pub record Applied : Type 0 where
    pub lines : List Line
    pub error : Option ApplyError
    pub store : S.Store

  abbrev pub reported : (Text → ApplyError) → Line → Result Text Unit → Result ApplyError Line
  reported error line (ok done) = ok line
  reported error line (err message) = err (error message)

  -- The `switch` on the error of the read.
  unfoldable pub written :
      Object P → Result ReadError Text → S.Store → Result ApplyError Line × S.Store
  unfolding kind_of name_of
  written o (err not_found) store =
      let (r, after) = S.create o store in
      (
        reported (creating (shown_kind o) (name_of P o)) (created (shown_kind o) (name_of P o)) r,
        after,
      )
  written o (err (read_failed message)) store =
      (err (reading (shown_kind o) (name_of P o) message), store)
  written o (ok version) store =
      let (r, after) = S.update o version store in
      (
        reported (updating (shown_kind o) (name_of P o)) (configured (shown_kind o) (name_of P o))
            r,
        after,
      )

  -- One round of the loop.
  unfoldable pub apply_object : Object P → S.Store → Result ApplyError Line × S.Store
  unfolding written kind_of name_of
  apply_object o store = written o (S.get (kind_of P o) (name_of P o) store) store

  -- An error ends the loop, with the lines so far.
  abbrev pub continued : Result ApplyError Line → S.Store → Applied → Applied
  continued (err e) store rest = record { lines = []; error = some e; store = store }
  continued (ok line) store rest = record rest { lines = line ∷ rest.lines }

  unfoldable pub apply : List (Object P) → S.Store → Applied
  unfolding apply_object
  apply [] store = record { lines = []; error = none; store = store }
  apply (o ∷ objects) store =
      let (r, after) = apply_object o store in
      let rest = apply objects after in continued r after rest

pub record PoolReport : Type 0 where
  pub nodes_matched : ℤ
  pub devices_published : ℤ

module _ (P : Platform) where
  -- One round of the wait: what the read of the pool gives, and whether the context is done by the
  -- end of the pause.
  pub record Poll : Type 0 where
    pub read : Result ReadError (GpuPool P)
    pub done : Bool

  pub data Waited : Type 0 where
    published : (report : PoolReport) → Waited
    failed : (last : PoolReport) (message : Text) → Waited
    timed_out : (last : PoolReport) → Waited
    still_waiting : (last : PoolReport) → Waited

  abbrev pub report_of : GpuPool P → PoolReport
  report_of p = record {
    nodes_matched = p.status.nodes_matched;
    devices_published = p.status.devices_published;
  }

  -- `reconciled && last.DevicesPublished > 0`
  unfoldable pub is_settled : GpuPool P → Bool
  is_settled p =
      leb_ℤ p.generation p.status.observed_generation && ltb_ℤ (pos 0) p.status.devices_published

  -- The `select`: `rest` is the wait after the pause.
  abbrev pub paused : Bool → PoolReport → Waited → Waited
  paused done last rest = if done then timed_out last else rest

  -- One round, with the wait that follows on the report that it leaves.
  unfoldable pub after_read :
      Result ReadError (GpuPool P) → Bool → PoolReport → (PoolReport → Waited) → Waited
  unfolding is_settled
  after_read (err not_found) done last wait = paused done last (wait last)
  after_read (err (read_failed message)) done last wait = failed last message
  after_read (ok pool) done last wait =
      if is_settled pool
      then published (report_of pool)
      else paused done (report_of pool) (wait (report_of pool))

  -- The loop, over the polls that there are.
  unfoldable pub wait_for_pool_from : List Poll → PoolReport → Waited
  unfolding after_read
  wait_for_pool_from [] last = still_waiting last
  wait_for_pool_from (poll ∷ polls) last =
      after_read poll.read poll.done last (λ report. wait_for_pool_from polls report)

  unfoldable pub wait_for_pool : List Poll → Waited
  unfolding wait_for_pool_from
  wait_for_pool polls =
      wait_for_pool_from polls (record { nodes_matched = pos 0; devices_published = pos 0 })
