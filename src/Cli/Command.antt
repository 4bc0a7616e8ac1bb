-- ===== src/Cli/Command.antt =====
-- cmd/ghostgpu/main.go: the commands `up` and `status` of the tool, from their flags on. Flags are
-- parsed by Go; the connection to the cluster, the rendering as YAML and the reads of a wait are
-- parameters.
pub mod Writes
pub mod Capturing
use ghostgpu.Base.{
  ◌-◌, ◌^◌, Bool, true, false, ◌&&◌, ◌||◌, not, Option, none, some, List, [], ◌∷◌, ◌++◌, map,
  if◌then◌else◌, Result, ok, err, ◌>>=◌, Text, codes, text_eq, ◌==◌,
}
use ghostgpu.Base.Int.{ℤ, pos, negsuc, wrap32, ltb_ℤ}
use ghostgpu.Platform.{Platform}
use ghostgpu.Api.{GpuModel, GpuPool}
use ghostgpu.Cli.Objects.{Object, model_object, pool_object}
use ghostgpu.Cli.Up.{UpOptions}
use ghostgpu.Cli.Up.Manifests.{Checks, UpError, build_manifests}
use ghostgpu.Cli.Apply.{
  Server, Line, ApplyError, apply, PoolReport, Poll, Waited, published, failed, timed_out,
  still_waiting, wait_for_pool,
}
use ghostgpu.Cli.Status.Report.{Row, Report, render_pools, render_devices, render_gpus}

-- The flags of `up`: `given` has those that are stored in the options as they are, and the three
-- numbers are 64-bit.
pub record UpFlags : Type 0 where
  pub given : UpOptions
  pub gpus : ℤ
  pub nvlink : ℤ
  pub busy : ℤ
  pub dry_run : Bool
  pub waits : Bool

pub data CommandError (P : Platform) : Type 0 where
  out_of_range : (flag : Text) (value : ℤ) → CommandError P
  not_built : UpError P → CommandError P
  not_rendered : (error : Text) → CommandError P
  not_connected : (error : Text) → CommandError P
  not_applied : ApplyError → CommandError P

-- What `up` prints.
pub data Output : Type 0 where
  yaml : (text : Text) → Output
  applied : Line → Output
  simulating : PoolReport → Output
  no_devices : Output
  status_unread : (error : Text) → Output

module _ (P : Platform) where
  -- The check of the range before the conversion.
  unfoldable pub narrowed : Text → ℤ → Result (CommandError P) ℤ
  unfolding wrap32
  narrowed flag value =
      if ltb_ℤ (pos (2 ^ 31 - 1)) value || ltb_ℤ value (negsuc (2 ^ 31 - 1))
      then err (out_of_range flag value)
      else ok (wrap32 value)

  -- The loop over the three numbers.
  unfoldable pub up_options : UpFlags → Result (CommandError P) UpOptions
  unfolding narrowed
  up_options flags = do
    gpus ← narrowed (codes "gpus-per-node") flags.gpus
    nvlink ← narrowed (codes "nvlink-domain-size") flags.nvlink
    busy ← narrowed (codes "busy-per-node") flags.busy
    ok (record (flags.given) {
      gpus_per_node = gpus;
      nvlink_domain_size = nvlink;
      busy_per_node = busy;
    })

  abbrev pub objects_of : GpuModel P × GpuPool P → List (Object P)
  objects_of (model, pool) = model_object model ∷ pool_object pool ∷ []

  abbrev pub built : Checks P → UpOptions → Result (CommandError P) (List (Object P))
  built K opts = elim (build_manifests P K opts) [
    | ok made ↦ ok (objects_of made)
    | err e ↦ err (not_built e)
  ]

  -- The objects to apply or to print.
  unfoldable pub up_objects : Checks P → UpFlags → Result (CommandError P) (List (Object P))
  unfolding up_options build_manifests
  up_objects K flags = do opts ← up_options flags; built K opts

  -- `reportPool`, on what the wait gives; the polls end when the context does.
  abbrev pub report_pool : Waited P → List Output
  report_pool (published report) = simulating report ∷ []
  report_pool (timed_out last) = no_devices ∷ []
  report_pool (failed last message) = status_unread message ∷ []
  report_pool (still_waiting last) = []

  -- What the command meets outside: a connection or why there is none, YAML, and the reads of the
  -- pool that a wait makes.
  pub record Outside : Type 0 where
    pub connection : Result Text Unit
    pub render : List (Object P) → Result Text Text
    pub polls : List (Poll P)

  module _ (S : Server P) where
    pub record Ran : Type 0 where
      pub outputs : List Output
      pub error : Option (CommandError P)
      pub store : S.Store

    abbrev pub stopped : CommandError P → S.Store → Ran
    stopped e store = record { outputs = []; error = some e; store = store }

    abbrev pub printed : Result Text Text → S.Store → Ran
    printed (err e) store = stopped (not_rendered e) store
    printed (ok text) store = record { outputs = yaml text ∷ []; error = none; store = store }

    -- The lines are printed before the error is looked at.
    abbrev pub after_apply : Option ApplyError → List Line → S.Store → Bool → List (Poll P) → Ran
    after_apply (some e) lines store waits polls = record {
      outputs = map applied lines;
      error = some (not_applied e);
      store = store;
    }
    after_apply none lines store waits polls = record {
      outputs = map applied lines ++ (if waits then report_pool (wait_for_pool P polls) else []);
      error = none;
      store = store;
    }

    abbrev pub connected : Result Text Unit → Bool → Outside → List (Object P) → S.Store → Ran
    connected (err e) waits outside objects store = stopped (not_connected e) store
    connected (ok done) waits outside objects store =
        let a = apply P S objects store in after_apply a.error a.lines a.store waits outside.polls

    -- The rest of `runUp`, on the objects.
    abbrev pub with_objects :
        Result (CommandError P) (List (Object P)) → UpFlags → Outside → S.Store → Ran
    with_objects (err e) flags outside store = stopped e store
    with_objects (ok objects) flags outside store =
        if flags.dry_run
        then printed (outside.render objects) store
        else connected outside.connection flags.waits outside objects store

    unfoldable pub run_up : Checks P → UpFlags → Outside → S.Store → Ran
    unfolding up_objects apply wait_for_pool
    run_up K flags outside store = with_objects (up_objects K flags) flags outside store

  -- What `status` prints: tables, and two lines.
  pub data View : Type 0 where
    table : List Row → View
    no_pools : View
    blank_line : View

  abbrev pub pool_views : Report P → List View
  pool_views report =
      table (render_pools report.pools) ∷ elim report.pools [ [] ↦ no_pools ∷ [] | p ∷ pools ↦ [] ]

  abbrev pub budget_views : Report P → Text → Bool → List View
  budget_views report node after_devices =
      (if after_devices then blank_line ∷ [] else [])
      ++ (table (render_gpus P report.gpus node) ∷ [])

  -- `runStatus`, on the report: `--node` without a view asks for the devices.
  unfoldable pub status_views : Report P → Text → Bool → Bool → List View
  unfolding render_pools render_devices render_gpus text_eq
  status_views report node devices budgets =
      let unasked = not devices && not budgets in
      if unasked && (node == [])
      then pool_views report
      else (let show_devices = devices || unasked in
          (if show_devices then table (render_devices report.devices node) ∷ [] else [])
          ++ (if budgets then budget_views report node show_devices else []))
