-- ===== src/Worker.antt =====
-- internal/distributed/worker.go: the worker server. A request that cannot be decoded is `none`. Each
-- part of a handler that holds the lock is one function; the readings of the clock are arguments, and
-- the zero time is `none`. An error reply comes before every change, so it has no worker beside it.
pub mod Lifecycle
pub mod Steps
pub mod Order
pub mod Starts
pub mod Valid
pub mod Answers
pub mod Dispatch
mod Tests
use flow_routine.Prelude.{
  ℕ, zero, suc, ◌+◌, ◌-◌, ◌*◌, ◌/◌, ◌%◌, ◌^◌, ◌≤◌, ◌<◌, min, max, ◌≡◌, refl, sym, ap, ◌∙◌, subst,
  ◌≢◌, ◌↔◌, ◌⊎◌, inl, inr, Bool, true, false, ◌&&◌, ◌||◌, not, Option, none, some, List, [], ◌∷◌,
  ◌++◌, map, arith, ltb, leb, ◌==◌, if◌then◌else◌, ltb→lt, lt→ltb, leb→le, ==_iff, tests,
  Bool-cases, Option-cases, length, get_elem?, get_or, set, replicate, take, drop, length-append,
  length-set, length-replicate, length-map, get_or-set,
}
use Prim.Native.String.{String, compare}
use text.Mathlib.Text.{is_eq}
use flow_routine.Prelude.Int.{ℤ, pos, ◌-ℤ◌, ltb_ℤ, eqb_ℤ}
use flow_routine.Prelude.Result.{Result, ok, err, ◌>>=◌, ◌>>◌, guard}
use flow_routine.Config.{Config}
use flow_routine.Validate.{ScenarioChecks}
use flow_routine.Protocol.Wire
use flow_routine.Protocol.Convert.{engine_config}
use flow_routine.Protocol.Identifier.{
  IdentifierError, PlanError, validate_identifier, validate_plan,
}

pub data WorkerState : Type 0 where
  idle prepared scheduled running stopped failed : WorkerState

unfoldable pub terminal : WorkerState → Bool
terminal WorkerState.stopped = true
terminal WorkerState.failed = true
terminal _ = false

unfoldable pub is_prepared : WorkerState → Bool
is_prepared WorkerState.prepared = true
is_prepared _ = false

unfoldable pub is_scheduled : WorkerState → Bool
is_scheduled WorkerState.scheduled = true
is_scheduled _ = false

unfoldable pub is_running : WorkerState → Bool
is_running WorkerState.running = true
is_running _ = false

-- An engine and the cancel function of a context, by handles.
pub record Worker : Type 0 where
  pub generation : ℕ
  pub run_id : String
  pub plan_id : String
  pub plan_revision : ℕ
  pub plan_digest : String
  pub state : WorkerState
  pub load_engine : Option ℕ
  pub schedule_cancel : Option ℕ
  pub scheduled_at : Option ℤ
  pub started_at : Option ℤ
  pub stopped_at : Option ℤ
  pub last_error : String

abbrev pub new_worker : Worker
new_worker = record {
  generation = 0;
  run_id = "";
  plan_id = "";
  plan_revision = 0;
  plan_digest = "";
  state = WorkerState.idle;
  load_engine = none;
  schedule_cancel = none;
  scheduled_at = none;
  started_at = none;
  stopped_at = none;
  last_error = "";
}

pub data HttpError : Type 0 where
  invalid_body unsupported_version plan_invalid digest_failed compile_failed : HttpError
  run_id_invalid : IdentifierError → HttpError
  active_run run_not_found not_prepared outside_window : HttpError

-- The digest of a plan, and `engine.New`.
pub record Services : Type 0 where
  pub plan_digest : Wire.ExecutionPlan → Option String
  pub new_engine : Config → Option ℕ

pub record PrepareRequest : Type 0 where
  pub protocol_version : ℤ
  pub run_id : String
  pub plan : Wire.ExecutionPlan
  pub runtime_bindings : List (String × String)

pub record PrepareResponse : Type 0 where
  pub protocol_version : ℤ
  pub worker_id : String
  pub run_id : String
  pub plan_digest : String

pub record StartRequest : Type 0 where
  pub protocol_version : ℤ
  pub run_id : String
  pub start_at : ℤ

pub record StopRequest : Type 0 where
  pub protocol_version : ℤ
  pub run_id : String

-- What `go worker.runScheduled(...)` is given.
pub record Task : Type 0 where
  pub context : ℕ
  pub generation : ℕ
  pub run_id : String
  pub start_at : ℤ
  pub load_engine : Option ℕ

abbrev pub protocol_version : ℤ
protocol_version = pos 1

abbrev pub min_scheduled_start_lead : ℤ
min_scheduled_start_lead = pos 100_000_000

abbrev pub max_scheduled_start_lead : ℤ
max_scheduled_start_lead = pos 300_000_000_000

abbrev pub same : String → String → Bool
same a b = is_eq (compare a b)

abbrev pub or_error {ℓ} : {A : Type ℓ} → HttpError → Option A → Result HttpError A
or_error e none = err e
or_error e (some a) = ok a

abbrev pub or_invalid_run_id : Result IdentifierError (Unit {0}) → Result HttpError (Unit {0})
or_invalid_run_id (ok a) = ok a
or_invalid_run_id (err e) = err (run_id_invalid e)

abbrev pub or_plan_invalid : Result PlanError (Unit {0}) → Result HttpError (Unit {0})
or_plan_invalid (ok a) = ok a
or_plan_invalid (err e) = err plan_invalid

-- The part of `handlePrepare` under the lock, after the check of the state.
unfoldable pub prepare_run : PrepareRequest → String → ℕ → Worker → Worker
prepare_run request digest engine w = record {
  generation = (w.generation + 1) % 2 ^ 64;
  run_id = request.run_id;
  plan_id = request.plan.id;
  plan_revision = request.plan.revision;
  plan_digest = digest;
  state = WorkerState.prepared;
  load_engine = some engine;
  schedule_cancel = none;
  scheduled_at = none;
  started_at = none;
  stopped_at = none;
  last_error = "";
}

-- `handlePrepare`, with the name of the worker.
unfoldable pub handle_prepare :
    Services
    → ScenarioChecks
    → String
    → Option PrepareRequest
    → Worker
    → Result HttpError (PrepareResponse × Worker)
unfolding prepare_run
handle_prepare services checks id body w = do
  request ← or_error invalid_body body
  guard (eqb_ℤ request.protocol_version protocol_version) unsupported_version
  or_invalid_run_id (validate_identifier request.run_id)
  or_plan_invalid (validate_plan checks request.plan request.runtime_bindings)
  digest ← or_error digest_failed (services.plan_digest request.plan)
  engine ←
      or_error compile_failed
        (services.new_engine (engine_config request.plan.config request.runtime_bindings))
  guard (not (is_scheduled w.state || is_running w.state)) active_run
  ok (
    record {
      protocol_version = protocol_version;
      worker_id = id;
      run_id = request.run_id;
      plan_digest = digest;
    },
    prepare_run request digest engine w,
  )

-- `handleStart` at the time `now`, with the handle of the new context.
unfoldable pub handle_start :
    ℕ → ℤ → Option StartRequest → Worker → Result HttpError (Task × Worker)
handle_start context now body w = do
  request ← or_error invalid_body body
  guard (eqb_ℤ request.protocol_version protocol_version) unsupported_version
  guard (not (same request.run_id "") && same request.run_id w.run_id) run_not_found
  guard (is_prepared w.state) not_prepared
  let lead = request.start_at -ℤ now
  guard (not (ltb_ℤ lead min_scheduled_start_lead || ltb_ℤ max_scheduled_start_lead lead))
      outside_window
  ok (
    record {
      context = context;
      generation = w.generation;
      run_id = w.run_id;
      start_at = request.start_at;
      load_engine = w.load_engine;
    },
    record w {
      schedule_cancel = some context;
      scheduled_at = some request.start_at;
      state = WorkerState.scheduled;
    },
  )
