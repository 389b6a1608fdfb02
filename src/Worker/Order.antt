-- ===== src/Worker/Order.antt =====
-- Within a generation a worker goes through its states in one direction, and keeps its run and plan.
use flow_routine.Prelude.{ℕ, ◌+◌, ◌%◌, ◌^◌, ◌≤◌, ◌≡◌, ◌≢◌, ◌⊎◌, inl, inr, Option, arith}
use Prim.Native.String.{String}
use flow_routine.Prelude.Int.{ℤ}
use flow_routine.Prelude.Result.{ok}
use flow_routine.Validate.{ScenarioChecks}
use flow_routine.Worker.{
  Worker, WorkerState, Services, PrepareRequest, PrepareResponse, StartRequest, StopRequest, Task,
  handle_prepare, handle_start, terminal, is_prepared, is_scheduled, is_running,
}
use flow_routine.Worker.Lifecycle.{
  claim_run, finish_run, fail_run, StopOutcome, begin_stop, end_stop,
}
use flow_routine.Worker.Steps.{Step}

abbrev pub rank : WorkerState → ℕ
rank WorkerState.idle = 0
rank WorkerState.prepared = 1
rank WorkerState.scheduled = 2
rank WorkerState.running = 3
rank WorkerState.stopped = 4
rank WorkerState.failed = 5

-- The same run of the same plan on the same engine, not earlier in its life.
pub record GoesOn (w w' : Worker) : Type 0 where
  pub generation : w'.generation ≡ w.generation
  pub run_id : w'.run_id ≡ w.run_id
  pub plan_id : w'.plan_id ≡ w.plan_id
  pub plan_revision : w'.plan_revision ≡ w.plan_revision
  pub plan_digest : w'.plan_digest ≡ w.plan_digest
  pub load_engine : w'.load_engine ≡ w.load_engine
  pub later : rank w.state ≤ rank w'.state

-- A new run in the next generation, in place of one that is not active.
pub record Renews (w w' : Worker) : Type 0 where
  pub generation : w'.generation ≡ (w.generation + 1) % 2 ^ 64
  pub state : w'.state ≡ WorkerState.prepared
  pub not_scheduled : w.state ≢ WorkerState.scheduled
  pub not_running : w.state ≢ WorkerState.running

handle_start-GoesOn :
    (context : ℕ) (now : ℤ) (body : Option StartRequest) (t : Task) (w w' : Worker)
    → handle_start context now body w ≡ ok (t, w')
    → GoesOn w w'
unfolding handle_start terminal is_prepared is_scheduled is_running
handle_start-GoesOn context now body t w w' h = ground arith

begin_stop-GoesOn :
    (now : ℤ) (body : Option StopRequest) (o : StopOutcome) (w w' : Worker)
    → begin_stop now body w ≡ ok (o, w')
    → GoesOn w w'
unfolding begin_stop terminal is_prepared is_scheduled is_running
begin_stop-GoesOn now body o w w' h = ground arith

claim_run-GoesOn : (t : Task) (started_at : ℤ) (w : Worker) → GoesOn w (claim_run t started_at w)
unfolding claim_run terminal is_prepared is_scheduled is_running
claim_run-GoesOn t started_at w = ground arith

finish_run-GoesOn : (t : Task) (now : ℤ) (w : Worker) → GoesOn w (finish_run t now w)
unfolding finish_run terminal is_prepared is_scheduled is_running
finish_run-GoesOn t now w = ground arith

fail_run-GoesOn :
    (g : ℕ) (run_id : String) (now : ℤ) (message : String) (w : Worker)
    → GoesOn w (fail_run g run_id now message w)
unfolding fail_run terminal is_prepared is_scheduled is_running
fail_run-GoesOn g run_id now message w = ground arith

end_stop-GoesOn : (run_id : String) (now : ℤ) (w : Worker) → GoesOn w (end_stop run_id now w)
unfolding end_stop terminal is_prepared is_scheduled is_running
end_stop-GoesOn run_id now w = ground arith

handle_prepare-Renews :
    (services : Services) (checks : ScenarioChecks) (id : String) (body : Option PrepareRequest)
    (r : PrepareResponse) (w w' : Worker)
    → handle_prepare services checks id body w ≡ ok (r, w')
    → Renews w w'
unfolding handle_prepare is_scheduled is_running
handle_prepare-Renews services checks id body r w w' h = ground arith

-- Each step of a worker either begins a new run, in the next generation, in place of one that is not
-- active, or leaves generation, run, plan and engine as they are and does not take the state back.
pub Step-order :
    (services : Services) (checks : ScenarioChecks) (id : String) {w w' : Worker}
    → Step services checks id w w'
    → Renews w w' ⊎ GoesOn w w'
Step-order services checks id (Step.prepare {w} {w'} body r h) =
    inl (handle_prepare-Renews services checks id body r w w' h)
Step-order services checks id (Step.start {w} {w'} context now body t h) =
    inr (handle_start-GoesOn context now body t w w' h)
Step-order services checks id (Step.claim {w} t started_at) = inr (claim_run-GoesOn t started_at w)
Step-order services checks id (Step.finish {w} t now) = inr (finish_run-GoesOn t now w)
Step-order services checks id (Step.fail {w} g run_id now message h) =
    inr (fail_run-GoesOn g run_id now message w)
Step-order services checks id (Step.stop {w} {w'} now body o h) =
    inr (begin_stop-GoesOn now body o w w' h)
Step-order services checks id (Step.stopped {w} run_id now h) = inr (end_stop-GoesOn run_id now w)
