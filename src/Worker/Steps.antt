-- ===== src/Worker/Steps.antt =====
-- The worker server as a transition system. The parts of the handlers and of the tasks that hold the
-- lock come in any order. A task's part may come from any run, current or stale, so nothing is
-- assumed of when contexts are cancelled and engines end.
use flow_routine.Prelude.{ℕ, ◌≡◌, ◌≢◌, Option}
use Prim.Native.String.{String}
use flow_routine.Prelude.Int.{ℤ}
use flow_routine.Prelude.Result.{ok}
use flow_routine.Validate.{ScenarioChecks}
use flow_routine.Worker.{
  Worker, Services, PrepareRequest, PrepareResponse, StartRequest, StopRequest, Task,
  handle_prepare, handle_start,
}
use flow_routine.Worker.Lifecycle.{
  claim_run, finish_run, fail_run, StopOutcome, begin_stop, end_stop,
}

module _ (services : Services) (checks : ScenarioChecks) (id : String) where
  -- A run id that a task or a stop request goes on with was accepted before, so it is not empty.
  pub data Step : Worker → Worker → Type 0 where
    prepare :
        {w w' : Worker} (body : Option PrepareRequest) (response : PrepareResponse)
        → handle_prepare services checks id body w ≡ ok (response, w')
        → Step w w'
    start :
        {w w' : Worker} (context : ℕ) (now : ℤ) (body : Option StartRequest) (t : Task)
        → handle_start context now body w ≡ ok (t, w')
        → Step w w'
    claim : {w : Worker} (t : Task) (started_at : ℤ) → Step w (claim_run t started_at w)
    finish : {w : Worker} (t : Task) (now : ℤ) → Step w (finish_run t now w)
    fail :
        {w : Worker} (generation : ℕ) (run_id : String) (now : ℤ) (message : String)
        → run_id ≢ ""
        → Step w (fail_run generation run_id now message w)
    stop :
        {w w' : Worker} (now : ℤ) (body : Option StopRequest) (outcome : StopOutcome)
        → begin_stop now body w ≡ ok (outcome, w')
        → Step w w'
    stopped :
        {w : Worker} (run_id : String) (now : ℤ) → run_id ≢ "" → Step w (end_stop run_id now w)

  -- Some steps after another.
  pub data Run : Worker → Worker → Type 0 where
    done : {w : Worker} → Run w w
    step : {a b c : Worker} → Step a b → Run b c → Run a c
