-- ===== src/Worker/Valid.antt =====
-- What holds of a worker in each state.
use flow_routine.Prelude.{ℕ, ◌≡◌, ◌≢◌, ◌⊎◌, Bool, true, false, Option, none, some, arith}
use Prim.Native.String.{String}
use flow_routine.Prelude.Int.{ℤ}
use flow_routine.Prelude.Result.{ok}
use flow_routine.Validate.{ScenarioChecks}
use text.Mathlib.TextEquality.{eq_iff}
use flow_routine.Worker.{
  same, Worker, WorkerState, new_worker, Services, PrepareRequest, PrepareResponse, StartRequest,
  StopRequest, Task, handle_prepare, handle_start, prepare_run, terminal, is_prepared, is_scheduled,
  is_running,
}
use flow_routine.Worker.Lifecycle.{
  claim_run, finish_run, fail_run, StopOutcome, begin_stop, end_stop,
}
use flow_routine.Worker.Steps.{Step, Run}

abbrev pub is_some {ℓ} : {A : Type ℓ} → Option A → Bool
is_some none = false
is_some (some a) = true

same≡ : (a b : String) → same a b ≡ true → a ≡ b
same≡ a b = (eq_iff a b).0

-- An engine, unless the worker is idle, when it has no run; the times that its state needs; a message
-- only if it has failed.
pub record IsValid (w : Worker) : Type 0 where
  pub has_engine : (w.state ≡ WorkerState.idle) ⊎ (is_some w.load_engine ≡ true)
  pub unnamed : (w.state ≢ WorkerState.idle) ⊎ (w.run_id ≡ "")
  pub has_schedule :
      (w.state ≢ WorkerState.scheduled)
      ⊎ (is_some w.schedule_cancel ≡ true) × (is_some w.scheduled_at ≡ true)
  pub has_start : (w.state ≢ WorkerState.running) ⊎ (is_some w.started_at ≡ true)
  pub has_stop : (terminal w.state ≡ false) ⊎ (is_some w.stopped_at ≡ true)
  pub not_stopped : (terminal w.state ≡ true) ⊎ (w.stopped_at ≡ none)
  pub no_error : (w.state ≡ WorkerState.failed) ⊎ (w.last_error ≡ "")

prepare-IsValid :
    (services : Services) (checks : ScenarioChecks) (id : String) (body : Option PrepareRequest)
    (r : PrepareResponse) (w w' : Worker)
    → handle_prepare services checks id body w ≡ ok (r, w')
    → IsValid w'
unfolding handle_prepare prepare_run is_scheduled is_running terminal
prepare-IsValid services checks id body r w w' h = ground arith

start-IsValid :
    (context : ℕ) (now : ℤ) (body : Option StartRequest) (t : Task) (w w' : Worker)
    → IsValid w
    → handle_start context now body w ≡ ok (t, w')
    → IsValid w'
unfolding handle_start terminal is_prepared
start-IsValid context now body t w w' v h = ground arith

claim-IsValid :
    (t : Task) (started_at : ℤ) (w : Worker) → IsValid w → IsValid (claim_run t started_at w)
unfolding claim_run terminal is_scheduled
claim-IsValid t started_at w v = ground arith

finish-IsValid : (t : Task) (now : ℤ) (w : Worker) → IsValid w → IsValid (finish_run t now w)
unfolding finish_run terminal is_running
finish-IsValid t now w v = ground arith

fail-IsValid :
    (g : ℕ) (run_id : String) (now : ℤ) (message : String) (w : Worker)
    → run_id ≢ ""
    → IsValid w
    → IsValid (fail_run g run_id now message w)
unfolding fail_run terminal
fail-IsValid g run_id now message w named v = ground (arith, same≡ w.run_id run_id)

begin_stop-IsValid :
    (now : ℤ) (body : Option StopRequest) (o : StopOutcome) (w w' : Worker)
    → IsValid w
    → begin_stop now body w ≡ ok (o, w')
    → IsValid w'
unfolding begin_stop terminal is_running
begin_stop-IsValid now body o w w' v h = ground arith

end_stop-IsValid :
    (run_id : String) (now : ℤ) (w : Worker)
    → run_id ≢ ""
    → IsValid w
    → IsValid (end_stop run_id now w)
unfolding end_stop terminal
end_stop-IsValid run_id now w named v = ground (arith, same≡ w.run_id run_id)

new_worker-IsValid : IsValid new_worker
unfolding terminal
new_worker-IsValid = ground arith

module _ {services : Services} {checks : ScenarioChecks} {id : String} where
  Step-IsValid : {w w' : Worker} → Step services checks id w w' → IsValid w → IsValid w'
  Step-IsValid (Step.prepare {w} {w'} body r h) v = prepare-IsValid services checks id body r w w' h
  Step-IsValid (Step.start {w} {w'} context now body t h) v =
      start-IsValid context now body t w w' v h
  Step-IsValid (Step.claim {w} t started_at) v = claim-IsValid t started_at w v
  Step-IsValid (Step.finish {w} t now) v = finish-IsValid t now w v
  Step-IsValid (Step.fail {w} g run_id now message h) v = fail-IsValid g run_id now message w h v
  Step-IsValid (Step.stop {w} {w'} now body o h) v = begin_stop-IsValid now body o w w' v h
  Step-IsValid (Step.stopped {w} run_id now h) v = end_stop-IsValid run_id now w h v

  steps-IsValid : {w w' : Worker} → Run services checks id w w' → IsValid w → IsValid w'
  steps-IsValid Run.done v = v
  steps-IsValid (Run.step s rest) v = steps-IsValid rest (Step-IsValid s v)

-- Whatever a new worker goes through, it is valid: it has an engine unless it is idle, the times that
-- its state needs, no time of a stop before it has stopped, and a message only if it has failed.
pub Run-IsValid :
    (services : Services) (checks : ScenarioChecks) (id : String) (w : Worker)
    → Run services checks id new_worker w
    → IsValid w
Run-IsValid services checks id w r = steps-IsValid r new_worker-IsValid
