-- ===== src/Worker/Starts.antt =====
-- How often the runs of a worker are scheduled and begun.
use flow_routine.Prelude.{ℕ, ◌+◌, ◌≤◌, ◌≡◌, Bool, ◌&&◌, not, Option, arith, if◌then◌else◌}
use flow_routine.Validate.{ScenarioChecks}
use flow_routine.Worker.{
  terminal, Worker, new_worker, Services, StartRequest, StopRequest, PrepareRequest,
  PrepareResponse, Task, handle_prepare, handle_start, is_prepared, is_scheduled, is_running,
}
use flow_routine.Worker.Lifecycle.{
  claim_run, finish_run, fail_run, begin_stop, end_stop, StopOutcome,
}
use flow_routine.Worker.Steps.{Step, Run}
use flow_routine.Prelude.Int.{ℤ}
use flow_routine.Prelude.Result.{ok}
use Prim.Native.String.{String}

abbrev bit : Bool → ℕ
bit b = if b then 1 else 0

abbrev pub begun : Worker → Worker → ℕ
begun w w' = bit (not (is_running w.state) && is_running w'.state)

module _ {services : Services} {checks : ScenarioChecks} {id : String} where
  abbrev pub prepared_by : {w w' : Worker} → Step services checks id w w' → ℕ
  prepared_by (Step.prepare body r h) = 1
  prepared_by _ = 0

  abbrev pub started_by : {w w' : Worker} → Step services checks id w w' → ℕ
  started_by (Step.start context now body t h) = 1
  started_by _ = 0

  -- The prepare requests that are accepted.
  abbrev pub prepares : {w w' : Worker} → Run services checks id w w' → ℕ
  prepares Run.done = 0
  prepares (Run.step s rest) = prepared_by s + prepares rest

  -- The start requests that are accepted.
  abbrev pub starts : {w w' : Worker} → Run services checks id w w' → ℕ
  starts Run.done = 0
  starts (Run.step s rest) = started_by s + starts rest

  -- The steps after which the worker is running, and was not before.
  abbrev pub claims : {w w' : Worker} → Run services checks id w w' → ℕ
  claims Run.done = 0
  claims (Run.step {a} {b} s rest) = begun a b + claims rest

-- What a step may add to the counts, against the state that it starts and ends in.
record Paid (prepared started claimed : ℕ) (w w' : Worker) : Type 0 where
  by_prepare : started + bit (is_prepared w'.state) ≤ prepared + bit (is_prepared w.state)
  by_start : claimed + bit (is_scheduled w'.state) ≤ started + bit (is_scheduled w.state)

Paid-prepare :
    (services : Services) (checks : ScenarioChecks) (id : String) (body : Option PrepareRequest)
    (r : PrepareResponse) (w w' : Worker)
    → handle_prepare services checks id body w ≡ ok (r, w')
    → Paid 1 0 (begun w w') w w'
unfolding handle_prepare is_prepared is_scheduled is_running terminal
Paid-prepare services checks id body r w w' h = ground arith

Paid-start :
    (context : ℕ) (now : ℤ) (body : Option StartRequest) (t : Task) (w w' : Worker)
    → handle_start context now body w ≡ ok (t, w')
    → Paid 0 1 (begun w w') w w'
unfolding handle_start is_prepared is_scheduled is_running terminal
Paid-start context now body t w w' h = ground arith

Paid-claim :
    (t : Task) (started_at : ℤ) (w : Worker)
    → Paid 0 0 (begun w (claim_run t started_at w)) w (claim_run t started_at w)
unfolding claim_run is_prepared is_scheduled is_running terminal
Paid-claim t started_at w = ground arith

Paid-finish :
    (t : Task) (now : ℤ) (w : Worker)
    → Paid 0 0 (begun w (finish_run t now w)) w (finish_run t now w)
unfolding finish_run is_prepared is_scheduled is_running terminal
Paid-finish t now w = ground arith

Paid-fail :
    (g : ℕ) (run_id : String) (now : ℤ) (message : String) (w : Worker)
    → Paid 0 0 (begun w (fail_run g run_id now message w)) w (fail_run g run_id now message w)
unfolding fail_run is_prepared is_scheduled is_running terminal
Paid-fail g run_id now message w = ground arith

Paid-begin_stop :
    (now : ℤ) (body : Option StopRequest) (o : StopOutcome) (w w' : Worker)
    → begin_stop now body w ≡ ok (o, w')
    → Paid 0 0 (begun w w') w w'
unfolding begin_stop is_prepared is_scheduled is_running terminal
Paid-begin_stop now body o w w' h = ground arith

Paid-end_stop :
    (run_id : String) (now : ℤ) (w : Worker)
    → Paid 0 0 (begun w (end_stop run_id now w)) w (end_stop run_id now w)
unfolding end_stop is_prepared is_scheduled is_running terminal
Paid-end_stop run_id now w = ground arith

Paid-rest :
    {a b c p s k : ℕ} {u v w : Worker}
    → Paid a b c u v
    → Paid p s k v w
    → Paid (a + p) (b + s) (c + k) u w
Paid-rest x y = record {
  by_prepare = omega (arith, x.by_prepare, y.by_prepare);
  by_start = omega (arith, x.by_start, y.by_start);
}

module _ {services : Services} {checks : ScenarioChecks} {id : String} where
  Step-Paid :
      {w w' : Worker} (s : Step services checks id w w')
      → Paid (prepared_by s) (started_by s) (begun w w') w w'
  Step-Paid (Step.prepare {w} {w'} body r h) = Paid-prepare services checks id body r w w' h
  Step-Paid (Step.start {w} {w'} context now body t h) = Paid-start context now body t w w' h
  Step-Paid (Step.claim {w} t started_at) = Paid-claim t started_at w
  Step-Paid (Step.finish {w} t now) = Paid-finish t now w
  Step-Paid (Step.fail {w} g run_id now message h) = Paid-fail g run_id now message w
  Step-Paid (Step.stop {w} {w'} now body o h) = Paid-begin_stop now body o w w' h
  Step-Paid (Step.stopped {w} run_id now h) = Paid-end_stop run_id now w

  Run-Paid :
      {w w' : Worker} (r : Run services checks id w w')
      → Paid (prepares r) (starts r) (claims r) w w'
  Run-Paid Run.done = record { by_prepare = omega arith; by_start = omega arith }
  Run-Paid (Run.step s rest) = Paid-rest (Step-Paid s) (Run-Paid rest)

-- A new worker comes to be running at most as often as start requests were accepted, and accepts at most as
-- many of these as prepare requests, whatever stale tasks and stop requests come in between.
pub Run-starts :
    {services : Services} {checks : ScenarioChecks} {id : String} {w : Worker}
    (r : Run services checks id new_worker w)
    → (claims r ≤ starts r) × (starts r ≤ prepares r)
unfolding is_prepared is_scheduled
Run-starts r =
    let paid = Run-Paid r in (omega (arith, paid.by_start), omega (arith, paid.by_prepare))
