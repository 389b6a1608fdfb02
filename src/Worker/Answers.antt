-- ===== src/Worker/Answers.antt =====
-- Which start and stop requests a worker accepts.
use flow_routine.Prelude.{ℕ, ◌≡◌, ◌≢◌, ◌↔◌, ◌⊎◌, Bool, true, false, some, arith}
use Prim.Native.String.{String}
use text.Mathlib.TextEquality.{eq_iff}
use flow_routine.Prelude.Int.{ℤ, ◌-ℤ◌, ◌≤ℤ◌}
use flow_routine.Prelude.Result.{Result, ok, err}
use flow_routine.Worker.{
  Worker, WorkerState, HttpError, StartRequest, StopRequest, same, handle_start, protocol_version,
  min_scheduled_start_lead, max_scheduled_start_lead, is_prepared, is_running, terminal,
}
use flow_routine.Worker.Lifecycle.{StopOutcome, begin_stop, end_stop}
use flow_routine.Worker.Order.{GoesOn}

abbrev pub is_ok {ℓ} : {A : Type ℓ} → Result HttpError A → Bool
is_ok (ok a) = true
is_ok (err e) = false

-- The run of a request is the worker's run.
pub record Addressed (version : ℤ) (run_id : String) (w : Worker) : Type 0 where
  pub supported : version ≡ protocol_version
  pub named : run_id ≢ ""
  pub same_run : run_id ≡ w.run_id

pub record MayStart (now : ℤ) (request : StartRequest) (w : Worker) : Type 0 where
  pub addressed : Addressed request.protocol_version request.run_id w
  pub prepared : w.state ≡ WorkerState.prepared
  pub late_enough : min_scheduled_start_lead ≤ℤ request.start_at -ℤ now
  pub early_enough : request.start_at -ℤ now ≤ℤ max_scheduled_start_lead

module _ (a b : String) where
  same→≡ : same a b ≡ true → a ≡ b
  same→≡ = (eq_iff a b).0

  ≡→same : a ≡ b → same a b ≡ true
  ≡→same = (eq_iff a b).1

-- `handleStart` accepts a request exactly if it is for the run that is prepared and its start is
-- between 100 ms and 5 minutes ahead.
pub handle_start-accepts :
    (context : ℕ) (now : ℤ) (request : StartRequest) (w : Worker)
    → is_ok (handle_start context now (some request) w) ≡ true ↔ MayStart now request w
unfolding handle_start is_prepared
handle_start-accepts context now request w = (
  λ h. ground (arith, same→≡ request.run_id w.run_id, ≡→same request.run_id ""),
  λ m. ground (arith, m, ≡→same request.run_id w.run_id, same→≡ request.run_id ""),
)

-- `handleStop` replies at once.
abbrev pub replies : StopOutcome → Bool
replies StopOutcome.already_over = true
replies StopOutcome.stopped_early = true
replies (StopOutcome.stop_engine generation load_engine) = false

-- A stop request that is accepted leaves the run over: at once if the worker replies at once, and
-- otherwise after its last part, whatever the run went through in between.
pub stop-ends :
    (now later : ℤ) (request : StopRequest) (o : StopOutcome) (w middle after : Worker)
    → begin_stop now (some request) w ≡ ok (o, middle)
    → GoesOn middle after
    → ((replies o ≡ false) ⊎ (terminal middle.state ≡ true))
      × (terminal (end_stop request.run_id later after).state ≡ true)
unfolding begin_stop end_stop terminal is_running
stop-ends now later request o w middle after h g = (
  ground (arith, h),
  ground (arith, h, g, same→≡ request.run_id w.run_id, ≡→same after.run_id request.run_id),
)
