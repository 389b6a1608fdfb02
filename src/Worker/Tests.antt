-- ===== src/Worker/Tests.antt =====
-- A worker that is prepared, started and stopped.
use flow_routine.Prelude.{true, ◌≤◌, ◌≡◌, refl, ◌↔◌, ◌⊎◌, false, none, some, [], arith}
use flow_routine.Prelude.Int.{pos, ◌-ℤ◌}
use flow_routine.Prelude.Result.{ok, err}
use flow_routine.Validate.Tests.{lenient}
use flow_routine.Coordinator.Tests.{plan, plan-valid}
use flow_routine.Protocol.Identifier.{validate_identifier}
use flow_routine.Worker.{
  is_scheduled, is_running, is_prepared, Worker, WorkerState, Services, PrepareRequest,
  PrepareResponse, StartRequest, StopRequest, Task, new_worker, handle_prepare, handle_start,
  prepare_run, terminal, outside_window,
}
use flow_routine.Protocol.Convert.{new_execution_plan}
use flow_routine.Worker.Lifecycle.{claim_run, begin_stop, end_stop, stop_engine}
use flow_routine.Worker.Steps.{Step, Run}
use flow_routine.Worker.Order.{Renews, GoesOn, Step-order}
use flow_routine.Worker.Valid.{IsValid, Run-IsValid}
use flow_routine.Worker.Starts.{prepares, starts, claims, Run-starts}
use flow_routine.Worker.Dispatch.{Endpoint, serve_http, path_of, method_of, serve_http-reaches}
use flow_routine.Worker.Answers.{MayStart, is_ok, handle_start-accepts, stop-ends, replies}

abbrev services : Services
services = record { plan_digest = λ p. some "digest"; new_engine = λ c. some 7 }

abbrev prepare_request : PrepareRequest
prepare_request = record {
  protocol_version = pos 1;
  run_id = "run";
  plan = plan;
  runtime_bindings = [];
}

abbrev prepared_worker : Worker
prepared_worker = record {
  generation = 1;
  run_id = "run";
  plan_id = "checkout";
  plan_revision = 3;
  plan_digest = "digest";
  state = WorkerState.prepared;
  load_engine = some 7;
  schedule_cancel = none;
  scheduled_at = none;
  started_at = none;
  stopped_at = none;
  last_error = "";
}

abbrev response : PrepareResponse
response = record {
  protocol_version = pos 1;
  worker_id = "w";
  run_id = "run";
  plan_digest = "digest";
}

run-named : validate_identifier "run" ≡ ok tt
unfolding validate_identifier
run-named = refl

prepare-new :
    handle_prepare services lenient "w" (some prepare_request) new_worker
    ≡ ok (response, prepared_worker)
unfolding handle_prepare prepare_run is_scheduled is_running new_execution_plan
prepare-new = rw run-named (rw plan-valid refl)

abbrev start_request : StartRequest
start_request = record { protocol_version = pos 1; run_id = "run"; start_at = pos 1_200_000_000 }

abbrev task : Task
task = record {
  context = 0;
  generation = 1;
  run_id = "run";
  start_at = pos 1_200_000_000;
  load_engine = some 7;
}

abbrev scheduled_worker : Worker
scheduled_worker = record prepared_worker {
  state = WorkerState.scheduled;
  schedule_cancel = some 0;
  scheduled_at = some (pos 1_200_000_000);
}

start-prepared :
    handle_start 0 (pos 1_000_000_000) (some start_request) prepared_worker
    ≡ ok (task, scheduled_worker)
unfolding handle_start is_prepared ◌-ℤ◌
start-prepared = refl

start-too_late :
    handle_start 0 (pos 1_150_000_000) (some start_request) prepared_worker ≡ err outside_window
unfolding handle_start is_prepared ◌-ℤ◌
start-too_late = refl

abbrev stop_request : StopRequest
stop_request = record { protocol_version = pos 1; run_id = "run" }

abbrev running_worker : Worker
running_worker = record scheduled_worker {
  state = WorkerState.running;
  started_at = some (pos 1_200_000_001);
  schedule_cancel = none;
}

claim-scheduled : claim_run task (pos 1_200_000_001) scheduled_worker ≡ running_worker
unfolding claim_run is_scheduled
claim-scheduled = refl

stop-running :
    begin_stop (pos 5) (some stop_request) running_worker
    ≡ ok (stop_engine 1 (some 7), running_worker)
unfolding begin_stop terminal is_running
stop-running = refl

-- The last part of a stop request, met by a later run of the same name, stops that run.
stop-later_run :
    (end_stop "run" (pos 9) (record prepared_worker { generation = 2 })).state ≡ WorkerState.stopped
unfolding end_stop terminal
stop-later_run = refl

abbrev run :
    Run services lenient "w" new_worker (claim_run task (pos 1_200_000_001) scheduled_worker)
run = Run.step (Step.prepare (some prepare_request) response prepare-new) (
    Run.step (Step.start 0 (pos 1_000_000_000) (some start_request) task start-prepared)
      (Run.step (Step.claim task (pos 1_200_000_001)) Run.done))

Step-order_example : Renews new_worker prepared_worker ⊎ GoesOn new_worker prepared_worker
Step-order_example =
    Step-order services lenient "w" (Step.prepare (some prepare_request) response prepare-new)

Run-IsValid_example : IsValid (claim_run task (pos 1_200_000_001) scheduled_worker)
Run-IsValid_example =
    Run-IsValid services lenient "w" (claim_run task (pos 1_200_000_001) scheduled_worker) run

Run-starts_example : (claims run ≤ starts run) × (starts run ≤ prepares run)
Run-starts_example = Run-starts run

handle_start-accepts_example :
    is_ok (handle_start 0 (pos 1_000_000_000) (some start_request) prepared_worker) ≡ true
    ↔ MayStart (pos 1_000_000_000) start_request prepared_worker
handle_start-accepts_example =
    handle_start-accepts 0 (pos 1_000_000_000) start_request prepared_worker

running-GoesOn : GoesOn running_worker running_worker
running-GoesOn = ground arith

stop-ends_example :
    ((replies (stop_engine 1 (some 7)) ≡ false) ⊎ (terminal running_worker.state ≡ true))
    × (terminal (end_stop "run" (pos 9) running_worker).state ≡ true)
stop-ends_example =
    stop-ends (pos 5) (pos 9) stop_request (stop_engine 1 (some 7)) running_worker running_worker
      running_worker stop-running running-GoesOn

serve_http-reaches_example :
    serve_http true "/v1/stop" "POST" ≡ ok Endpoint.stop
    ↔ (true ≡ true) × ("/v1/stop" ≡ path_of Endpoint.stop) × ("POST" ≡ method_of Endpoint.stop)
serve_http-reaches_example = serve_http-reaches true "/v1/stop" "POST" Endpoint.stop
