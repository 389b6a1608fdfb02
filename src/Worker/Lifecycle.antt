-- ===== src/Worker/Lifecycle.antt =====
-- internal/distributed/worker.go: the parts of `runScheduled`, `failRun`, `handleStop` and
-- `handleStatus` that hold the lock.
use flow_routine.Prelude.{ℕ, Bool, ◌&&◌, ◌||◌, not, Option, none, some, ◌==◌, if◌then◌else◌}
use Prim.Native.String.{String}
use flow_routine.Prelude.Int.{ℤ, eqb_ℤ}
use flow_routine.Prelude.Result.{Result, ok, ◌>>=◌, ◌>>◌, guard}
use flow_routine.Worker.{
  Worker, WorkerState, HttpError, invalid_body, unsupported_version, run_not_found, StopRequest,
  Task, same, or_error, terminal, is_scheduled, is_running, protocol_version,
}

-- Whether the worker still is in the generation and the run of a task.
unfoldable pub is_current : Task → Worker → Bool
is_current t w = w.generation == t.generation && same w.run_id t.run_id

-- After the engine has started: the run begins, unless the task is stale.
unfoldable pub claim_run : Task → ℤ → Worker → Worker
unfolding is_current
claim_run t started_at w =
    let running = record w {
      state = WorkerState.running;
      started_at = some started_at;
      schedule_cancel = none;
    } in
    if is_current t w && is_scheduled w.state then running else w

-- After the engine is done.
unfoldable pub finish_run : Task → ℤ → Worker → Worker
unfolding is_current
finish_run t now w =
    let stopped = record w { state = WorkerState.stopped; stopped_at = some now } in
    if is_current t w && is_running w.state then stopped else w

-- `failRun`. It is called for a task whose engine does not start, and by `handleStop` for the run that
-- it stops.
unfoldable pub fail_run : ℕ → String → ℤ → String → Worker → Worker
fail_run generation run_id now message w =
    let failed = record w {
      state = WorkerState.failed;
      stopped_at = some now;
      last_error = message;
      schedule_cancel = none;
    } in
    if w.generation == generation && same w.run_id run_id then failed else w

-- The zero time is reported as 0.
pub record StatusResponse : Type 0 where
  pub protocol_version : ℤ
  pub worker_id : String
  pub server_time : ℤ
  pub run_id : String
  pub plan_id : String
  pub plan_revision : ℕ
  pub state : WorkerState
  pub scheduled_at : Option ℤ
  pub started_at : Option ℤ
  pub stopped_at : Option ℤ
  pub error : String

-- `statusLocked`, for the worker's name and the time.
unfoldable pub status_locked : String → ℤ → Worker → StatusResponse
status_locked id now w = record {
  protocol_version = protocol_version;
  worker_id = id;
  server_time = now;
  run_id = w.run_id;
  plan_id = w.plan_id;
  plan_revision = w.plan_revision;
  state = w.state;
  scheduled_at = w.scheduled_at;
  started_at = w.started_at;
  stopped_at = w.stopped_at;
  error = w.last_error;
}

-- `handleStatus` for the `runId` of the query, which may be empty.
unfoldable pub handle_status : String → ℤ → String → Worker → Result HttpError StatusResponse
unfolding status_locked
handle_status id now run_id w = do
  guard (same run_id "" || same run_id w.run_id) run_not_found
  ok (status_locked id now w)

-- What `handleStop` has to do after its first part: nothing, or to stop the engine of a generation.
pub data StopOutcome : Type 0 where
  already_over stopped_early : StopOutcome
  stop_engine : (generation : ℕ) (load_engine : Option ℕ) → StopOutcome

abbrev pub stop_locked : ℤ → Worker → StopOutcome × Worker
stop_locked now w =
    let cancelled = record w { schedule_cancel = none } in
    let over = record cancelled { state = WorkerState.stopped; stopped_at = some now } in
    if terminal w.state
    then (already_over, w)
    else if is_running w.state
    then (stop_engine w.generation w.load_engine, cancelled)
    else (stopped_early, over)

-- `handleStop` up to the call of the engine.
unfoldable pub begin_stop :
    ℤ → Option StopRequest → Worker → Result HttpError (StopOutcome × Worker)
begin_stop now body w = do
  request ← or_error invalid_body body
  guard (eqb_ℤ request.protocol_version protocol_version) unsupported_version
  guard (not (same request.run_id "") && same request.run_id w.run_id) run_not_found
  ok (stop_locked now w)

-- The rest of `handleStop`, after the engine was stopped. The generation is not compared.
unfoldable pub end_stop : String → ℤ → Worker → Worker
end_stop run_id now w =
    let stopped = record w { state = WorkerState.stopped; stopped_at = some now } in
    if same w.run_id run_id && not (terminal w.state) then stopped else w
