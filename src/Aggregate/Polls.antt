-- ===== src/Aggregate/Polls.antt =====
-- internal/distributed/aggregate.go: the loop of `Snapshot` over the answers of the workers, `applyStatus`,
-- the checks of the descriptors, and what `resultLocked` says of the workers.
use flow_routine.Prelude.{
  Bool, true, false, ◌&&◌, ◌||◌, not, Option, none, some, List, [], ◌∷◌, map, if◌then◌else◌,
}
use Prim.Native.String.{String}
use flow_routine.Prelude.Int.{ℤ, pos, ◌-ℤ◌, eqb_ℤ}
use flow_routine.Prelude.Result.{Result, ok, err, ◌>>◌, guard}
use flow_routine.BranchStats.{BranchRouteSnapshot}
use flow_routine.Worker.{WorkerState, terminal}
use flow_routine.Aggregate
use flow_routine.Aggregate.Consistent.{validate_snapshot_response}
use flow_routine.Aggregate.Monotonic.{same_text, validate_monotonic_snapshot}

pub record WorkerHealth : Type 0 where
  pub id : String
  pub reachable : Bool
  pub stale : Bool
  pub state : Aggregate.SentState
  pub last_error : String
  pub last_seen_unix_nano : ℤ
  pub scheduled_unix_nano : ℤ
  pub started_unix_nano : ℤ
  pub start_skew_nano : ℤ
  pub stopped_unix_nano : ℤ

-- `last` is `none` while `hasSnapshot` is false.
pub record RunWorker : Type 0 where
  pub clock_offset : ℤ
  pub last : Option Aggregate.SnapshotResponse
  pub health : WorkerHealth

pub record StepDescriptor : Type 0 where
  pub id : String
  pub name : String

pub record BranchDescriptor : Type 0 where
  pub branch_id : String
  pub route_id : String
  pub name : String

-- The fields of `Run` that `Snapshot` changes.
pub record RunState : Type 0 where
  pub workers : List RunWorker
  pub steps : Option (List StepDescriptor)
  pub branches : Option (List BranchDescriptor)

abbrev pub message : Aggregate.AggregateError → String
message Aggregate.invalid_state = "worker returned an invalid state"
message Aggregate.inconsistent_metrics = "worker returned inconsistent cumulative metrics"
message Aggregate.inconsistent_buckets = "worker returned inconsistent latency buckets"
message Aggregate.inconsistent_statuses = "worker returned inconsistent status-code metrics"
message Aggregate.inconsistent_step = "worker returned inconsistent request-step metrics"
message Aggregate.inconsistent_step_buckets =
    "worker returned inconsistent request-step latency buckets"
message Aggregate.invalid_step_statuses = "worker returned invalid request-step status metrics"
message Aggregate.inconsistent_step_statuses =
    "worker returned inconsistent request-step status metrics"
message Aggregate.inconsistent_branches = "worker returned inconsistent branch-route metrics"
message Aggregate.metrics_backwards = "worker cumulative metrics moved backwards"
message Aggregate.histogram_backwards = "worker latency histogram moved backwards"
message Aggregate.statuses_backwards = "worker status metrics moved backwards"
message Aggregate.steps_changed_shape = "worker request-step metrics changed shape"
message Aggregate.step_backwards = "worker request-step metrics moved backwards"
message Aggregate.branches_changed_shape = "worker branch-route metrics changed shape"
message Aggregate.branch_backwards = "worker branch-route metrics moved backwards"
message Aggregate.mismatched_steps = "worker returned mismatched request-step metrics"
message Aggregate.mismatched_branches = "worker returned mismatched branch-route metrics"

unfoldable pub steps_match : List StepDescriptor → List Aggregate.RequestStepSnapshot → Bool
steps_match [] [] = true
steps_match [] (s ∷ steps) = false
steps_match (d ∷ descriptors) [] = false
steps_match (d ∷ descriptors) (s ∷ steps) =
    same_text d.id s.id && same_text d.name s.name && steps_match descriptors steps

-- `validateStepDescriptors`, with the descriptors that it leaves.
unfoldable pub validate_step_descriptors :
    Option (List StepDescriptor)
    → List Aggregate.RequestStepSnapshot
    → Result Aggregate.AggregateError (List StepDescriptor)
unfolding steps_match
validate_step_descriptors none steps = ok (map (λ s. record { id = s.id; name = s.name }) steps)
validate_step_descriptors (some descriptors) steps = do
  guard (steps_match descriptors steps) Aggregate.mismatched_steps
  ok descriptors

unfoldable pub branches_match : List BranchDescriptor → List BranchRouteSnapshot → Bool
branches_match [] [] = true
branches_match [] (b ∷ branches) = false
branches_match (d ∷ descriptors) [] = false
branches_match (d ∷ descriptors) (b ∷ branches) =
    same_text d.branch_id b.branch_id
    && same_text d.route_id b.route_id
    && same_text d.name b.name
    && branches_match descriptors branches

-- `validateBranchDescriptors`, with the descriptors that it leaves.
unfoldable pub validate_branch_descriptors :
    Option (List BranchDescriptor)
    → List BranchRouteSnapshot
    → Result Aggregate.AggregateError (List BranchDescriptor)
unfolding branches_match
validate_branch_descriptors none branches =
    ok
      (map (λ b. record { branch_id = b.branch_id; route_id = b.route_id; name = b.name }) branches)
validate_branch_descriptors (some descriptors) branches = do
  guard (branches_match descriptors branches) Aggregate.mismatched_branches
  ok descriptors

-- `validateMonotonicSnapshot`, if there is a snapshot to compare with.
unfoldable pub monotonic_after :
    Option Aggregate.SnapshotResponse
    → Aggregate.SnapshotResponse
    → Result Aggregate.AggregateError (Unit {0})
unfolding validate_monotonic_snapshot
monotonic_after none response = ok tt
monotonic_after (some previous) response = validate_monotonic_snapshot previous response

-- The descriptors of the run, which the first accepted answer sets.
pub record Descriptors : Type 0 where
  pub steps : Option (List StepDescriptor)
  pub branches : Option (List BranchDescriptor)

module _ (started_at now : ℤ) where
  -- `applyStatus`.
  unfoldable pub apply_status : ℤ → Aggregate.StatusResponse → WorkerHealth → WorkerHealth
  apply_status clock_offset status health =
      let started = status.started_at_nano -ℤ clock_offset in
      let has_started = not (eqb_ℤ status.started_at_nano (pos 0)) in
      let has_stopped = not (eqb_ℤ status.stopped_at_nano (pos 0)) in
      record health {
        state = status.state;
        last_error = status.error;
        scheduled_unix_nano = started_at;
        started_unix_nano = if has_started then started else health.started_unix_nano;
        start_skew_nano = if has_started then started -ℤ started_at else health.start_skew_nano;
        stopped_unix_nano =
            if has_stopped
            then status.stopped_at_nano -ℤ clock_offset
            else health.stopped_unix_nano;
      }

  unfoldable pub unreachable : String → RunWorker → RunWorker
  unreachable text worker = record worker {
    health = record worker.health { reachable = false; stale = true; last_error = text };
  }

  unfoldable pub reject : Aggregate.AggregateError → RunWorker → RunWorker
  reject e worker = record worker {
    health = record worker.health {
      reachable = true;
      stale = true;
      last_error = message e;
      last_seen_unix_nano = now;
    };
  }

  unfoldable pub accept : Aggregate.SnapshotResponse → RunWorker → RunWorker
  unfolding apply_status
  accept response worker =
      let applied = apply_status worker.clock_offset response.status worker.health in
      record worker {
        last = some response;
        health = record applied { reachable = true; stale = false; last_seen_unix_nano = now };
      }

  -- What follows each of the four checks of an answer, by what the check returned.
  abbrev pub after_branches :
      Aggregate.SnapshotResponse
      → RunWorker
      → Descriptors
      → Result Aggregate.AggregateError (List BranchDescriptor)
      → Descriptors × RunWorker
  after_branches response worker d (err e) = (d, reject e worker)
  after_branches response worker d (ok branches) =
      (record d { branches = some branches }, accept response worker)

  abbrev pub after_steps :
      Aggregate.SnapshotResponse
      → RunWorker
      → Descriptors
      → Result Aggregate.AggregateError (List StepDescriptor)
      → Descriptors × RunWorker
  after_steps response worker d (err e) = (d, reject e worker)
  after_steps response worker d (ok steps) =
      after_branches response worker (record d { steps = some steps })
        (validate_branch_descriptors d.branches response.branch_routes)

  abbrev pub after_monotonic :
      Aggregate.SnapshotResponse
      → RunWorker
      → Descriptors
      → Result Aggregate.AggregateError (Unit {0})
      → Descriptors × RunWorker
  after_monotonic response worker d (err e) = (d, reject e worker)
  after_monotonic response worker d (ok u) =
      after_steps response worker d (validate_step_descriptors d.steps response.request_steps)

  abbrev pub after_valid :
      Aggregate.SnapshotResponse
      → RunWorker
      → Descriptors
      → Result Aggregate.AggregateError (Unit {0})
      → Descriptors × RunWorker
  after_valid response worker d (err e) = (d, reject e worker)
  after_valid response worker d (ok u) =
      after_monotonic response worker d (monotonic_after worker.last response)

  -- The body of the loop, with the answer of the worker or the error of the call.
  unfoldable pub take_answer :
      Descriptors → RunWorker → Result String Aggregate.SnapshotResponse → Descriptors × RunWorker
  unfolding unreachable reject accept validate_snapshot_response monotonic_after
      validate_step_descriptors validate_branch_descriptors
  take_answer d worker (err text) = (d, unreachable text worker)
  take_answer d worker (ok response) =
      after_valid response worker d (validate_snapshot_response response)

  -- The loop over the workers, with one answer for each.
  unfoldable pub take_answers :
      Descriptors
      → List RunWorker
      → List (Result String Aggregate.SnapshotResponse)
      → Descriptors × List RunWorker
  unfolding take_answer
  take_answers d [] answers = (d, [])
  take_answers d (worker ∷ workers) [] = (d, worker ∷ workers)
  take_answers d (worker ∷ workers) (answer ∷ answers) =
      let here = take_answer d worker answer in
      let later = take_answers here.0 workers answers in (later.0, here.1 ∷ later.1)

  -- `Snapshot`, once the workers have answered.
  unfoldable pub take_snapshot :
      List (Result String Aggregate.SnapshotResponse) → RunState → RunState
  unfolding take_answers
  take_snapshot answers run =
      let taken =
        take_answers (record { steps = run.steps; branches = run.branches }) run.workers answers in
      record { workers = taken.1; steps = taken.0.steps; branches = taken.0.branches }

unfoldable pub has_failed : Aggregate.SentState → Bool
has_failed (Aggregate.SentState.known WorkerState.failed) = true
has_failed _ = false

unfoldable pub is_terminal : Aggregate.SentState → Bool
unfolding terminal
is_terminal (Aggregate.SentState.known s) = terminal s
is_terminal (Aggregate.SentState.unknown s) = false

-- `partial` and `allTerminal` of `resultLocked`.
unfoldable pub is_partial : List RunWorker → Bool
unfolding has_failed
is_partial [] = false
is_partial (w ∷ workers) =
    not w.health.reachable || w.health.stale || has_failed w.health.state || is_partial workers

unfoldable pub all_terminal : List RunWorker → Bool
unfolding is_terminal
all_terminal [] = true
all_terminal (w ∷ workers) = is_terminal w.health.state && all_terminal workers
