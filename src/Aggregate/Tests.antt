-- ===== src/Aggregate/Tests.antt =====
-- Polls of a run with two workers.
use flow_routine.Prelude.{ℕ, ◌-◌, ◌≡◌, refl, true, false, none, List, [], ◌∷◌}
use Prim.Native.String.{String}
use flow_routine.Prelude.Int.{◌-ℤ◌, pos}
use flow_routine.Prelude.Result.{Result, ok, err}
use flow_routine.Worker.{WorkerState}
use flow_routine.Aggregate.{
  AssertionFailureCounts, RequestStepSnapshot, Snapshot, StatusResponse, SnapshotResponse,
  SentState, inconsistent_metrics, metrics_backwards,
}
use flow_routine.Aggregate.Consistent.{bucket_total, validate_snapshot_response}
use flow_routine.Aggregate.Monotonic.{validate_monotonic_snapshot, status_map, statuses_monotonic}
use flow_routine.Aggregate.Polls.{
  WorkerHealth, RunWorker, RunState, take_snapshot, apply_status, is_partial, all_terminal,
}

abbrev no_assertions : AssertionFailureCounts
no_assertions = record {
  status = 0;
  header = 0;
  json = 0;
  response_latency = 0;
  step_latency = 0;
  count_only = 0;
}

abbrev requests : ℕ → ℕ → Snapshot
requests total success = record {
  started_at = pos 0;
  at = pos 0;
  total_requests = total;
  success_requests = success;
  failed_requests = total - success;
  timeout_failures = 0;
  dns_failures = 0;
  tls_failures = 0;
  conn_refused = 0;
  other_failures = 0;
  assertion_failures = 0;
  assertion_failures_by_type = no_assertions;
  capture_failures = 0;
  template_failures = 0;
  dropped_iterations = 0;
  latency_samples = 0;
  total_latency_nano = 0;
  min_latency_nano = 0;
  max_latency_nano = 0;
  p95_latency_nano = 0;
  p99_latency_nano = 0;
  p999_latency_nano = 0;
  latency_buckets = λ i. 0;
  status_codes = λ i. 0;
  bytes_read = 0;
  bytes_written = 0;
}

abbrev sent : WorkerState → StatusResponse
sent state = record {
  protocol_version = pos 1;
  worker_id = "left";
  server_unix_nano = pos 0;
  run_id = "run";
  plan_id = "plan";
  plan_revision = 1;
  state = SentState.known state;
  scheduled_at_nano = pos 0;
  started_at_nano = pos 900;
  stopped_at_nano = pos 0;
  error = "";
}

-- All but one of the requests were answered with 200, the other with 404.
abbrev only_step : ℕ → ℕ → RequestStepSnapshot
only_step total success = record {
  id = "s";
  name = "s";
  total_requests = total;
  success_requests = success;
  failed_requests = total - success;
  timeout_failures = 0;
  dns_failures = 0;
  tls_failures = 0;
  conn_refused = 0;
  other_failures = 0;
  assertion_failures = 0;
  assertion_failures_by_type = no_assertions;
  capture_failures = 0;
  template_failures = 0;
  latency_samples = 0;
  total_latency_nano = 0;
  min_latency_nano = 0;
  max_latency_nano = 0;
  p95_latency_nano = 0;
  p99_latency_nano = 0;
  p999_latency_nano = 0;
  latency_buckets = λ i. 0;
  status_codes =
      record { code = pos 200; count = total - 1 } ∷ record { code = pos 404; count = 1 } ∷ [];
}

abbrev answer : ℕ → ℕ → SnapshotResponse
answer total success = record {
  status = sent WorkerState.running;
  snapshot = requests total success;
  request_steps = only_step total success ∷ [];
  branch_routes = [];
}

abbrev new_health : String → WorkerHealth
new_health id = record {
  id = id;
  reachable = true;
  stale = false;
  state = SentState.known WorkerState.scheduled;
  last_error = "";
  last_seen_unix_nano = pos 0;
  scheduled_unix_nano = pos 500;
  started_unix_nano = pos 0;
  start_skew_nano = pos 0;
  stopped_unix_nano = pos 0;
}

abbrev new_run_worker : String → RunWorker
new_run_worker id = record { clock_offset = pos 100; last = none; health = new_health id }

abbrev new_run : RunState
new_run = record {
  workers = new_run_worker "left" ∷ new_run_worker "right" ∷ [];
  steps = none;
  branches = none;
}

abbrev one_answer : List (Result String SnapshotResponse)
one_answer = ok (answer 10 8) ∷ err "connection refused" ∷ []

-- The total stays at the greatest value.
full_total : bucket_total 3 (λ i. 9_223_372_036_854_775_807) ≡ 18_446_744_073_709_551_615
unfolding bucket_total
full_total = refl

too_many_successes : validate_snapshot_response (answer 5 6) ≡ err inconsistent_metrics
unfolding validate_snapshot_response
too_many_successes = refl

fewer_requests : validate_monotonic_snapshot (answer 10 8) (answer 9 8) ≡ err metrics_backwards
unfolding validate_monotonic_snapshot
fewer_requests = refl

-- A code that is gone is a step back.
lost_code :
    statuses_monotonic
      (status_map
        (record { code = pos 200; count = 3 } ∷ record { code = pos 404; count = 1 } ∷ [])
        [])
      (record { code = pos 200; count = 4 } ∷ [])
    ≡ false
unfolding statuses_monotonic status_map
lost_code = refl

-- Of a code that stands twice the first count is compared, and the last one is kept.
repeated_code :
    statuses_monotonic
      (status_map (record { code = pos 200; count = 5 } ∷ []) [])
      (record { code = pos 200; count = 5 } ∷ record { code = pos 200; count = 1 } ∷ [])
    ≡ true
unfolding statuses_monotonic status_map
repeated_code = refl

lower_after_repeated_code :
    statuses_monotonic
      (status_map
        (record { code = pos 200; count = 5 } ∷ record { code = pos 200; count = 1 } ∷ [])
        [])
      (record { code = pos 200; count = 2 } ∷ [])
    ≡ true
unfolding statuses_monotonic status_map
lower_after_repeated_code = refl

-- The clock of the worker is 100 ahead.
skewed :
    (apply_status
      (pos 500)
      (pos 0)
      (pos 100)
      (sent WorkerState.running)
      (new_health "left")).start_skew_nano
    ≡ pos 300
unfolding apply_status ◌-ℤ◌
skewed = refl

one_missing : is_partial (take_snapshot (pos 500) (pos 1000) one_answer new_run).workers ≡ true
unfolding take_snapshot is_partial bucket_total
one_missing = refl

still_running : all_terminal (take_snapshot (pos 500) (pos 1000) one_answer new_run).workers ≡ false
unfolding take_snapshot all_terminal bucket_total
still_running = refl
