-- ===== src/Aggregate.antt =====
-- internal/distributed/aggregate.go: what the coordinator keeps of the snapshots of its workers. An array
-- of fixed length is a function of its index. Times are in nanoseconds.
pub mod Consistent
pub mod Monotonic
pub mod Polls
pub mod Statuses
pub mod Grows
pub mod Totals
pub mod Kept
mod Tests
use flow_routine.Prelude.{
  ℕ, zero, suc, ◌+◌, ◌-◌, ◌*◌, ◌/◌, ◌%◌, ◌^◌, ◌≤◌, ◌<◌, min, max, ◌≡◌, refl, sym, ap, ◌∙◌, subst,
  ◌≢◌, ◌↔◌, ◌⊎◌, inl, inr, Bool, true, false, ◌&&◌, ◌||◌, not, Option, none, some, List, [], ◌∷◌,
  ◌++◌, map, arith, ltb, leb, ◌==◌, if◌then◌else◌, ltb→lt, lt→ltb, leb→le, ==_iff, tests,
  Bool-cases, Option-cases, length, get_elem?, get_or, set, replicate, take, drop, length-append,
  length-set, length-replicate, length-map, get_or-set,
}
use Prim.Native.String.{String}
use flow_routine.Prelude.Int.{ℤ}
use flow_routine.BranchStats.{BranchRouteSnapshot}
use flow_routine.Worker.{WorkerState}

pub record AssertionFailureCounts : Type 0 where
  pub status : ℕ
  pub header : ℕ
  pub json : ℕ
  pub response_latency : ℕ
  pub step_latency : ℕ
  pub count_only : ℕ

pub record Snapshot : Type 0 where
  pub started_at : ℤ
  pub at : ℤ
  pub total_requests : ℕ
  pub success_requests : ℕ
  pub failed_requests : ℕ
  pub timeout_failures : ℕ
  pub dns_failures : ℕ
  pub tls_failures : ℕ
  pub conn_refused : ℕ
  pub other_failures : ℕ
  pub assertion_failures : ℕ
  pub assertion_failures_by_type : AssertionFailureCounts
  pub capture_failures : ℕ
  pub template_failures : ℕ
  pub dropped_iterations : ℕ
  pub latency_samples : ℕ
  pub total_latency_nano : ℕ
  pub min_latency_nano : ℕ
  pub max_latency_nano : ℕ
  pub p95_latency_nano : ℕ
  pub p99_latency_nano : ℕ
  pub p999_latency_nano : ℕ
  pub latency_buckets : ℕ → ℕ
  pub status_codes : ℕ → ℕ
  pub bytes_read : ℕ
  pub bytes_written : ℕ

pub record StepStatusCodeCount : Type 0 where
  pub code : ℤ
  pub count : ℕ

pub record RequestStepSnapshot : Type 0 where
  pub id : String
  pub name : String
  pub total_requests : ℕ
  pub success_requests : ℕ
  pub failed_requests : ℕ
  pub timeout_failures : ℕ
  pub dns_failures : ℕ
  pub tls_failures : ℕ
  pub conn_refused : ℕ
  pub other_failures : ℕ
  pub assertion_failures : ℕ
  pub assertion_failures_by_type : AssertionFailureCounts
  pub capture_failures : ℕ
  pub template_failures : ℕ
  pub latency_samples : ℕ
  pub total_latency_nano : ℕ
  pub min_latency_nano : ℕ
  pub max_latency_nano : ℕ
  pub p95_latency_nano : ℕ
  pub p99_latency_nano : ℕ
  pub p999_latency_nano : ℕ
  pub latency_buckets : ℕ → ℕ
  pub status_codes : List StepStatusCodeCount

-- A state as the worker sends it.
pub data SentState : Type 0 where
  known : WorkerState → SentState
  unknown : String → SentState

pub record StatusResponse : Type 0 where
  pub protocol_version : ℤ
  pub worker_id : String
  pub server_unix_nano : ℤ
  pub run_id : String
  pub plan_id : String
  pub plan_revision : ℕ
  pub state : SentState
  pub scheduled_at_nano : ℤ
  pub started_at_nano : ℤ
  pub stopped_at_nano : ℤ
  pub error : String

pub record SnapshotResponse : Type 0 where
  pub status : StatusResponse
  pub snapshot : Snapshot
  pub request_steps : List RequestStepSnapshot
  pub branch_routes : List BranchRouteSnapshot

abbrev pub latency_bucket_count : ℕ
latency_bucket_count = 1024

abbrev pub http_status_count : ℕ
http_status_count = 600

abbrev pub max_uint64 : ℕ
max_uint64 = 18_446_744_073_709_551_615

pub data AggregateError : Type 0 where
  invalid_state inconsistent_metrics inconsistent_buckets inconsistent_statuses : AggregateError
  inconsistent_step inconsistent_step_buckets invalid_step_statuses : AggregateError
  inconsistent_step_statuses inconsistent_branches : AggregateError
  metrics_backwards histogram_backwards statuses_backwards : AggregateError
  steps_changed_shape step_backwards branches_changed_shape branch_backwards : AggregateError
  mismatched_steps mismatched_branches : AggregateError

-- The loops over the array indexes below a bound.
unfoldable pub all_below : ℕ → (ℕ → Bool) → Bool
all_below zero test = true
all_below (suc n) test = let before = all_below n test in before && test n
