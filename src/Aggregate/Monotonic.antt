-- ===== src/Aggregate/Monotonic.antt =====
-- internal/distributed/aggregate.go: `validateMonotonicSnapshot`. The counters that a function compares
-- one by one are a list here.
use flow_routine.Prelude.{
  ℕ, Bool, true, false, ◌&&◌, List, [], ◌∷◌, ◌++◌, leb, ◌==◌, if◌then◌else◌, length,
}
use Prim.Native.String.{String, compare}
use text.Mathlib.Text
use flow_routine.Prelude.Int.{ℤ, eqb_ℤ}
use flow_routine.Prelude.Result.{Result, ◌>>◌, guard}
use flow_routine.BranchStats.{BranchRouteSnapshot}
use flow_routine.Aggregate.{
  AssertionFailureCounts, Snapshot, StepStatusCodeCount, RequestStepSnapshot, SnapshotResponse,
  AggregateError, all_below, latency_bucket_count, http_status_count, metrics_backwards,
  histogram_backwards, statuses_backwards, steps_changed_shape, step_backwards,
  branches_changed_shape, branch_backwards,
}

-- `current >= previous` for each counter.
unfoldable pub at_most : List ℕ → List ℕ → Bool
at_most [] current = true
at_most (p ∷ previous) [] = false
at_most (p ∷ previous) (c ∷ current) = leb p c && at_most previous current

-- `assertionsMonotonic` compares these.
unfoldable pub assertion_counters : AssertionFailureCounts → List ℕ
assertion_counters a =
    a.status ∷ a.header ∷ a.json ∷ a.response_latency ∷ a.step_latency ∷ a.count_only ∷ []

-- `snapshotScalarsMonotonic` compares these.
unfoldable pub snapshot_counters : Snapshot → List ℕ
unfolding assertion_counters
snapshot_counters s =
    s.total_requests
      ∷ s.success_requests
      ∷ s.failed_requests
      ∷ s.timeout_failures
      ∷ s.dns_failures
      ∷ s.tls_failures
      ∷ s.conn_refused
      ∷ s.other_failures
      ∷ s.assertion_failures
      ∷ assertion_counters s.assertion_failures_by_type
    ++ s.capture_failures ∷ s.template_failures ∷ s.dropped_iterations ∷ s.latency_samples
      ∷ s.total_latency_nano ∷ s.bytes_read ∷ s.bytes_written ∷ []

-- `stepSnapshotMonotonic` compares these.
unfoldable pub step_counters : RequestStepSnapshot → List ℕ
unfolding assertion_counters
step_counters s =
    s.total_requests
      ∷ s.success_requests
      ∷ s.failed_requests
      ∷ s.timeout_failures
      ∷ s.dns_failures
      ∷ s.tls_failures
      ∷ s.conn_refused
      ∷ s.other_failures
      ∷ s.assertion_failures
      ∷ assertion_counters s.assertion_failures_by_type
    ++ s.capture_failures ∷ s.template_failures ∷ s.latency_samples ∷ s.total_latency_nano ∷ []

-- `branchSnapshotMonotonic` compares these.
unfoldable pub branch_counters : BranchRouteSnapshot → List ℕ
branch_counters b = b.selections ∷ b.total ∷ b.success ∷ b.failed ∷ []

abbrev pub same_text : String → String → Bool
same_text a b = Text.is_eq (compare a b)

unfoldable pub branch_snapshot_monotonic : BranchRouteSnapshot → BranchRouteSnapshot → Bool
unfolding at_most branch_counters
branch_snapshot_monotonic previous current =
    same_text previous.branch_id current.branch_id
    && same_text previous.route_id current.route_id
    && same_text previous.name current.name
    && at_most (branch_counters previous) (branch_counters current)

-- `previousStatuses`: a map from codes to counts, the newest entry first.
unfoldable pub remove_code : ℤ → List StepStatusCodeCount → List StepStatusCodeCount
remove_code code [] = []
remove_code code (s ∷ rest) =
    let later = remove_code code rest in if eqb_ℤ s.code code then later else s ∷ later

unfoldable pub count_at : ℤ → List StepStatusCodeCount → ℕ
count_at code [] = 0
count_at code (s ∷ rest) =
    let later = count_at code rest in if eqb_ℤ s.code code then s.count else later

unfoldable pub status_map :
    List StepStatusCodeCount → List StepStatusCodeCount → List StepStatusCodeCount
unfolding remove_code
status_map [] known = known
status_map (s ∷ rest) known = status_map rest (s ∷ remove_code s.code known)

unfoldable pub is_empty_map : List StepStatusCodeCount → Bool
is_empty_map [] = true
is_empty_map (s ∷ rest) = false

-- The loop over the statuses of the current step.
unfoldable pub statuses_monotonic : List StepStatusCodeCount → List StepStatusCodeCount → Bool
unfolding count_at remove_code is_empty_map
statuses_monotonic previous [] = is_empty_map previous
statuses_monotonic previous (s ∷ rest) =
    leb (count_at s.code previous) s.count && statuses_monotonic (remove_code s.code previous) rest

unfoldable pub step_snapshot_monotonic : RequestStepSnapshot → RequestStepSnapshot → Bool
unfolding at_most step_counters status_map statuses_monotonic
step_snapshot_monotonic previous current =
    same_text previous.id current.id
    && same_text previous.name current.name
    && at_most (step_counters previous) (step_counters current)
    && all_below latency_bucket_count
        (λ i. leb (previous.latency_buckets i) (current.latency_buckets i))
    && statuses_monotonic (status_map previous.status_codes []) current.status_codes

-- The loops over the steps and over the routes, of which there are as many as before.
unfoldable pub steps_monotonic : List RequestStepSnapshot → List RequestStepSnapshot → Bool
unfolding step_snapshot_monotonic
steps_monotonic (p ∷ previous) (c ∷ current) =
    step_snapshot_monotonic p c && steps_monotonic previous current
steps_monotonic [] current = true
steps_monotonic (p ∷ previous) [] = true

unfoldable pub branches_monotonic : List BranchRouteSnapshot → List BranchRouteSnapshot → Bool
unfolding branch_snapshot_monotonic
branches_monotonic (p ∷ previous) (c ∷ current) =
    branch_snapshot_monotonic p c && branches_monotonic previous current
branches_monotonic [] current = true
branches_monotonic (p ∷ previous) [] = true

-- `validateMonotonicSnapshot`.
unfoldable pub validate_monotonic_snapshot :
    SnapshotResponse → SnapshotResponse → Result AggregateError (Unit {0})
unfolding at_most snapshot_counters steps_monotonic branches_monotonic
validate_monotonic_snapshot previous current = do
  guard (at_most (snapshot_counters previous.snapshot) (snapshot_counters current.snapshot))
      metrics_backwards
  guard
      (all_below latency_bucket_count
        (λ i. leb (previous.snapshot.latency_buckets i) (current.snapshot.latency_buckets i)))
      histogram_backwards
  guard
      (all_below http_status_count
        (λ i. leb (previous.snapshot.status_codes i) (current.snapshot.status_codes i)))
      statuses_backwards
  guard (length previous.request_steps == length current.request_steps) steps_changed_shape
  guard (steps_monotonic previous.request_steps current.request_steps) step_backwards
  guard (length previous.branch_routes == length current.branch_routes) branches_changed_shape
  guard (branches_monotonic previous.branch_routes current.branch_routes) branch_backwards
