-- ===== src/Aggregate/Consistent.antt =====
-- internal/distributed/aggregate.go: `validateSnapshotResponse`.
use flow_routine.Prelude.{
  ℕ, zero, suc, ◌+◌, ◌-◌, Bool, true, false, ◌&&◌, not, List, [], ◌∷◌, ltb, leb, ◌==◌,
  if◌then◌else◌,
}
use flow_routine.Prelude.Int.{ℤ, pos, ltb_ℤ, leb_ℤ}
use flow_routine.Prelude.Result.{Result, ok, ◌>>=◌, ◌>>◌, guard}
use flow_routine.BranchStats.{BranchRouteSnapshot}
use flow_routine.Aggregate

-- `bucketTotal` of the values below an index; it stays at the greatest value.
unfoldable pub bucket_total : ℕ → (ℕ → ℕ) → ℕ
bucket_total zero values = 0
bucket_total (suc n) values =
    let total = bucket_total n values in
    if ltb (Aggregate.max_uint64 - total) (values n) then Aggregate.max_uint64 else total + values n

unfoldable pub is_valid_state : Aggregate.SentState → Bool
is_valid_state (Aggregate.SentState.known s) = true
is_valid_state (Aggregate.SentState.unknown s) = false

abbrev pub is_known_status : ℤ → Bool
is_known_status code = leb_ℤ (pos 100) code && ltb_ℤ code (pos Aggregate.http_status_count)

-- The loop over the status codes of a step.
unfoldable pub step_status_total :
    List Aggregate.StepStatusCodeCount → ℕ → Result Aggregate.AggregateError ℕ
step_status_total [] total = ok total
step_status_total (status ∷ rest) total = do
  guard (is_known_status status.code && not (ltb (Aggregate.max_uint64 - total) status.count))
      Aggregate.invalid_step_statuses
  step_status_total rest (total + status.count)

unfoldable pub validate_steps :
    List Aggregate.RequestStepSnapshot → Result Aggregate.AggregateError (Unit {0})
unfolding step_status_total
validate_steps [] = ok tt
validate_steps (step ∷ rest) = do
  guard
      (leb step.success_requests step.total_requests
        && leb step.failed_requests step.total_requests
        && leb step.latency_samples step.total_requests)
      Aggregate.inconsistent_step
  guard
      (leb (bucket_total Aggregate.latency_bucket_count step.latency_buckets) step.latency_samples)
      Aggregate.inconsistent_step_buckets
  total ← step_status_total step.status_codes 0
  guard (leb total step.total_requests) Aggregate.inconsistent_step_statuses
  validate_steps rest

unfoldable pub validate_branches :
    List BranchRouteSnapshot → Result Aggregate.AggregateError (Unit {0})
validate_branches [] = ok tt
validate_branches (branch ∷ rest) = do
  guard (leb branch.success branch.total && branch.failed == (branch.total - branch.success))
      Aggregate.inconsistent_branches
  validate_branches rest

-- `validateSnapshotResponse`.
unfoldable pub validate_snapshot_response :
    Aggregate.SnapshotResponse → Result Aggregate.AggregateError (Unit {0})
unfolding is_valid_state validate_steps validate_branches
validate_snapshot_response response =
    let snapshot = response.snapshot in
    do
      guard (is_valid_state response.status.state) Aggregate.invalid_state
      guard
          (leb snapshot.success_requests snapshot.total_requests
            && leb snapshot.failed_requests snapshot.total_requests
            && leb snapshot.latency_samples snapshot.total_requests)
          Aggregate.inconsistent_metrics
      guard
          (leb (bucket_total Aggregate.latency_bucket_count snapshot.latency_buckets)
            snapshot.latency_samples)
          Aggregate.inconsistent_buckets
      guard
          (leb (bucket_total Aggregate.http_status_count snapshot.status_codes)
            snapshot.total_requests)
          Aggregate.inconsistent_statuses
      validate_steps response.request_steps
      validate_branches response.branch_routes
