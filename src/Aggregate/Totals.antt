-- ===== src/Aggregate/Totals.antt =====
-- internal/distributed/aggregate.go: the snapshots that `validateSnapshotResponse` accepts.
use flow_routine.Prelude.{
  ◌+◌, ◌-◌, ◌≤◌, ◌≡◌, inl, inr, ◌&&◌, List, [], ◌∷◌, arith, leb, ◌==◌, leb→le,
}
use flow_routine.Prelude.Result.{ok, err, guard-ok, Result-cases}
use flow_routine.BranchStats.{BranchRouteSnapshot}
use flow_routine.Aggregate.{
  RequestStepSnapshot, SnapshotResponse, invalid_state, inconsistent_metrics, inconsistent_buckets,
  inconsistent_statuses, inconsistent_branches, inconsistent_step, inconsistent_step_buckets,
  inconsistent_step_statuses,
}
use flow_routine.Aggregate.Consistent.{
  bucket_total, step_status_total, is_valid_state, validate_snapshot_response, validate_steps,
  validate_branches,
}
use flow_routine.Aggregate.Grows.{all_parts}
use flow_routine.Aggregate.Statuses.{StatusesKnown, status_sum, step_status_total_lem}

abbrev pub BranchesConsistent : List BranchRouteSnapshot → Type 0
BranchesConsistent [] = Unit {0}
BranchesConsistent (b ∷ rest) =
    (b.success ≤ b.total) × (b.success + b.failed ≡ b.total) × BranchesConsistent rest

abbrev pub StepsConsistent : List RequestStepSnapshot → Type 0
StepsConsistent [] = Unit {0}
StepsConsistent (s ∷ rest) =
    (s.success_requests ≤ s.total_requests)
    × (s.failed_requests ≤ s.total_requests)
    × (s.latency_samples ≤ s.total_requests)
    × (bucket_total 1024 s.latency_buckets ≤ s.latency_samples)
    × StatusesKnown s.status_codes
    × (status_sum s.status_codes ≤ s.total_requests)
    × StepsConsistent rest

-- The parts of a snapshot are at most its totals.
pub record Consistent (r : SnapshotResponse) : Type 0 where
  pub success : r.snapshot.success_requests ≤ r.snapshot.total_requests
  pub failed : r.snapshot.failed_requests ≤ r.snapshot.total_requests
  pub samples : r.snapshot.latency_samples ≤ r.snapshot.total_requests
  pub buckets : bucket_total 1024 r.snapshot.latency_buckets ≤ r.snapshot.latency_samples
  pub statuses : bucket_total 600 r.snapshot.status_codes ≤ r.snapshot.total_requests
  pub steps : StepsConsistent r.request_steps
  pub branches : BranchesConsistent r.branch_routes

validate_branches_lem :
    (branches : List BranchRouteSnapshot)
    → validate_branches branches ≡ ok tt
    → BranchesConsistent branches
unfolding validate_branches
validate_branches_lem [] h = _
validate_branches_lem (b ∷ rest) h =
    let (here, later) =
      guard-ok (leb b.success b.total && b.failed == (b.total - b.success)) inconsistent_branches _
        h in
    (ground (arith, here), ground (arith, here), validate_branches_lem rest later)

validate_steps_lem :
    (steps : List RequestStepSnapshot) → validate_steps steps ≡ ok tt → StepsConsistent steps
unfolding validate_steps
validate_steps_lem [] h = _
validate_steps_lem (s ∷ rest) h =
    let (parts, h1) =
      guard-ok
        (leb s.success_requests s.total_requests
          && leb s.failed_requests s.total_requests
          && leb s.latency_samples s.total_requests)
        inconsistent_step _ h in
    let (buckets, h2) =
      guard-ok (leb (bucket_total 1024 s.latency_buckets) s.latency_samples)
        inconsistent_step_buckets _ h1 in
    elim (Result-cases (step_status_total s.status_codes 0)) [
      | inl (total, e) ↦
          let (bounded, later) =
            guard-ok (leb total s.total_requests) inconsistent_step_statuses (validate_steps rest)
              (rw e at h2) in
          let (success, failed, samples) =
            all_parts s.success_requests s.failed_requests s.latency_samples s.total_requests
              parts in
          let (sum, known) = step_status_total_lem s.status_codes 0 total e in
          (
            success,
            failed,
            samples,
            leb→le (bucket_total 1024 s.latency_buckets) s.latency_samples buckets,
            known,
            omega (arith, sum, leb→le total s.total_requests bounded),
            validate_steps_lem rest later,
          )
      | inr (x, e) ↦ let wrong : err x ≡ ok tt = rw e at h2 in cc
    ]

pub validate_snapshot_response-Consistent :
    (r : SnapshotResponse) → validate_snapshot_response r ≡ ok tt → Consistent r
unfolding validate_snapshot_response
validate_snapshot_response-Consistent r h =
    let s = r.snapshot in
    let (state, h1) = guard-ok (is_valid_state r.status.state) invalid_state _ h in
    let (parts, h2) =
      guard-ok
        (leb s.success_requests s.total_requests
          && leb s.failed_requests s.total_requests
          && leb s.latency_samples s.total_requests)
        inconsistent_metrics _ h1 in
    let (buckets, h3) =
      guard-ok (leb (bucket_total 1024 s.latency_buckets) s.latency_samples) inconsistent_buckets _
        h2 in
    let (statuses, h4) =
      guard-ok (leb (bucket_total 600 s.status_codes) s.total_requests) inconsistent_statuses _
        h3 in
    elim (Result-cases (validate_steps r.request_steps)) [
      | inl (u, e) ↦
          let (success, failed, samples) =
            all_parts s.success_requests s.failed_requests s.latency_samples s.total_requests
              parts in
          let branches : validate_branches r.branch_routes ≡ ok tt = rw e at h4 in
          record {
            success = success;
            failed = failed;
            samples = samples;
            buckets = leb→le (bucket_total 1024 s.latency_buckets) s.latency_samples buckets;
            statuses = leb→le (bucket_total 600 s.status_codes) s.total_requests statuses;
            steps = validate_steps_lem r.request_steps e;
            branches = validate_branches_lem r.branch_routes branches;
          }
      | inr (x, e) ↦ let wrong : err x ≡ ok tt = rw e at h4 in cc
    ]
