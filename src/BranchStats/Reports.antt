-- ===== src/BranchStats/Reports.antt =====
-- The snapshots of the routes of branches, against what was recorded.
use flow_routine.Prelude.{
  ℕ, ◌+◌, ◌≤◌, ◌-◌, length-map, ◌<◌, ◌≡◌, List, arith, length, get_elem?, some,
}
use flow_routine.Prelude.Int.{ℤ}
use flow_routine.BranchStats.{
  RouteShard, BranchRouteDescriptor, BranchRouteSnapshot, shard_count, init_branch_routes,
}
use flow_routine.BranchStats.Counted.{
  Event, Request, Recorded, calls_for, count_all, Recorded-balanced,
}
use flow_routine.BranchStats.Snapshots.{load_count, history_at, branch_route_snapshots}
use flow_routine.BranchStats.Parts.{init-AllSize}
use flow_routine.BranchStats.Bounds.{Le}
use flow_routine.BranchStats.Loads.{Words, load_routes-Between}

-- Numbers between two counts, in the first of which the total exceeds the outcomes by the unfinished
-- requests: it still does, up to what was added from one count to the other.
pub record Balanced (before after n : RouteShard) (unfinished : ℕ) : Type 0 where
  pub enough : n.total + before.total ≤ n.success + n.failed + unfinished + after.total
  pub most :
      n.success + n.failed + unfinished + (before.success + before.failed)
      ≤ n.total + (after.success + after.failed)

-- A snapshot has the 64-bit words of numbers that lie between the two counts.
pub record Reports (before after : RouteShard) (unfinished : ℕ) (s : BranchRouteSnapshot)
    : Type 0 where
  pub numbers : RouteShard
  pub words : Words s numbers
  pub above : Le before numbers
  pub below : Le numbers after
  pub balanced : Balanced before after numbers unfinished

unfoldable pub last_history :
    ℤ → List BranchRouteDescriptor → List Event → (ℕ → List Event) → List Event
last_history virtual_users descriptors before between =
    history_at before between (load_count (init_branch_routes virtual_users descriptors) - 1)

-- A snapshot is read, one load at a time, after any interleaving of the atomic additions of selections
-- and requests by any workers, and any additions come between its loads. It has, as 64-bit words,
-- numbers that lie between those added for the route before the snapshot and those added before its
-- last load. Its total is that of its successes, its failures and the requests of the route whose
-- second addition was still to come when it began, up to the additions that came between the loads;
-- exactly that, if there were none.
pub branch_route_snapshots-Reports :
    (virtual_users : ℤ) (descriptors : List BranchRouteDescriptor) (unfinished : List Request)
    (before : List Event)
    → Recorded unfinished before
    → (between : ℕ → List Event) (i : ℕ) → i < length descriptors
    → (s : BranchRouteSnapshot) × (get_elem?
          (branch_route_snapshots virtual_users descriptors before between)
          i
        ≡ some s)
      × Reports
          (count_all i before)
          (count_all i (last_history virtual_users descriptors before between))
          (calls_for i unfinished)
          s
unfolding branch_route_snapshots init_branch_routes shard_count last_history
branch_route_snapshots-Reports virtual_users descriptors unfinished before recorded between i
      inside =
    let start = init_branch_routes virtual_users descriptors in
    let size : length start ≡ length descriptors = length-map descriptors _ in
    let here : i + 0 ≡ i = omega arith in
    let (s, found, n, low, high, words) =
      load_routes-Between virtual_users descriptors before between (load_count start - 1)
        (omega arith) start 0 0 (init-AllSize virtual_users descriptors) (omega arith) (omega arith)
        i (rw size inside) in
    let low' : Le (count_all i before) n = rw here at low in
    let high' : Le n (count_all i (last_history virtual_users descriptors before between)) =
      rw here at high in
    let b = Recorded-balanced i recorded in
    (
      s,
      found,
      record {
        numbers = n;
        words = words;
        above = low';
        below = high';
        balanced = record {
          enough = omega (arith, b, low'.success, low'.failed, high'.total);
          most = omega (arith, b, low'.total, high'.success, high'.failed);
        };
      },
    )
