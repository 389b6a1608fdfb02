-- ===== src/BranchStats/Snapshots.antt =====
-- internal/engine/branch_stats.go: a snapshot that is read while workers record. Each load is a step of
-- its own, and any additions may come between two loads.
use flow_routine.Prelude.{
  ℕ, zero, suc, ◌+◌, ◌*◌, ◌%◌, ◌&&◌, List, [], ◌∷◌, ◌++◌, ◌==◌, if◌then◌else◌, length, get_or,
}
use flow_routine.Prelude.Int.{ℤ}
use flow_routine.BranchStats.{
  RouteShard, RouteStats, BranchRouteDescriptor, BranchRouteSnapshot, word, empty_shard,
  init_branch_routes,
}
use flow_routine.BranchStats.Sums.{plus, one_selection, one_total, one_outcome}
use flow_routine.BranchStats.Counted.{Event, record_all}

-- A shard of a route.
unfoldable pub shard_of : List RouteStats → ℕ → ℕ → RouteShard
shard_of [] i k = empty_shard
shard_of (route ∷ rest) zero k = get_or route.shards k empty_shard
shard_of (route ∷ rest) (suc i) k = shard_of rest i k

-- The sums after k shards of a route. The loads of a snapshot are numbered, and load n finds
-- `states n`.
unfoldable pub load_shards : (ℕ → List RouteStats) → ℕ → ℕ → ℕ → RouteShard
unfolding shard_of
load_shards states i first zero = empty_shard
load_shards states i first (suc k) =
    let sum = load_shards states i first k in
    let n = first + 4 * k in
    record {
      selections = word (sum.selections + (shard_of (states n) i k).selections);
      total = word (sum.total + (shard_of (states (n + 1)) i k).total);
      success = word (sum.success + (shard_of (states (n + 2)) i k).success);
      failed = word (sum.failed + (shard_of (states (n + 3)) i k).failed);
    }

unfoldable pub load_route : (ℕ → List RouteStats) → RouteStats → ℕ → ℕ → BranchRouteSnapshot
unfolding load_shards
load_route states route i first =
    let sum = load_shards states i first (length route.shards) in
    record {
      branch_id = route.branch_id;
      route_id = route.route_id;
      name = route.name;
      selections = sum.selections;
      total = sum.total;
      success = sum.success;
      failed = sum.failed;
    }

-- The routes from index i on.
unfoldable pub load_routes :
    (ℕ → List RouteStats) → List RouteStats → ℕ → ℕ → List BranchRouteSnapshot
unfolding load_route
load_routes states [] i first = []
load_routes states (route ∷ rest) i first =
    load_route states route i first
    ∷ load_routes states rest (i + 1) (first + 4 * length route.shards)

-- The number of loads of a snapshot.
unfoldable pub load_count : List RouteStats → ℕ
load_count [] = 0
load_count (route ∷ rest) = 4 * length route.shards + load_count rest

-- What was recorded until a load: `between n` comes before load n.
unfoldable pub history_at : List Event → (ℕ → List Event) → ℕ → List Event
history_at before between zero = between 0 ++ before
history_at before between (suc n) = between (suc n) ++ history_at before between n

-- `BranchRouteSnapshots`, with the additions that come before its loads.
unfoldable pub branch_route_snapshots :
    ℤ → List BranchRouteDescriptor → List Event → (ℕ → List Event) → List BranchRouteSnapshot
unfolding load_routes history_at
branch_route_snapshots virtual_users descriptors before between =
    let start = init_branch_routes virtual_users descriptors in
    load_routes (λ n. record_all (history_at before between n) start) start 0 0

-- What was added to one shard of a route that has m of them.
abbrev pub count_part : ℕ → ℕ → ℕ → Event → RouteShard
count_part m i k (Event.selected route worker) =
    if i == route && k == (worker % m) then one_selection else empty_shard
count_part m i k (Event.begun route worker) =
    if i == route && k == (worker % m) then one_total else empty_shard
count_part m i k (Event.ended ok route worker) =
    if i == route && k == (worker % m) then one_outcome ok else empty_shard

unfoldable pub count_parts : ℕ → ℕ → ℕ → List Event → RouteShard
count_parts m i k [] = empty_shard
count_parts m i k (e ∷ earlier) = plus (count_part m i k e) (count_parts m i k earlier)
