-- ===== src/BranchStats.antt =====
-- internal/engine/branch_stats.go: the counters of the routes of branches, kept in shards that the
-- workers share. An atomic addition is one step, so recording a request is two; a counter is a 64-bit
-- word. The snapshots are in the module Snapshots.
pub mod Sums
pub mod Counted
pub mod Snapshots
pub mod Parts
pub mod Bounds
pub mod Loads
pub mod Reports
mod Tests
use flow_routine.Prelude.{
  ℕ, zero, suc, ◌+◌, ◌-◌, ◌*◌, ◌/◌, ◌%◌, ◌^◌, ◌≤◌, ◌<◌, min, max, ◌≡◌, refl, sym, ap, ◌∙◌, subst,
  ◌≢◌, ◌↔◌, ◌⊎◌, inl, inr, Bool, true, false, ◌&&◌, ◌||◌, not, Option, none, some, List, [], ◌∷◌,
  ◌++◌, map, arith, ltb, leb, ◌==◌, if◌then◌else◌, ltb→lt, lt→ltb, leb→le, ==_iff, tests,
  Bool-cases, Option-cases, length, get_elem?, get_or, set, replicate, take, drop, length-append,
  length-set, length-replicate, length-map, get_or-set,
}
use Prim.Native.String.{String}
use flow_routine.Prelude.Int.{ℤ, pos_part}

abbrev pub word : ℕ → ℕ
word n = n % 2 ^ 64

abbrev pub max_branch_route_stats_shards : ℕ
max_branch_route_stats_shards = 4

-- `branchRouteStatsShard`.
pub record RouteShard : Type 0 where
  pub selections : ℕ
  pub total : ℕ
  pub success : ℕ
  pub failed : ℕ

-- `atomicBranchRouteStats`.
pub record RouteStats : Type 0 where
  pub branch_id : String
  pub route_id : String
  pub name : String
  pub shards : List RouteShard

pub record BranchRouteDescriptor : Type 0 where
  pub branch_id : String
  pub route_id : String
  pub name : String

pub record BranchRouteSnapshot : Type 0 where
  pub branch_id : String
  pub route_id : String
  pub name : String
  pub selections : ℕ
  pub total : ℕ
  pub success : ℕ
  pub failed : ℕ

abbrev pub empty_shard : RouteShard
empty_shard = record { selections = 0; total = 0; success = 0; failed = 0 }

unfoldable pub shard_count : ℤ → ℕ
shard_count virtual_users = min (max 1 (pos_part virtual_users)) max_branch_route_stats_shards

unfoldable pub new_route_stats : ℤ → BranchRouteDescriptor → RouteStats
unfolding shard_count
new_route_stats virtual_users descriptor = record {
  branch_id = descriptor.branch_id;
  route_id = descriptor.route_id;
  name = descriptor.name;
  shards = replicate (shard_count virtual_users) empty_shard;
}

unfoldable pub init_branch_routes : ℤ → List BranchRouteDescriptor → List RouteStats
unfolding new_route_stats
init_branch_routes virtual_users descriptors = map (new_route_stats virtual_users) descriptors

unfoldable pub record_selection : RouteShard → RouteShard
record_selection shard = record shard { selections = word (shard.selections + 1) }

-- `recordRequest` makes two atomic additions, and others may come between them: first this one,
unfoldable pub record_total : RouteShard → RouteShard
record_total shard = record shard { total = word (shard.total + 1) }

-- then this one.
unfoldable pub record_outcome : Bool → RouteShard → RouteShard
record_outcome true shard = record shard { success = word (shard.success + 1) }
record_outcome false shard = record shard { failed = word (shard.failed + 1) }

-- A change of the item at an index, if there is one.
unfoldable pub modify_at {ℓ} : {A : Type ℓ} → (A → A) → ℕ → List A → List A
modify_at f n [] = []
modify_at f zero (x ∷ rest) = f x ∷ rest
modify_at f (suc n) (x ∷ rest) = x ∷ modify_at f n rest

-- What is recorded in the shard that a route has for a worker.
unfoldable pub on_route : (RouteShard → RouteShard) → ℕ → RouteStats → RouteStats
unfolding modify_at
on_route change worker_index route = record route {
  shards = modify_at change (worker_index % length route.shards) route.shards;
}

-- `branchRouteShard` with what its callers do with the shard; nothing happens without one.
unfoldable pub on_shard : (RouteShard → RouteShard) → ℕ → ℕ → List RouteStats → List RouteStats
unfolding on_route
on_shard change route_index worker_index stats =
    modify_at (on_route change worker_index) route_index stats

-- `reset`.
unfoldable pub reset : RouteStats → RouteStats
reset route = record route { shards = map (λ shard. empty_shard) route.shards }
