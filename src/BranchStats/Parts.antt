-- ===== src/BranchStats/Parts.antt =====
-- What the shards of a route hold, one by one.
use flow_routine.Prelude.{
  ℕ, zero, suc, ◌%◌, ◌<◌, ◌≡◌, refl, ◌∙◌, inl, inr, ◌&&◌, List, [], ◌∷◌, arith, ◌==◌, if◌then◌else◌,
  Bool-cases, length, get_or, replicate, length-replicate,
}
use flow_routine.Prelude.Int.{ℤ}
use flow_routine.BranchStats.{
  RouteShard, RouteStats, BranchRouteDescriptor, empty_shard, shard_count, new_route_stats,
  init_branch_routes, record_selection, record_total, record_outcome, modify_at, on_route, on_shard,
}
use flow_routine.BranchStats.Sums.{
  plus, Same, one_selection, one_total, one_outcome, Adds, record_selection-Adds, record_total-Adds,
  record_outcome-Adds, Same-refl, Same-trans, Same-plus,
}
use flow_routine.BranchStats.Counted.{
  Event, record_event, record_all, length-modify_at, length-record_all,
}
use flow_routine.BranchStats.Snapshots.{shard_of, count_part, count_parts}

abbrev pub AllSize : ℕ → List RouteStats → Type 0
AllSize m [] = Unit {0}
AllSize m (route ∷ rest) = (length route.shards ≡ m) × AllSize m rest

get_or-modify_at :
    (f : RouteShard → RouteShard) (n k : ℕ) (xs : List RouteShard)
    → k < length xs
    → get_or (modify_at f n xs) k empty_shard
      ≡ (if k == n then f (get_or xs k empty_shard) else get_or xs k empty_shard)
unfolding modify_at
get_or-modify_at f n k [] h = absurd (omega arith)
get_or-modify_at f zero zero (x ∷ xs) h = ground arith
get_or-modify_at f zero (suc k) (x ∷ xs) h = ground arith
get_or-modify_at f (suc n) zero (x ∷ xs) h = ground arith
get_or-modify_at f (suc n) (suc k) (x ∷ xs) h = ground (arith, get_or-modify_at f n k xs)

Same-zero : (a : RouteShard) → Same a (plus empty_shard a)
Same-zero a = record {
  selections = omega arith;
  total = omega arith;
  success = omega arith;
  failed = omega arith;
}

module _ (m : ℕ) where
  module _ (change : RouteShard → RouteShard) (w : ℕ) where
    on_shard-AllSize :
        (j : ℕ) (stats : List RouteStats)
        → AllSize m stats
        → AllSize m (modify_at (on_route change w) j stats)
    unfolding modify_at on_route
    on_shard-AllSize j [] h = _
    on_shard-AllSize zero (route ∷ rest) (size, sizes) =
        (length-modify_at change (w % length route.shards) route.shards ∙ size, sizes)
    on_shard-AllSize (suc j) (route ∷ rest) (size, sizes) = (size, on_shard-AllSize j rest sizes)

    shard_of-on_shard :
        (j i k : ℕ) (stats : List RouteStats)
        → AllSize m stats
        → i < length stats
        → k < m
        → shard_of (modify_at (on_route change w) j stats) i k
          ≡ (if i == j && k == (w % m) then change (shard_of stats i k) else shard_of stats i k)
    unfolding modify_at on_route shard_of
    shard_of-on_shard j i k [] sizes inside part = absurd (omega arith)
    shard_of-on_shard zero zero k (route ∷ rest) (size, sizes) inside part =
        let changed =
          get_or-modify_at change (w % length route.shards) k route.shards
            (omega (arith, size, part)) in
        ground (arith, changed, size)
    shard_of-on_shard zero (suc i) k (route ∷ rest) (size, sizes) inside part = ground arith
    shard_of-on_shard (suc j) zero k (route ∷ rest) (size, sizes) inside part = ground arith
    shard_of-on_shard (suc j) (suc i) k (route ∷ rest) (size, sizes) inside part =
        let later = shard_of-on_shard j i k rest sizes (omega (arith, inside)) part in
        ground (arith, later)

    module _ (d : RouteShard) (adds : Adds change d) where
      on_shard-Same :
          (j i k : ℕ) (stats : List RouteStats) (c : RouteShard)
          → AllSize m stats
          → i < length stats
          → k < m
          → Same (shard_of stats i k) c
          → Same
              (shard_of (modify_at (on_route change w) j stats) i k)
              (plus (if i == j && k == (w % m) then d else empty_shard) c)
      on_shard-Same j i k stats c sizes inside part same =
          let e = shard_of-on_shard j i k stats sizes inside part in
          elim (Bool-cases (i == j && k == (w % m))) [
            | inl b ↦ rw e (
                rw b (
                  Same-trans (change (shard_of stats i k)) (plus d (shard_of stats i k)) (plus d c)
                    (adds (shard_of stats i k)) (Same-plus d (shard_of stats i k) c same)))
            | inr b ↦
                rw e
                  (rw b (Same-trans (shard_of stats i k) c (plus empty_shard c) same (Same-zero c)))
          ]

  record_event-AllSize :
      (e : Event) (stats : List RouteStats) → AllSize m stats → AllSize m (record_event e stats)
  unfolding record_event on_shard
  record_event-AllSize (Event.selected j w) stats h = on_shard-AllSize record_selection w j stats h
  record_event-AllSize (Event.begun j w) stats h = on_shard-AllSize record_total w j stats h
  record_event-AllSize (Event.ended ok j w) stats h =
      on_shard-AllSize (record_outcome ok) w j stats h

  record_all-AllSize :
      (history : List Event) (stats : List RouteStats)
      → AllSize m stats
      → AllSize m (record_all history stats)
  unfolding record_all
  record_all-AllSize [] stats h = h
  record_all-AllSize (e ∷ earlier) stats h =
      record_event-AllSize e (record_all earlier stats) (record_all-AllSize earlier stats h)

  record_event-Same :
      (e : Event) (i k : ℕ) (stats : List RouteStats) (c : RouteShard)
      → AllSize m stats
      → i < length stats
      → k < m
      → Same (shard_of stats i k) c
      → Same (shard_of (record_event e stats) i k) (plus (count_part m i k e) c)
  unfolding record_event on_shard
  record_event-Same (Event.selected j w) i k stats c =
      on_shard-Same record_selection w one_selection record_selection-Adds j i k stats c
  record_event-Same (Event.begun j w) i k stats c =
      on_shard-Same record_total w one_total record_total-Adds j i k stats c
  record_event-Same (Event.ended ok j w) i k stats c =
      on_shard-Same (record_outcome ok) w (one_outcome ok) (record_outcome-Adds ok) j i k stats c

  record_all-Same :
      (history : List Event) (i k : ℕ) (stats : List RouteStats)
      → AllSize m stats
      → i < length stats
      → k < m
      → Same (shard_of stats i k) empty_shard
      → Same (shard_of (record_all history stats) i k) (count_parts m i k history)
  unfolding record_all count_parts
  record_all-Same [] i k stats sizes inside part new = new
  record_all-Same (e ∷ earlier) i k stats sizes inside part new =
      record_event-Same e i k (record_all earlier stats) (count_parts m i k earlier)
        (record_all-AllSize earlier stats sizes) (rw (length-record_all earlier stats) inside) part
        (record_all-Same earlier i k stats sizes inside part new)

get_or-replicate : (n k : ℕ) → get_or (replicate n empty_shard) k empty_shard ≡ empty_shard
get_or-replicate zero k = refl
get_or-replicate (suc n) zero = refl
get_or-replicate (suc n) (suc k) = get_or-replicate n k

pub init-AllSize :
    (virtual_users : ℤ) (descriptors : List BranchRouteDescriptor)
    → AllSize (shard_count virtual_users) (init_branch_routes virtual_users descriptors)
unfolding init_branch_routes new_route_stats
init-AllSize virtual_users [] = _
init-AllSize virtual_users (x ∷ rest) =
    (length-replicate (shard_count virtual_users) empty_shard, init-AllSize virtual_users rest)

shard_of-init :
    (virtual_users : ℤ) (descriptors : List BranchRouteDescriptor) (i k : ℕ)
    → shard_of (init_branch_routes virtual_users descriptors) i k ≡ empty_shard
unfolding init_branch_routes new_route_stats shard_of
shard_of-init virtual_users [] i k = refl
shard_of-init virtual_users (x ∷ rest) zero k = get_or-replicate (shard_count virtual_users) k
shard_of-init virtual_users (x ∷ rest) (suc i) k = shard_of-init virtual_users rest i k

-- A shard holds the words of what was added to it.
pub shard_of-Same :
    (virtual_users : ℤ) (descriptors : List BranchRouteDescriptor) (history : List Event) (i k : ℕ)
    → i < length (init_branch_routes virtual_users descriptors)
    → k < shard_count virtual_users
    → Same
        (shard_of (record_all history (init_branch_routes virtual_users descriptors)) i k)
        (count_parts (shard_count virtual_users) i k history)
shard_of-Same virtual_users descriptors history i k inside part =
    let start = init_branch_routes virtual_users descriptors in
    record_all-Same (shard_count virtual_users) history i k start
      (init-AllSize virtual_users descriptors) inside part
      (rw (shard_of-init virtual_users descriptors i k) (Same-refl empty_shard))
