-- ===== src/BranchStats/Loads.antt =====
-- The numbers of a snapshot that is read while workers record.
use flow_routine.Prelude.{
  ℕ, zero, suc, ◌+◌, ◌*◌, ◌≤◌, ◌<◌, ◌≡◌, refl, inl, inr, List, [], ◌∷◌, ◌++◌, arith, ◌==◌,
  Bool-cases, ==_iff, length, get_elem?, some,
}
use flow_routine.Prelude.Int.{ℤ}
use flow_routine.BranchStats.{
  RouteShard, RouteStats, BranchRouteDescriptor, BranchRouteSnapshot, word, shard_count,
  init_branch_routes,
}
use flow_routine.BranchStats.Counted.{Event, record_all, count_all}
use flow_routine.BranchStats.Snapshots.{
  load_shards, load_route, load_routes, load_count, history_at, count_part, count_parts,
}
use flow_routine.BranchStats.Parts.{AllSize, shard_of-Same}
use flow_routine.BranchStats.Bounds.{
  Le, Le-refl, Le-trans, Le-raised, sum_parts, sum_parts-Le, parts_of-all,
}

count_parts-append :
    (m i k : ℕ) (added h : List Event) → Le (count_parts m i k h) (count_parts m i k (added ++ h))
unfolding count_parts
count_parts-append m i k [] h = Le-refl (count_parts m i k h)
count_parts-append m i k (e ∷ added) h =
    let later = count_parts-append m i k added h in
    let here = Le-raised (count_part m i k e) (count_parts m i k (added ++ h)) in
    Le-trans (count_parts m i k h) (count_parts m i k (added ++ h))
      (count_parts m i k (e ∷ added ++ h)) later here

module _ (before : List Event) (between : ℕ → List Event) (m i k : ℕ) where
  abbrev counted : ℕ → RouteShard
  counted n = count_parts m i k (history_at before between n)

  counted-Le : (n last : ℕ) → n ≤ last → Le (counted n) (counted last)
  unfolding history_at
  counted-Le n zero h = let e : n ≡ 0 = omega (arith, h) in rw e (Le-refl (counted 0))
  counted-Le n (suc last) h = elim (Bool-cases (n == suc last)) [
    | inl e ↦
        let same : n ≡ suc last = (==_iff n (suc last)).0 e in
        rw same (Le-refl (counted (suc last)))
    | inr e ↦
        Le-trans (counted n) (counted last) (counted (suc last))
          (counted-Le n last (ground (arith, h, e)))
          (count_parts-append m i k (between (suc last)) (history_at before between last))
  ]

  counted-start : (n : ℕ) → Le (count_parts m i k before) (counted n)
  unfolding history_at
  counted-start zero = count_parts-append m i k (between 0) before
  counted-start (suc n) =
      Le-trans (count_parts m i k before) (counted n) (counted (suc n)) (counted-start n)
        (count_parts-append m i k (between (suc n)) (history_at before between n))

-- A snapshot has the 64-bit words of these numbers.
pub record Words (s : BranchRouteSnapshot) (n : RouteShard) : Type 0 where
  pub selections : s.selections ≡ word n.selections
  pub total : s.total ≡ word n.total
  pub success : s.success ≡ word n.success
  pub failed : s.failed ≡ word n.failed

record SumWords (a n : RouteShard) : Type 0 where
  selections : a.selections ≡ word n.selections
  total : a.total ≡ word n.total
  success : a.success ≡ word n.success
  failed : a.failed ≡ word n.failed

module _ (virtual_users : ℤ) (descriptors : List BranchRouteDescriptor) (before : List Event)
    (between : ℕ → List Event) where
  abbrev start : List RouteStats
  start = init_branch_routes virtual_users descriptors

  abbrev m : ℕ
  m = shard_count virtual_users

  abbrev states : ℕ → List RouteStats
  states n = record_all (history_at before between n) start

  module _ (i first : ℕ) (inside : i < length start) where
    abbrev at : ℕ → ℕ → RouteShard
    at k n = count_parts m i k (history_at before between n)

    -- What the four loads of a shard find.
    abbrev loaded : ℕ → RouteShard
    loaded k =
        let n = first + 4 * k in
        record {
          selections = (at k n).selections;
          total = (at k (n + 1)).total;
          success = (at k (n + 2)).success;
          failed = (at k (n + 3)).failed;
        }

    load_shards-SumWords :
        (k : ℕ) → k ≤ m → SumWords (load_shards states i first k) (sum_parts loaded k)
    unfolding load_shards
    load_shards-SumWords zero h = record {
      selections = omega arith;
      total = omega arith;
      success = omega arith;
      failed = omega arith;
    }
    load_shards-SumWords (suc k) h =
        let e = load_shards-SumWords k (omega (arith, h)) in
        let n = first + 4 * k in
        let same = λ (t : ℕ).
          shard_of-Same virtual_users descriptors (history_at before between t) i k inside
            (omega (arith, h)) in
        record {
          selections = omega (arith, e.selections, (same n).selections);
          total = omega (arith, e.total, (same (n + 1)).total);
          success = omega (arith, e.success, (same (n + 2)).success);
          failed = omega (arith, e.failed, (same (n + 3)).failed);
        }

    loaded-above : (k : ℕ) → Le (count_parts m i k before) (loaded k)
    loaded-above k =
        let n = first + 4 * k in
        let start = counted-start before between m i k in
        record {
          selections = (start n).selections;
          total = (start (n + 1)).total;
          success = (start (n + 2)).success;
          failed = (start (n + 3)).failed;
        }

    module _ (last : ℕ) (enough : first + 4 * m ≤ last + 1) where
      loaded-below : (k : ℕ) → k < m → Le (loaded k) (at k last)
      loaded-below k part =
          let n = first + 4 * k in
          let later = λ (t : ℕ) (h : t ≤ last). counted-Le before between m i k t last h in
          record {
            selections = (later n (omega (arith, part, enough))).selections;
            total = (later (n + 1) (omega (arith, part, enough))).total;
            success = (later (n + 2) (omega (arith, part, enough))).success;
            failed = (later (n + 3) (omega (arith, part, enough))).failed;
          }

      -- The numbers that a snapshot of the route has lie between those before it and those after it.
      load_route-Between :
          (route : RouteStats)
          → length route.shards ≡ m
          → 0 < m
          → (n : RouteShard) × Le (count_all i before) n
            × Le n (count_all i (history_at before between last))
            × Words (load_route states route i first) n
      unfolding load_route
      load_route-Between route size positive =
          let n = sum_parts loaded m in
          let above =
            sum_parts-Le (λ k. count_parts m i k before) loaded m (λ k part. loaded-above k) in
          let low = parts_of-all m i before positive in
          let below = sum_parts-Le loaded (λ k. at k last) m loaded-below in
          let high = parts_of-all m i (history_at before between last) positive in
          let e = load_shards-SumWords m (omega arith) in
          (
            n,
            record {
              selections = omega (arith, above.selections, low.selections);
              total = omega (arith, above.total, low.total);
              success = omega (arith, above.success, low.success);
              failed = omega (arith, above.failed, low.failed);
            },
            record {
              selections = omega (arith, below.selections, high.selections);
              total = omega (arith, below.total, high.total);
              success = omega (arith, below.success, high.success);
              failed = omega (arith, below.failed, high.failed);
            },
            record {
              selections = rw size e.selections;
              total = rw size e.total;
              success = rw size e.success;
              failed = rw size e.failed;
            },
          )

  module _ (last : ℕ) (positive : 0 < m) where
    pub load_routes-Between :
        (stats : List RouteStats) (o first : ℕ)
        → AllSize m stats
        → o + length stats ≤ length start
        → first + load_count stats ≤ last + 1
        → (i : ℕ) → i < length stats
        → (s : BranchRouteSnapshot) × (get_elem? (load_routes states stats o first) i ≡ some s)
          × (n : RouteShard) × Le (count_all (i + o) before) n
          × Le n (count_all (i + o) (history_at before between last))
          × Words s n
    unfolding load_routes load_count
    load_routes-Between [] o first sizes inside enough i h = absurd (omega (arith, h))
    load_routes-Between (route ∷ rest) o first (size, sizes) inside enough zero h =
        let e : 0 + o ≡ o = omega arith in
        let (n, low, high, words) =
          load_route-Between o first (omega (arith, inside)) last (omega (arith, enough, size))
            route size positive in
        (load_route states route o first, refl, n, rw e low, rw e high, words)
    load_routes-Between (route ∷ rest) o first (size, sizes) inside enough (suc i) h =
        let e : suc i + o ≡ i + (o + 1) = omega arith in
        rw e (
          load_routes-Between rest (o + 1) (first + 4 * length route.shards) sizes
            (omega (arith, inside)) (omega (arith, enough)) i (omega (arith, h)))
