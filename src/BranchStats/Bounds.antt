-- ===== src/BranchStats/Bounds.antt =====
-- The parts of a route make up what was counted of it.
use flow_routine.Prelude.{
  ℕ, zero, suc, ◌%◌, ◌≤◌, ◌<◌, ◌≡◌, refl, Bool, ◌&&◌, List, [], ◌∷◌, arith, ◌==◌, ltb, lt→ltb,
  if◌then◌else◌,
}
use flow_routine.BranchStats.{RouteShard, empty_shard}
use flow_routine.BranchStats.Sums.{plus, one_selection, one_total, one_outcome}
use flow_routine.BranchStats.Counted.{Event, count_event, count_all}
use flow_routine.BranchStats.Snapshots.{count_part, count_parts}

-- Each number of the first is at most that of the second.
pub record Le (a b : RouteShard) : Type 0 where
  pub selections : a.selections ≤ b.selections
  pub total : a.total ≤ b.total
  pub success : a.success ≤ b.success
  pub failed : a.failed ≤ b.failed

pub Le-refl : (a : RouteShard) → Le a a
Le-refl a = record {
  selections = omega arith;
  total = omega arith;
  success = omega arith;
  failed = omega arith;
}

pub Le-trans : (a b c : RouteShard) → Le a b → Le b c → Le a c
Le-trans a b c p q = record {
  selections = omega (arith, p.selections, q.selections);
  total = omega (arith, p.total, q.total);
  success = omega (arith, p.success, q.success);
  failed = omega (arith, p.failed, q.failed);
}

Le-plus : (a b c d : RouteShard) → Le a b → Le c d → Le (plus a c) (plus b d)
Le-plus a b c d p q = record {
  selections = omega (arith, p.selections, q.selections);
  total = omega (arith, p.total, q.total);
  success = omega (arith, p.success, q.success);
  failed = omega (arith, p.failed, q.failed);
}

pub Le-raised : (a b : RouteShard) → Le b (plus a b)
Le-raised a b = record {
  selections = omega arith;
  total = omega arith;
  success = omega arith;
  failed = omega arith;
}

abbrev pub sum_parts : (ℕ → RouteShard) → ℕ → RouteShard
sum_parts f zero = empty_shard
sum_parts f (suc k) = plus (sum_parts f k) (f k)

pub sum_parts-Le :
    (f g : ℕ → RouteShard) (n : ℕ)
    → ((k : ℕ) → k < n → Le (f k) (g k))
    → Le (sum_parts f n) (sum_parts g n)
sum_parts-Le f g zero h = Le-refl empty_shard
sum_parts-Le f g (suc n) h =
    Le-plus (sum_parts f n) (sum_parts g n) (f n) (g n)
      (sum_parts-Le f g n (λ k inside. h k (omega (arith, inside)))) (h n (omega arith))

-- The same numbers.
pub record Equal (a b : RouteShard) : Type 0 where
  pub selections : a.selections ≡ b.selections
  pub total : a.total ≡ b.total
  pub success : a.success ≡ b.success
  pub failed : a.failed ≡ b.failed

sum_parts-plus :
    (f g : ℕ → RouteShard) (n : ℕ)
    → Equal (sum_parts (λ k. plus (f k) (g k)) n) (plus (sum_parts f n) (sum_parts g n))
sum_parts-plus f g zero = record { selections = refl; total = refl; success = refl; failed = refl }
sum_parts-plus f g (suc n) =
    let e = sum_parts-plus f g n in
    record {
      selections = omega (arith, e.selections);
      total = omega (arith, e.total);
      success = omega (arith, e.success);
      failed = omega (arith, e.failed);
    }

abbrev picked : Bool → ℕ → RouteShard → ℕ → RouteShard
picked b x d k = if b && k == x then d else empty_shard

-- Only the part x counts.
sum_parts-picked :
    (b : Bool) (x : ℕ) (d : RouteShard) (n : ℕ)
    → Equal (sum_parts (picked b x d) n) (if b && ltb x n then d else empty_shard)
sum_parts-picked b x d zero = record {
  selections = ground arith;
  total = ground arith;
  success = ground arith;
  failed = ground arith;
}
sum_parts-picked b x d (suc n) =
    let e = sum_parts-picked b x d n in
    record {
      selections = ground (arith, e.selections);
      total = ground (arith, e.total);
      success = ground (arith, e.success);
      failed = ground (arith, e.failed);
    }

sum_parts-one :
    (b : Bool) (x : ℕ) (d : RouteShard) (n : ℕ)
    → x < n
    → Equal (sum_parts (picked b x d) n) (if b then d else empty_shard)
sum_parts-one b x d n inside =
    let e = sum_parts-picked b x d n in
    let below = lt→ltb x n inside in
    record {
      selections = ground (arith, e.selections, below);
      total = ground (arith, e.total, below);
      success = ground (arith, e.success, below);
      failed = ground (arith, e.failed, below);
    }

parts_of-event :
    (m i : ℕ) (e : Event) → 0 < m → Equal (sum_parts (λ k. count_part m i k e) m) (count_event i e)
unfolding count_event
parts_of-event m i (Event.selected j w) positive =
    sum_parts-one (i == j) (w % m) one_selection m (omega (arith, positive))
parts_of-event m i (Event.begun j w) positive =
    sum_parts-one (i == j) (w % m) one_total m (omega (arith, positive))
parts_of-event m i (Event.ended ok j w) positive =
    sum_parts-one (i == j) (w % m) (one_outcome ok) m (omega (arith, positive))

sum_parts-none : (n : ℕ) → Equal (sum_parts (λ k. empty_shard) n) empty_shard
sum_parts-none zero = record { selections = refl; total = refl; success = refl; failed = refl }
sum_parts-none (suc n) =
    let e = sum_parts-none n in
    record {
      selections = omega (arith, e.selections);
      total = omega (arith, e.total);
      success = omega (arith, e.success);
      failed = omega (arith, e.failed);
    }

-- The parts of a route make up what was counted of it.
pub parts_of-all :
    (m i : ℕ) (h : List Event)
    → 0 < m
    → Equal (sum_parts (λ k. count_parts m i k h) m) (count_all i h)
unfolding count_parts count_all
parts_of-all m i [] positive = sum_parts-none m
parts_of-all m i (e ∷ earlier) positive =
    let split = sum_parts-plus (λ k. count_part m i k e) (λ k. count_parts m i k earlier) m in
    let here = parts_of-event m i e positive in
    let later = parts_of-all m i earlier positive in
    record {
      selections = omega (arith, split.selections, here.selections, later.selections);
      total = omega (arith, split.total, here.total, later.total);
      success = omega (arith, split.success, here.success, later.success);
      failed = omega (arith, split.failed, here.failed, later.failed);
    }
