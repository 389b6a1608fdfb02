-- ===== src/Aggregate/Grows.antt =====
-- internal/distributed/aggregate.go: the snapshots that `validateMonotonicSnapshot` lets follow another.
use flow_routine.Prelude.{
  ℕ, zero, suc, ◌≤◌, ◌<◌, ◌≡◌, refl, inl, inr, Bool, true, false, ◌&&◌, List, [], ◌∷◌, arith, leb,
  ◌==◌, leb→le, ==_iff, Bool-cases, length,
}
use flow_routine.Prelude.Result.{ok, guard-ok, guard}
use flow_routine.BranchStats.{BranchRouteSnapshot}
use flow_routine.Aggregate.{
  RequestStepSnapshot, SnapshotResponse, AggregateError, all_below, metrics_backwards,
  histogram_backwards, statuses_backwards, steps_changed_shape, step_backwards,
  branches_changed_shape, branch_backwards,
}
use flow_routine.Aggregate.Statuses.{
  StatusesFollow, unchanged, followed, StatusesFollow-trans, statuses_monotonic_lem,
}
use flow_routine.Aggregate.Monotonic.{
  status_map, statuses_monotonic, at_most, snapshot_counters, step_counters, branch_counters,
  same_text, branch_snapshot_monotonic, step_snapshot_monotonic, steps_monotonic,
  branches_monotonic, validate_monotonic_snapshot,
}

-- Each counter is at most the one at its place.
abbrev pub AtMost : List ℕ → List ℕ → Type 0
AtMost [] current = Unit {0}
AtMost (p ∷ previous) [] = ⊥
AtMost (p ∷ previous) (c ∷ current) = (p ≤ c) × AtMost previous current

pub at_most_lem :
    (previous current : List ℕ) → at_most previous current ≡ true → AtMost previous current
unfolding at_most
at_most_lem [] current h = _
at_most_lem (p ∷ previous) [] h = cc
at_most_lem (p ∷ previous) (c ∷ current) h =
    (ground (arith, h), at_most_lem previous current (ground (arith, h)))

AtMost-refl : (xs : List ℕ) → AtMost xs xs
AtMost-refl [] = _
AtMost-refl (x ∷ xs) = (omega arith, AtMost-refl xs)

AtMost-trans : (xs ys zs : List ℕ) → AtMost xs ys → AtMost ys zs → AtMost xs zs
AtMost-trans [] ys zs p q = _
AtMost-trans (x ∷ xs) [] zs p q = absurd p
AtMost-trans (x ∷ xs) (y ∷ ys) [] p q = absurd q
AtMost-trans (x ∷ xs) (y ∷ ys) (z ∷ zs) (p, ps) (q, qs) =
    (omega (arith, p, q), AtMost-trans xs ys zs ps qs)

pub all_below_lem :
    (n : ℕ) (test : ℕ → Bool) → all_below n test ≡ true → (i : ℕ) → i < n → test i ≡ true
unfolding all_below
all_below_lem zero test h i inside = absurd (omega (arith, inside))
all_below_lem (suc n) test h i inside = elim (Bool-cases (i == n)) [
  | inl e ↦ let same : i ≡ n = (==_iff i n).0 e in rw same (ground (arith, h))
  | inr e ↦ all_below_lem n test (ground (arith, h)) i (ground (arith, inside, e))
]

all_leb_lem :
    (n : ℕ) (p c : ℕ → ℕ) → all_below n (λ i. leb (p i) (c i)) ≡ true → (i : ℕ) → i < n → p i ≤ c i
all_leb_lem n p c h i inside =
    leb→le (p i) (c i) (all_below_lem n (λ j. leb (p j) (c j)) h i inside)

last_parts :
    (a b c d e : Bool) → a && b && c && d && e ≡ true → (c ≡ true) × (d ≡ true) × (e ≡ true)
last_parts a b c d e h = (ground (arith, h), ground (arith, h), ground (arith, h))

pub all_parts : (a b c n : ℕ) → leb a n && leb b n && leb c n ≡ true → (a ≤ n) × (b ≤ n) × (c ≤ n)
all_parts a b c n h = (ground (arith, h), ground (arith, h), ground (arith, h))

both : (a b : Bool) → a && b ≡ true → (a ≡ true) × (b ≡ true)
both true b h = (refl, h)
both false b h = cc

-- Lists of one length that a relation holds along.
abbrev pub Along : {A : Type 0} → (A → A → Type 0) → List A → List A → Type 0
Along R [] [] = Unit {0}
Along R [] (y ∷ ys) = ⊥
Along R (x ∷ xs) [] = ⊥
Along R (x ∷ xs) (y ∷ ys) = R x y × Along R xs ys

module _ {A : Type 0} (R : A → A → Type 0) where
  pub Along-refl : ((x : A) → R x x) → (xs : List A) → Along R xs xs
  Along-refl same [] = _
  Along-refl same (x ∷ xs) = (same x, Along-refl same xs)

  pub Along-trans :
      ((x y z : A) → R x y → R y z → R x z)
      → (xs ys zs : List A) → Along R xs ys
      → Along R ys zs
      → Along R xs zs
  Along-trans chain [] [] zs p q = q
  Along-trans chain [] (y ∷ ys) zs p q = absurd p
  Along-trans chain (x ∷ xs) [] zs p q = absurd p
  Along-trans chain (x ∷ xs) (y ∷ ys) [] p q = absurd q
  Along-trans chain (x ∷ xs) (y ∷ ys) (z ∷ zs) (p, ps) (q, qs) =
      (chain x y z p q, Along-trans chain xs ys zs ps qs)

abbrev pub StepGrows : RequestStepSnapshot → RequestStepSnapshot → Type 0
StepGrows p c =
    AtMost (step_counters p) (step_counters c)
    × ((i : ℕ) → i < 1024 → p.latency_buckets i ≤ c.latency_buckets i)
    × StatusesFollow p.status_codes c.status_codes

abbrev pub BranchGrows : BranchRouteSnapshot → BranchRouteSnapshot → Type 0
BranchGrows p c = AtMost (branch_counters p) (branch_counters c)

-- No counter of the second snapshot is less than in the first, and the status codes of each step
-- follow from those of the first.
pub record Grows (p c : SnapshotResponse) : Type 0 where
  pub counters : AtMost (snapshot_counters p.snapshot) (snapshot_counters c.snapshot)
  pub buckets : (i : ℕ) → i < 1024 → p.snapshot.latency_buckets i ≤ c.snapshot.latency_buckets i
  pub statuses : (i : ℕ) → i < 600 → p.snapshot.status_codes i ≤ c.snapshot.status_codes i
  pub steps : Along StepGrows p.request_steps c.request_steps
  pub branches : Along BranchGrows p.branch_routes c.branch_routes

step_snapshot_monotonic_lem :
    (p c : RequestStepSnapshot) → step_snapshot_monotonic p c ≡ true → StepGrows p c
unfolding step_snapshot_monotonic
step_snapshot_monotonic_lem p c h =
    let (counters, buckets, statuses) =
      last_parts (same_text p.id c.id) (same_text p.name c.name)
        (at_most (step_counters p) (step_counters c))
        (all_below 1024 (λ i. leb (p.latency_buckets i) (c.latency_buckets i)))
        (statuses_monotonic (status_map p.status_codes []) c.status_codes) h in
    (
      at_most_lem (step_counters p) (step_counters c) counters,
      all_leb_lem 1024 p.latency_buckets c.latency_buckets buckets,
      followed unchanged
          (statuses_monotonic_lem (status_map p.status_codes []) c.status_codes statuses),
    )

steps_monotonic_lem :
    (previous current : List RequestStepSnapshot)
    → length previous ≡ length current
    → steps_monotonic previous current ≡ true
    → Along StepGrows previous current
unfolding steps_monotonic
steps_monotonic_lem [] [] size h = _
steps_monotonic_lem [] (c ∷ current) size h = absurd (omega (arith, size))
steps_monotonic_lem (p ∷ previous) [] size h = absurd (omega (arith, size))
steps_monotonic_lem (p ∷ previous) (c ∷ current) size h =
    let (here, later) = both (step_snapshot_monotonic p c) (steps_monotonic previous current) h in
    (
      step_snapshot_monotonic_lem p c here,
      steps_monotonic_lem previous current (omega (arith, size)) later,
    )

branches_monotonic_lem :
    (previous current : List BranchRouteSnapshot)
    → length previous ≡ length current
    → branches_monotonic previous current ≡ true
    → Along BranchGrows previous current
unfolding branches_monotonic branch_snapshot_monotonic
branches_monotonic_lem [] [] size h = _
branches_monotonic_lem [] (c ∷ current) size h = absurd (omega (arith, size))
branches_monotonic_lem (p ∷ previous) [] size h = absurd (omega (arith, size))
branches_monotonic_lem (p ∷ previous) (c ∷ current) size h = (
  at_most_lem (branch_counters p) (branch_counters c) (ground (arith, h)),
  branches_monotonic_lem previous current (omega (arith, size)) (ground (arith, h)),
)

last_guard : (test : Bool) (e : AggregateError) → guard test e ≡ ok tt → test ≡ true
last_guard true e h = refl
last_guard false e h = cc

pub validate_monotonic_snapshot-Grows :
    (previous current : SnapshotResponse)
    → validate_monotonic_snapshot previous current ≡ ok tt
    → Grows previous current
unfolding validate_monotonic_snapshot
validate_monotonic_snapshot-Grows previous current h =
    let p = previous.snapshot in
    let c = current.snapshot in
    let (counters, h1) =
      guard-ok (at_most (snapshot_counters p) (snapshot_counters c)) metrics_backwards _ h in
    let (buckets, h2) =
      guard-ok (all_below 1024 (λ i. leb (p.latency_buckets i) (c.latency_buckets i)))
        histogram_backwards _ h1 in
    let (statuses, h3) =
      guard-ok (all_below 600 (λ i. leb (p.status_codes i) (c.status_codes i))) statuses_backwards _
        h2 in
    let (step_shape, h4) =
      guard-ok (length previous.request_steps == length current.request_steps) steps_changed_shape _
        h3 in
    let (steps, h5) =
      guard-ok (steps_monotonic previous.request_steps current.request_steps) step_backwards _ h4 in
    let (branch_shape, h6) =
      guard-ok (length previous.branch_routes == length current.branch_routes)
        branches_changed_shape _ h5 in
    record {
      counters = at_most_lem (snapshot_counters p) (snapshot_counters c) counters;
      buckets = all_leb_lem 1024 p.latency_buckets c.latency_buckets buckets;
      statuses = all_leb_lem 600 p.status_codes c.status_codes statuses;
      steps =
          steps_monotonic_lem previous.request_steps current.request_steps
            ((==_iff (length previous.request_steps) (length current.request_steps)).0 step_shape)
            steps;
      branches =
          branches_monotonic_lem previous.branch_routes current.branch_routes
            ((==_iff (length previous.branch_routes) (length current.branch_routes)).0 branch_shape)
            (last_guard (branches_monotonic previous.branch_routes current.branch_routes)
              branch_backwards h6);
    }

StepGrows-refl : (s : RequestStepSnapshot) → StepGrows s s
StepGrows-refl s = (AtMost-refl (step_counters s), λ i inside. omega arith, unchanged)

StepGrows-trans : (p c n : RequestStepSnapshot) → StepGrows p c → StepGrows c n → StepGrows p n
StepGrows-trans p c n (a, b, f) (a', b', f') = (
  AtMost-trans (step_counters p) (step_counters c) (step_counters n) a a',
  λ i inside. omega (arith, b i inside, b' i inside),
  StatusesFollow-trans f f',
)

pub Grows-refl : (r : SnapshotResponse) → Grows r r
Grows-refl r = record {
  counters = AtMost-refl (snapshot_counters r.snapshot);
  buckets = λ i inside. omega arith;
  statuses = λ i inside. omega arith;
  steps = Along-refl StepGrows StepGrows-refl r.request_steps;
  branches = Along-refl BranchGrows (λ b. AtMost-refl (branch_counters b)) r.branch_routes;
}

pub Grows-trans : (p c n : SnapshotResponse) → Grows p c → Grows c n → Grows p n
Grows-trans p c n first later = record {
  counters =
      AtMost-trans (snapshot_counters p.snapshot) (snapshot_counters c.snapshot)
        (snapshot_counters n.snapshot) first.counters later.counters;
  buckets = λ i inside. omega (arith, first.buckets i inside, later.buckets i inside);
  statuses = λ i inside. omega (arith, first.statuses i inside, later.statuses i inside);
  steps =
      Along-trans StepGrows StepGrows-trans p.request_steps c.request_steps n.request_steps
        first.steps later.steps;
  branches =
      Along-trans BranchGrows
        (λ x y z. AtMost-trans (branch_counters x) (branch_counters y) (branch_counters z))
        p.branch_routes c.branch_routes n.branch_routes first.branches later.branches;
}
