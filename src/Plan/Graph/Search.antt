-- ===== src/Plan/Graph/Search.antt =====
-- The breadth-first searches visit exactly the nodes that can be reached.
use flow_routine.Prelude.{
  ℕ, zero, suc, ◌+◌, ◌≤◌, ◌<◌, ◌≡◌, refl, sym, ◌∙◌, subst, ◌↔◌, ◌⊎◌, inl, inr, Bool, true, false,
  some, List, [], ◌∷◌, arith, length, get_or, set, replicate, length-set, length-replicate,
}
use flow_routine.Plan.Graph.{
  targets_of, visit_targets, search_loop, search_from, all_true, validate_execution_reachability,
}
use flow_routine.Plan.Graph.Paths.{In, Edge, Reach, here, step, InRange}
use flow_routine.Plan.Graph.Visit.{
  Marked, unmarked, AllBelow, Visited, visit_targets-Visited, get_or-mark,
}

pub AllBelow-of : (k : ℕ) (ts : List ℕ) → ((b : ℕ) → In b ts → b < k) → AllBelow k ts
AllBelow-of k [] h = tt
AllBelow-of k (t ∷ ts) h = (h t (inl refl), AllBelow-of k ts (λ b i. h b (inr i)))

module _ (adjacency : List (List ℕ)) (entry : ℕ) where
  -- Between two rounds: what is marked can be reached, and what is marked but not queued is done.
  record Inv (v : List Bool) (q : List ℕ) : Type 0 where
    size : length v ≡ length adjacency
    sound : (n : ℕ) → Marked v n → Reach adjacency entry n
    queued : (n : ℕ) → In n q → Marked v n
    done : (n : ℕ) → Marked v n → In n q ⊎ ((t : ℕ) → Edge adjacency n t → Marked v t)

  -- At the end nothing is queued.
  record Found (v v' : List Bool) : Type 0 where
    size : length v' ≡ length adjacency
    kept : (n : ℕ) → Marked v n → Marked v' n
    sound : (n : ℕ) → Marked v' n → Reach adjacency entry n
    closed : (n : ℕ) → Marked v' n → (t : ℕ) → Edge adjacency n t → Marked v' t

  round-Inv :
      {v v' : List Bool} {node : ℕ} {q q' : List ℕ}
      → Inv v (node ∷ q)
      → Visited (targets_of adjacency node) v q v' q'
      → Inv v' q'
  round-Inv {v} {v'} {node} {q} {q'} h r = record {
    size = r.same_length ∙ h.size;
    sound = λ n m. elim (r.only n m) [
      | inl old ↦ h.sound n old
      | inr (i, _) ↦ step (h.sound node (h.queued node (inl refl))) i
    ];
    queued = λ n i. elim (r.from n i) [
      | inl old ↦ r.kept n (h.queued n (inr old))
      | inr i' ↦ r.marked n i'
    ];
    done = λ n m. elim (r.only n m) [
      | inr (_, i) ↦ inl i
      | inl old ↦ elim (h.done n old) [
        | inr all ↦ inr (λ t e. r.kept t (all t e))
        | inl (inr i) ↦ inl (r.queued n i)
        | inl (inl same) ↦
            inr (λ t e. r.marked t (subst (λ k. In t (targets_of adjacency k)) same e))
      ]
    ];
  }

  search_loop-Found :
      InRange adjacency
      → (fuel : ℕ) (v : List Bool) (q : List ℕ) → unmarked v + length q < fuel
      → Inv v q
      → (v' : List Bool) × (search_loop fuel adjacency v q ≡ some v') × Found v v'
  unfolding search_loop
  search_loop-Found range zero v q f h = absurd (omega arith)
  search_loop-Found range (suc fuel) v [] f h = (
    v,
    refl,
    record {
      size = h.size;
      kept = λ n m. m;
      sound = h.sound;
      closed = λ n m. elim (h.done n m) [ inl none_left ↦ absurd none_left | inr all ↦ all ];
    },
  )
  search_loop-Found range (suc fuel) v (node ∷ q) f h =
      let below : AllBelow (length v) (targets_of adjacency node) =
        AllBelow-of (length v) (targets_of adjacency node) (λ b i. rw h.size (range node b i)) in
      let r = visit_targets-Visited (targets_of adjacency node) v q below in
      let next = visit_targets (targets_of adjacency node) v q in
      let (v', e, found) =
        search_loop-Found range fuel next.0 next.1 (omega (arith, r.paid)) (round-Inv h r) in
      (
        v',
        e,
        record {
          size = found.size;
          kept = λ n m. found.kept n (r.kept n m);
          sound = found.sound;
          closed = found.closed;
        },
      )

get_or-replicate : (k n : ℕ) → get_or (replicate k false) n false ≡ false
get_or-replicate zero n = refl
get_or-replicate (suc k) zero = refl
get_or-replicate (suc k) (suc n) = get_or-replicate k n

unmarked-le : (v : List Bool) → unmarked v ≤ length v
unfolding unmarked
unmarked-le [] = omega arith
unmarked-le (b ∷ v) = ground (arith, unmarked-le v)

module _ (adjacency : List (List ℕ)) (entry : ℕ) (range : InRange adjacency)
    (inside : entry < length adjacency) where
  abbrev start_marks : List Bool
  start_marks = set (replicate (length adjacency) false) entry true

  start-size : length start_marks ≡ length adjacency
  start-size =
      length-set (replicate (length adjacency) false) entry true
      ∙ length-replicate (length adjacency) false

  start-entry : Marked start_marks entry
  start-entry = ground (
    arith,
    get_or-mark (replicate (length adjacency) false) entry entry,
    length-replicate (length adjacency) false,
  )

  start-only : (n : ℕ) → Marked start_marks n → n ≡ entry
  start-only n m = ground (
    arith,
    get_or-mark (replicate (length adjacency) false) entry n,
    get_or-replicate (length adjacency) n,
  )

  start-Inv : Inv adjacency entry start_marks (entry ∷ [])
  start-Inv = record {
    size = start-size;
    sound = λ n m. subst (Reach adjacency entry) (sym (start-only n m)) here;
    queued = λ n i. elim i [
      | inl same ↦ subst (Marked start_marks) (sym same) start-entry
      | inr no_more ↦ absurd no_more
    ];
    done = λ n m. inl (inl (start-only n m));
  }

  Reach-Marked :
      {v : List Bool}
      → Found adjacency entry start_marks v
      → {n : ℕ} → Reach adjacency entry n
      → Marked v n
  Reach-Marked found here = found.kept entry start-entry
  Reach-Marked found (step {b} {c} r e) = found.closed b (Reach-Marked found r) c e

  -- The search ends, and marks exactly the nodes that can be reached from its entry.
  pub search_from_correct :
      (v : List Bool) × (search_from entry adjacency ≡ some v)
      × (length v ≡ length adjacency)
      × ((n : ℕ) → Marked v n ↔ Reach adjacency entry n)
  unfolding search_from
  search_from_correct =
      let (v, e, found) =
        search_loop-Found adjacency entry range (length adjacency + 2) start_marks (entry ∷ [])
          (omega (arith, unmarked-le start_marks, start-size)) start-Inv in
      (v, e, found.size, λ n. (found.sound n, Reach-Marked found))

all_true→Marked : (v : List Bool) → all_true v ≡ true → (n : ℕ) → n < length v → Marked v n
unfolding all_true
all_true→Marked [] e n h = absurd (omega arith)
all_true→Marked (b ∷ v) e zero h = ground arith
all_true→Marked (b ∷ v) e (suc n) h = all_true→Marked v (ground arith) n (omega arith)

Marked→all_true : (v : List Bool) → ((n : ℕ) → n < length v → Marked v n) → all_true v ≡ true
unfolding all_true
Marked→all_true [] h = refl
Marked→all_true (b ∷ v) h =
    let rest = Marked→all_true v (λ n k. h (suc n) (omega arith)) in
    let first = h 0 (omega arith) in ground arith

-- `validateExecutionReachability` ends, and returns no error exactly if every step can be reached
-- from the entry.
pub validate_execution_reachability_correct :
    (adjacency : List (List ℕ)) (entry : ℕ)
    → InRange adjacency
    → entry < length adjacency
    → (answer : Bool) × (validate_execution_reachability entry adjacency ≡ some answer)
      × (answer ≡ true ↔ ((n : ℕ) → n < length adjacency → Reach adjacency entry n))
unfolding validate_execution_reachability
validate_execution_reachability_correct adjacency entry range inside =
    let (v, e, size, exact) = search_from_correct adjacency entry range inside in
    (
      all_true v,
      rw e,
      (
        λ t n h. (exact n).0 (all_true→Marked v t n (rw size h)),
        λ all. Marked→all_true v (λ n h. (exact n).1 (all n (rw size at h))),
      ),
    )
