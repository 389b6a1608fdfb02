-- ===== src/Plan/Cycles/Ordered.antt =====
-- internal/engine/execution_plan.go: the rounds and the answer of `executionCycleNode`.
use flow_routine.Prelude.{
  ℕ, zero, suc, ◌+◌, ◌-◌, ◌≤◌, ◌<◌, ◌≡◌, refl, sym, ap, ◌∙◌, subst, ◌↔◌, inl, inr, Bool, true,
  false, Option, none, some, List, [], ◌∷◌, ◌++◌, arith, ◌==◌, if◌then◌else◌, ==_iff, Bool-cases,
  length, get_or, set, replicate, length-set, length-replicate, get_or-set,
}
use flow_routine.Plan.Graph.{targets_of}
use flow_routine.Plan.Graph.Paths.{In, Edge, InRange}
use flow_routine.Plan.Graph.Visit.{Marked, AllBelow, unmarked, unmarked-set}
use flow_routine.Plan.Cycles.{
  count_of, raise_all, zero_nodes, lower_targets, cycle_loop, first_positive, execution_cycle_node,
}
use flow_routine.Plan.Cycles.Counts.{
  bit, occurrences, occurrences-append, open_in, open_in-set, open_in-zero, open_in-positive,
  length-raise_all, raise_all_lem, AllLists, occurrences-zero_nodes, zero_nodes-below,
  first_positive-none, none-first_positive,
}

length-lower_targets : (ts counts q : List ℕ) → length (lower_targets ts counts q).0 ≡ length counts
unfolding lower_targets
length-lower_targets [] counts q = refl
length-lower_targets (t ∷ ts) counts q =
    let left = count_of counts t - 1 in
    length-lower_targets ts (set counts t left) (if left == 0 then q ++ t ∷ [] else q)
    ∙ length-set counts t left

-- A node loses one for each edge, and joins the queue when nothing is left.
lower_targets_lem :
    (ts counts q : List ℕ) (x : ℕ)
    → AllBelow (length counts) ts
    → occurrences x ts ≤ count_of counts x
    → (count_of (lower_targets ts counts q).0 x + occurrences x ts ≡ count_of counts x)
      × (occurrences x (lower_targets ts counts q).1 + bit (count_of counts x == 0)
          ≡ occurrences x q + bit (count_of (lower_targets ts counts q).0 x == 0))
unfolding lower_targets
lower_targets_lem [] counts q x below enough = (omega arith, refl)
lower_targets_lem (t ∷ ts) counts q x (inside, below) enough =
    let left = count_of counts t - 1 in
    let lowered = set counts t left in
    let joined = if left == 0 then q ++ t ∷ [] else q in
    let here : count_of lowered x ≡ (if t == x then left else count_of counts x) =
      get_or-set counts t x left 0 inside in
    let added : occurrences x joined ≡ occurrences x q + (if left == 0 then bit (t == x) else 0) =
      ground (arith, occurrences-append x q (t ∷ [])) in
    let at : t == x ≡ true → count_of counts t ≡ count_of counts x =
      λ e. ap (count_of counts) ((==_iff t x).0 e) in
    let (count_step, queue_step) =
      lower_targets_lem ts lowered joined x (rw (length-set counts t left) below)
        (ground (arith, here, enough, at)) in
    (
      ground (arith, here, enough, at, count_step),
      ground (arith, here, enough, at, queue_step, added, count_step),
    )

AllBelow-join : (n : ℕ) (q : List ℕ) (t : ℕ) → AllBelow n q → t < n → AllBelow n (q ++ t ∷ [])
AllBelow-join n [] t below inside = (inside, _)
AllBelow-join n (x ∷ q) t (first, below) inside = (first, AllBelow-join n q t below inside)

AllBelow-if :
    (n : ℕ) (xs ys : List ℕ) (b : Bool)
    → AllBelow n xs
    → AllBelow n ys
    → AllBelow n (if b then xs else ys)
AllBelow-if n xs ys true p q = p
AllBelow-if n xs ys false p q = q

AllBelow-lower_targets :
    (n : ℕ) (ts counts q : List ℕ)
    → AllBelow n ts
    → AllBelow n q
    → AllBelow n (lower_targets ts counts q).1
unfolding lower_targets
AllBelow-lower_targets n [] counts q ts_below q_below = q_below
AllBelow-lower_targets n (t ∷ ts) counts q (inside, ts_below) q_below =
    let left = count_of counts t - 1 in
    AllBelow-lower_targets n ts (set counts t left) (if left == 0 then q ++ t ∷ [] else q) ts_below
      (AllBelow-if n (q ++ t ∷ []) q (left == 0) (AllBelow-join n q t q_below inside) q_below)

AllBelow-In : (n : ℕ) (xs : List ℕ) → ((x : ℕ) → In x xs → x < n) → AllBelow n xs
AllBelow-In n [] h = _
AllBelow-In n (x ∷ xs) h = (h x (inl refl), AllBelow-In n xs (λ y i. h y (inr i)))

AllLists-Edge :
    (n : ℕ) (adjacency : List (List ℕ))
    → ((a b : ℕ) → Edge adjacency a b → b < n)
    → AllLists n adjacency
AllLists-Edge n [] h = _
AllLists-Edge n (ts ∷ rest) h = (AllBelow-In n ts (h 0), AllLists-Edge n rest (λ a. h (suc a)))

count_of-replicate : (n x : ℕ) → count_of (replicate n 0) x ≡ 0
count_of-replicate zero x = refl
count_of-replicate (suc n) zero = refl
count_of-replicate (suc n) (suc x) = count_of-replicate n x

unmarked-replicate : (n : ℕ) → unmarked (replicate n false) ≡ n
unfolding unmarked
unmarked-replicate zero = refl
unmarked-replicate (suc n) = ap suc (unmarked-replicate n)

get_or-blank : (n m : ℕ) → get_or (replicate n false) m false ≡ false
get_or-blank zero m = refl
get_or-blank (suc n) zero = refl
get_or-blank (suc n) (suc m) = get_or-blank n m

-- Numbers that grow along every edge: the graph has no cycle.
abbrev pub Ordered : List (List ℕ) → Type 0
Ordered adjacency = (rank : ℕ → ℕ) × ((a b : ℕ) → Edge adjacency a b → rank a < rank b)

module _ (adjacency : List (List ℕ)) (range : InRange adjacency) where
  -- The marked nodes are taken away; `rank` numbers them, and `k` is the next number.
  record Peeling (v : List Bool) (counts q : List ℕ) (k : ℕ) (rank : ℕ → ℕ) : Type 0 where
    size : length v ≡ length adjacency
    count_size : length counts ≡ length adjacency
    counted : (x : ℕ) → x < length adjacency → count_of counts x ≡ open_in v adjacency x
    waiting :
        (x : ℕ)
        → x < length adjacency
        → occurrences x q + bit (get_or v x false) ≡ bit (count_of counts x == 0)
    below : AllBelow (length adjacency) q
    ranked : (a b : ℕ) → Marked v b → Edge adjacency a b → rank a < rank b
    low : (b : ℕ) → Marked v b → rank b < k

  -- Nothing unmarked leads to a node without a count.
  peeled :
      (v : List Bool) (counts q : List ℕ) (k : ℕ) (rank : ℕ → ℕ)
      → Peeling v counts q k rank
      → (a b : ℕ) → b < length adjacency
      → count_of counts b ≡ 0
      → Edge adjacency a b
      → Marked v a
  peeled v counts q k rank p a b inside done edge =
      open_in-zero v adjacency b a p.size (omega (arith, p.counted b inside, done)) edge

  module _ (v : List Bool) (counts : List ℕ) (current : ℕ) (q : List ℕ) (k : ℕ) (rank : ℕ → ℕ)
      (p : Peeling v counts (current ∷ q) k rank) where
    inside : current < length adjacency
    inside = p.below.0

    fresh : get_or v current false ≡ false
    fresh = ground (arith, p.waiting current inside)

    count_zero : count_of counts current ≡ 0
    count_zero = ground (arith, p.waiting current inside)

    before : (a : ℕ) → Edge adjacency a current → Marked v a
    before a edge = peeled v counts (current ∷ q) k rank p a current inside count_zero edge

    not_current : (a : ℕ) → Marked v a → (a == current) ≡ false
    not_current a h = elim (Bool-cases (a == current)) [
      | inl e ↦ absurd (let same : a ≡ current = (==_iff a current).0 e in cc (h, same, fresh))
      | inr e ↦ e
    ]

    abbrev next_rank : ℕ → ℕ
    next_rank m = if m == current then k else rank m

    abbrev next : List ℕ × List ℕ
    next = lower_targets (targets_of adjacency current) counts q

    Marked-next :
        (m : ℕ)
        → get_or (set v current true) m false ≡ (if current == m then true else get_or v m false)
    Marked-next m = get_or-set v current m true false (omega (arith, p.size, inside))

    Marked-before : (m : ℕ) → (current == m) ≡ false → Marked (set v current true) m → Marked v m
    Marked-before m differ h = ground (arith, Marked-next m, h, differ)

    next_targets : AllBelow (length counts) (targets_of adjacency current)
    next_targets =
        rw p.count_size
          (AllBelow-In (length adjacency) (targets_of adjacency current) (range current))

    opened :
        (x : ℕ)
        → open_in (set v current true) adjacency x + occurrences x (targets_of adjacency current)
          ≡ open_in v adjacency x
    opened x = open_in-set v adjacency current x p.size (omega (arith, p.size, inside)) fresh

    lowered :
        (x : ℕ)
        → x < length adjacency
        → (count_of next.0 x + occurrences x (targets_of adjacency current) ≡ count_of counts x)
          × (occurrences x next.1 + bit (count_of counts x == 0)
              ≡ occurrences x q + bit (count_of next.0 x == 0))
    lowered x h =
        lower_targets_lem (targets_of adjacency current) counts q x next_targets
          (omega (arith, opened x, p.counted x h))

    next_ranked :
        (a b : ℕ) → Marked (set v current true) b → Edge adjacency a b → next_rank a < next_rank b
    next_ranked a b h edge = elim (Bool-cases (current == b)) [
      | inl at ↦
          let same : current ≡ b = (==_iff current b).0 at in
          let earlier = before a (subst (λ i. Edge adjacency a i) (sym same) edge) in
          ground (arith, same, p.low a earlier, not_current a earlier)
      | inr differ ↦
          let marked = Marked-before b differ h in
          let bound = range a b edge in
          let zero_left : count_of counts b ≡ 0 = ground (arith, p.waiting b bound, marked) in
          let earlier = peeled v counts (current ∷ q) k rank p a b bound zero_left edge in
          ground (arith, p.ranked a b marked edge, not_current a earlier, not_current b marked)
    ]

    next_low : (b : ℕ) → Marked (set v current true) b → next_rank b < k + 1
    next_low b h = elim (Bool-cases (current == b)) [
      | inl at ↦ let same : current ≡ b = (==_iff current b).0 at in ground (arith, same)
      | inr differ ↦
          let marked = Marked-before b differ h in
          ground (arith, p.low b marked, not_current b marked)
    ]

    next-Peeling : Peeling (set v current true) next.0 next.1 (k + 1) next_rank
    next-Peeling = record {
      size = length-set v current true ∙ p.size;
      count_size = length-lower_targets (targets_of adjacency current) counts q ∙ p.count_size;
      counted = λ x h. omega (arith, (lowered x h).0, opened x, p.counted x h);
      waiting = λ x h. ground (arith, (lowered x h).1, Marked-next x, p.waiting x h, fresh);
      below =
          AllBelow-lower_targets (length adjacency) (targets_of adjacency current) counts q
            (AllBelow-In (length adjacency) (targets_of adjacency current) (range current))
            p.below.1;
      ranked = next_ranked;
      low = next_low;
    }

  record Peeled (v : List Bool) (counts : List ℕ) (rank : ℕ → ℕ) : Type 0 where
    number : ℕ
    state : Peeling v counts [] number rank

  -- Each round takes away a node that was not taken away before.
  cycle_loop-Peeled :
      (fuel : ℕ) (v : List Bool) (counts q : List ℕ) (k : ℕ) (rank : ℕ → ℕ)
      → unmarked v < fuel
      → Peeling v counts q k rank
      → (final : List ℕ) × (cycle_loop fuel adjacency counts q ≡ some final)
        × (v' : List Bool) × (rank' : ℕ → ℕ) × Peeled v' final rank'
  unfolding cycle_loop
  cycle_loop-Peeled zero v counts q k rank h p = absurd (omega (arith, h))
  cycle_loop-Peeled (suc fuel) v counts [] k rank h p =
      (counts, refl, v, rank, record { number = k; state = p })
  cycle_loop-Peeled (suc fuel) v counts (current ∷ q) k rank h p =
      let fewer =
        unmarked-set v current (omega (arith, p.size, inside v counts current q k rank p))
          (fresh v counts current q k rank p) in
      let after = next v counts current q k rank p in
      cycle_loop-Peeled fuel (set v current true) after.0 after.1 (k + 1)
        (next_rank v counts current q k rank p) (omega (arith, h, fewer))
        (next-Peeling v counts current q k rank p)

  start_lists : AllLists (length {A = ℕ} (replicate (length adjacency) 0)) adjacency
  start_lists =
      rw (length-replicate {A = ℕ} (length adjacency) 0)
        (AllLists-Edge (length adjacency) adjacency range)

  start-Peeling :
      let counts = raise_all adjacency (replicate (length adjacency) 0) in
      Peeling (replicate (length adjacency) false) counts (zero_nodes 0 counts) 0 (λ m. 0)
  start-Peeling =
      let n = length adjacency in
      let counts = raise_all adjacency (replicate n 0) in
      let size : length counts ≡ n =
        length-raise_all adjacency (replicate n 0) ∙ length-replicate {A = ℕ} n 0 in
      record {
        size = length-replicate n false;
        count_size = size;
        counted = λ x h.
            omega (
              arith,
              raise_all_lem adjacency (replicate n 0) x start_lists,
              count_of-replicate n x,
            );
        waiting = λ x h.
            ground
              (arith, occurrences-zero_nodes 0 counts x (omega (arith, h, size)), get_or-blank n x);
        below =
            AllBelow-In n (zero_nodes 0 counts)
              (λ x i. omega (arith, zero_nodes-below 0 counts x i, size));
        ranked = λ a b h edge. cc (h, get_or-blank n b);
        low = λ b h. cc (h, get_or-blank n b);
      }

  module _ (v : List Bool) (counts : List ℕ) (k : ℕ) (rank : ℕ → ℕ)
      (p : Peeling v counts [] k rank) where
    none-Ordered : first_positive 0 counts ≡ none → Ordered adjacency
    none-Ordered e = (
      rank,
      λ a b edge.
          let bound = range a b edge in
          p.ranked a b (ground (arith, p.waiting b bound, none-first_positive 0 counts e b)) edge,
    )

    -- An order leaves no node with a count, by induction on a bound of its numbers.
    ordered_zero :
        (order : ℕ → ℕ)
        → ((a b : ℕ) → Edge adjacency a b → order a < order b)
        → (bound j : ℕ) → order j < bound
        → j < length adjacency
        → count_of counts j ≡ 0
    ordered_zero order grows zero j h bounded = absurd (omega (arith, h))
    ordered_zero order grows (suc bound) j h bounded = elim (Bool-cases (count_of counts j == 0)) [
      | inl e ↦ (==_iff (count_of counts j) 0).0 e
      | inr e ↦
          let positive : 0 < open_in v adjacency j = ground (arith, e, p.counted j bounded) in
          let (a, edge, free, a_bounded) = open_in-positive v adjacency j positive in
          let a_zero =
            ordered_zero order grows bound a (omega (arith, grows a j edge, h)) a_bounded in
          absurd (ground (arith, p.waiting a a_bounded, free, a_zero))
    ]

    Ordered-none : Ordered adjacency → first_positive 0 counts ≡ none
    Ordered-none (order, grows) = first_positive-none 0 counts (λ j h.
        ordered_zero order grows (order j + 1) j (omega arith) (omega (arith, h, p.count_size)))

-- On a graph whose targets are in range the search for a cycle ends, and it answers -1 exactly if the
-- nodes can be numbered so that every edge leads to a greater number.
pub execution_cycle_node_correct :
    (adjacency : List (List ℕ))
    → InRange adjacency
    → (answer : Option ℕ) × (execution_cycle_node adjacency ≡ some answer)
      × (answer ≡ none ↔ Ordered adjacency)
unfolding execution_cycle_node
execution_cycle_node_correct adjacency range =
    let counts = raise_all adjacency (replicate (length adjacency) 0) in
    let (final, ends, v, rank, done) =
      cycle_loop-Peeled adjacency range (length adjacency + 1) (replicate (length adjacency) false)
        counts (zero_nodes 0 counts) 0 (λ m. 0)
        (omega (arith, unmarked-replicate (length adjacency))) (start-Peeling adjacency range) in
    (
      first_positive 0 final,
      rw ends refl,
      (
        none-Ordered adjacency range v final done.number rank done.state,
        Ordered-none adjacency range v final done.number rank done.state,
      ),
    )
