-- ===== src/Plan/Dominators/Exact.antt =====
-- internal/engine/execution_plan.go: the rows that `executionDominators` ends with, and paths.
use flow_routine.Prelude.{
  ℕ, zero, suc, ◌+◌, ◌*◌, ◌≤◌, ◌<◌, ◌≡◌, refl, sym, ap, ◌∙◌, subst, ◌≢◌, ◌↔◌, inl, inr, Bool, true,
  false, some, List, [], ◌∷◌, arith, ◌==◌, if◌then◌else◌, ==_iff, Bool-cases, length, replicate,
  length-set, length-replicate, get_or-set,
}
use Prim.Native.Nat.mul
use flow_routine.Plan.Graph.{targets_of, execution_predecessors}
use flow_routine.Plan.Graph.Paths.{In, InRange, Avoiding, start, onward}
use flow_routine.Plan.Graph.Predecessors.{
  length-execution_predecessors, Edge-execution_predecessors,
}
use flow_routine.Plan.Graph.Search.{AllBelow-of}
use flow_routine.Plan.Graph.Visit.{AllBelow}
use flow_routine.Plan.Dominators.{
  Row, has_execution_bit, set_execution_bit, row_of, row_bits, first_rows, execution_dominators,
}
use flow_routine.Plan.Dominators.Rows.{ones, all_have}
use flow_routine.Plan.Dominators.Rounds.{total_ones, Inv}
use flow_routine.Plan.Dominators.Loop.{Settled, rounds-Settled}

bit-replicate : (w d : ℕ) (b : Bool) → d < w → has_execution_bit (replicate w b) d ≡ b
bit-replicate zero d b h = absurd (omega (arith, h))
bit-replicate (suc w) zero b h = refl
bit-replicate (suc w) (suc d) b h = bit-replicate w d b (omega (arith, h))

ones-le-length : (row : Row) → ones row ≤ length row
ones-le-length [] = omega arith
ones-le-length (b ∷ row) = ground (arith, ones-le-length row)

first_row : ℕ → ℕ → ℕ → Row
first_row entry w node =
    if node == entry then set_execution_bit (replicate w false) node else replicate w true

length-first_row : (entry w node : ℕ) → length (first_row entry w node) ≡ w
unfolding first_row
length-first_row entry w node = elim (Bool-cases (node == entry)) [
  | inl e ↦ rw e (length-set (replicate w false) node true ∙ length-replicate w false)
  | inr e ↦ rw e (length-replicate w true)
]

length-first_rows : (entry w node left : ℕ) → length (first_rows entry w node left) ≡ left
unfolding first_rows
length-first_rows entry w node zero = refl
length-first_rows entry w node (suc left) = ap suc (length-first_rows entry w (node + 1) left)

row-first_rows :
    (entry w node left k : ℕ)
    → k < left
    → row_of (first_rows entry w node left) k ≡ first_row entry w (node + k)
unfolding first_rows first_row
row-first_rows entry w node zero k h = absurd (omega (arith, h))
row-first_rows entry w node (suc left) zero h = ap (first_row entry w) (omega arith)
row-first_rows entry w node (suc left) (suc k) h =
    row-first_rows entry w (node + 1) left k (omega (arith, h))
    ∙ ap (first_row entry w) (omega arith)

total_ones-first_rows :
    (entry w node left : ℕ) → total_ones (first_rows entry w node left) ≤ left * w
unfolding total_ones first_rows first_row
total_ones-first_rows entry w node zero = omega arith
total_ones-first_rows entry w node (suc left) =
    let row = first_row entry w node in
    omega (
      arith,
      ones-le-length row,
      length-first_row entry w node,
      total_ones-first_rows entry w (node + 1) left,
      mul.suc left w,
    )

module _ (adjacency : List (List ℕ)) (entry : ℕ) (range : InRange adjacency)
    (inside : entry < length adjacency) where
  abbrev predecessors : List (List ℕ)
  predecessors = execution_predecessors adjacency

  abbrev n_of : ℕ
  n_of = length predecessors

  -- A path from the entry leads to m without d.
  abbrev Avoids : ℕ → ℕ → Type 0
  Avoids d m = Avoiding adjacency d entry m

  source-In_range : (a b : ℕ) (lists : List (List ℕ)) → In b (targets_of lists a) → a < length lists
  source-In_range a b [] i = absurd i
  source-In_range zero b (x ∷ lists) i = omega arith
  source-In_range (suc a) b (x ∷ lists) i = omega (arith, source-In_range a b lists i)

  below : (m : ℕ) → AllBelow n_of (targets_of predecessors m)
  below m = AllBelow-of n_of (targets_of predecessors m) (λ p i.
      rw (length-execution_predecessors adjacency)
        (source-In_range p m adjacency ((Edge-execution_predecessors adjacency p m range).0 i)))

  closed :
      (m d : ℕ)
      → m ≢ d
      → m ≢ entry
      → (p : ℕ) → In p (targets_of predecessors m)
      → Avoids d p
      → Avoids d m
  closed m d differ not_entry p i path =
      onward path ((Edge-execution_predecessors adjacency p m range).0 i) differ

  abbrev width_of : ℕ
  width_of = row_bits n_of

  abbrev start_rows : List Row
  start_rows = first_rows entry width_of 0 n_of

  start_rows-row : (m : ℕ) → m < n_of → row_of start_rows m ≡ first_row entry width_of m
  start_rows-row m h =
      row-first_rows entry width_of 0 n_of m h ∙ ap (first_row entry width_of) (omega arith)

  entry-bit :
      (d : ℕ)
      → d < width_of
      → entry < n_of
      → has_execution_bit (first_row entry width_of entry) d ≡ (entry == d)
  unfolding first_row
  entry-bit d h e_inside =
      let self : (entry == entry) ≡ true = ground arith in
      let blank = bit-replicate width_of d false h in
      let written =
        get_or-set (replicate width_of false) entry d true false
          (omega (arith, length-replicate width_of false, e_inside)) in
      rw self (written ∙ ground (arith, blank))

  other-bit :
      (m d : ℕ) → d < width_of → m ≢ entry → has_execution_bit (first_row entry width_of m) d ≡ true
  unfolding first_row
  other-bit m d h differ =
      let other : (m == entry) ≡ false = ground arith in rw other (bit-replicate width_of d true h)

  abbrev Keeps : List Row → Type 0
  Keeps = Inv predecessors entry Avoids below closed

  start_rows-Keeps : Keeps start_rows
  start_rows-Keeps = record {
    size = length-first_rows entry width_of 0 n_of;
    wide = λ q h. ap length (start_rows-row q h) ∙ length-first_row entry width_of q;
    descends = λ m d m_inside h differ e.
        ap (λ r. has_execution_bit r d) (start_rows-row m m_inside) ∙ other-bit m d h differ;
    lost = λ m d m_inside h gone.
        let gone' = sym (ap (λ r. has_execution_bit r d) (start_rows-row m m_inside)) ∙ gone in
        elim (Bool-cases (m == entry)) [
          | inl at ↦
              let same : m ≡ entry = (==_iff m entry).0 at in
              let gone_entry =
                subst (λ k. has_execution_bit (first_row entry width_of k) d ≡ false) same gone' in
              let is = entry-bit d h (subst (λ k. k < n_of) same m_inside) in
              let differ : entry ≢ d = ground (arith, gone_entry, is) in
              subst (Avoids d) (sym same) (start differ)
          | inr other ↦ let has = other-bit m d h (ground (arith, other)) in cc (gone', has)
        ];
    own = λ d e_inside h.
        ap (λ r. has_execution_bit r d) (start_rows-row entry e_inside) ∙ entry-bit d h e_inside;
  }

  lacks_one :
      (rows : List Row) (d p : ℕ) (ps : List ℕ)
      → In p ps
      → has_execution_bit (row_of rows p) d ≡ false
      → all_have rows d ps ≡ false
  lacks_one rows d p [] i h = absurd i
  lacks_one rows d p (x ∷ rest) (inl e) h = rw (← e) (rw h refl)
  lacks_one rows d p (x ∷ rest) (inr i) h = ground (arith, lacks_one rows d p rest i h)

  module _ (rows : List Row) (v : Keeps rows)
      (settled : (m : ℕ) → m < n_of → Settled predecessors entry Avoids below closed rows m) where
    -- A node that can be reached without d has lost the bit.
    Avoids-lost :
        (d : ℕ) → d < width_of → {m : ℕ} → Avoids d m → has_execution_bit (row_of rows m) d ≡ false
    Avoids-lost d h (start differ) =
        let e_inside : entry < n_of = rw (length-execution_predecessors adjacency) inside in
        let is = v.own d e_inside h in ground (arith, is)
    Avoids-lost d h (onward {b} {c} path edge differ) =
        let c_inside : c < n_of = rw (length-execution_predecessors adjacency) (range b c edge) in
        let before = Avoids-lost d h path in
        let listed = (Edge-execution_predecessors adjacency b c range).1 edge in
        elim (Bool-cases (c == entry)) [
          | inl at ↦
              let same : c ≡ entry = (==_iff c entry).0 at in
              let is = v.own d (subst (λ k. k < n_of) same c_inside) h in
              let other : entry ≢ d = λ e. differ (same ∙ e) in
              subst (λ k. has_execution_bit (row_of rows k) d ≡ false) (sym same)
                (ground (arith, is, other))
          | inr other ↦
              let is = settled c c_inside (ground (arith, other)) b listed d in
              let all = lacks_one rows d b (targets_of predecessors c) listed before in
              ground (arith, is, all, differ)
        ]

-- On a graph whose targets are in range, the loop ends, and a node has the bit of d exactly if no path
-- from the entry leads to it without d, that is if d dominates it.
pub execution_dominators_correct :
    (adjacency : List (List ℕ)) (entry : ℕ)
    → InRange adjacency
    → entry < length adjacency
    → (rows : List Row) × (execution_dominators entry (execution_predecessors adjacency)
        ≡ some rows)
      × ((m d : ℕ)
          → m < length adjacency
          → d < length adjacency
          → has_execution_bit (row_of rows m) d ≡ true ↔ ¬ (Avoiding adjacency d entry m))
unfolding execution_dominators
execution_dominators_correct adjacency entry range inside =
    let n = length (execution_predecessors adjacency) in
    let size = length-execution_predecessors adjacency in
    let (rows, e, v, settled) =
      rounds-Settled (execution_predecessors adjacency) entry (Avoids adjacency entry range inside)
        (below adjacency entry range inside) (closed adjacency entry range inside)
        (n * row_bits n + 1) (start_rows adjacency entry range inside)
        (start_rows-Keeps adjacency entry range inside)
        (omega (arith, total_ones-first_rows entry (row_bits n) 0 n)) in
    (
      rows,
      e,
      λ m d m_inside d_inside. (
        λ has path.
            let lost =
              Avoids-lost adjacency entry range inside rows v settled d
                (omega (arith, d_inside, size)) path in
            cc (has, lost),
        λ none_avoids. elim (Bool-cases (has_execution_bit (row_of rows m) d)) [
          | inl has ↦ has
          | inr gone ↦
              absurd
                (none_avoids (v.lost m d (rw size m_inside) (omega (arith, d_inside, size)) gone))
        ],
      ),
    )
