-- ===== src/Plan/Dominators.antt =====
-- internal/engine/execution_plan.go: `executionDominators` and its bits. A row of 64-bit words is the
-- list of its bits, so bit i stands at index i, where Go finds it in word i / 64.
pub mod Rows
pub mod Rounds
pub mod Loop
pub mod Exact
mod Tests
use flow_routine.Prelude.{
  ℕ, zero, suc, ◌+◌, ◌-◌, ◌*◌, ◌/◌, ◌%◌, ◌^◌, ◌≤◌, ◌<◌, min, max, ◌≡◌, refl, sym, ap, ◌∙◌, subst,
  ◌≢◌, ◌↔◌, ◌⊎◌, inl, inr, Bool, true, false, ◌&&◌, ◌||◌, not, Option, none, some, List, [], ◌∷◌,
  ◌++◌, map, arith, ltb, leb, ◌==◌, if◌then◌else◌, ltb→lt, lt→ltb, leb→le, ==_iff, tests,
  Bool-cases, Option-cases, length, get_elem?, get_or, set, replicate, take, drop, length-append,
  length-set, length-replicate, length-map, get_or-set,
}
use flow_routine.Plan.Graph.{targets_of}

abbrev pub Row : Type 0
Row = List Bool

-- `hasExecutionBit`.
abbrev pub has_execution_bit : Row → ℕ → Bool
has_execution_bit bits index = get_or bits index false

-- `setExecutionBit`.
abbrev pub set_execution_bit : Row → ℕ → Row
set_execution_bit bits index = set bits index true

abbrev pub same_bit : Bool → Bool → Bool
same_bit true b = b
same_bit false b = not b

-- `equalExecutionBits`, on rows of one length.
unfoldable pub equal_execution_bits : Row → Row → Bool
equal_execution_bits [] right = true
equal_execution_bits (b ∷ left) [] = true
equal_execution_bits (b ∷ left) (c ∷ right) = same_bit b c && equal_execution_bits left right

-- `next[word] &= dominators[predecessor][word]`.
unfoldable pub and_bits : Row → Row → Row
and_bits [] right = []
and_bits (b ∷ left) [] = b ∷ left
and_bits (b ∷ left) (c ∷ right) = (b && c) ∷ and_bits left right

abbrev pub row_of : List Row → ℕ → Row
row_of dominators node = get_or dominators node []

-- The rows of the predecessors after the first, met one by one.
unfoldable pub meet : List Row → Row → List ℕ → Row
unfolding and_bits
meet dominators next [] = next
meet dominators next (p ∷ rest) = meet dominators (and_bits next (row_of dominators p)) rest

-- The row that a node with a predecessor should have.
unfoldable pub next_row : List Row → ℕ → ℕ → List ℕ → Row
unfolding meet
next_row dominators node first rest =
    set_execution_bit (meet dominators (row_of dominators first) rest) node

-- The body of the loop over the nodes, on the rows and `changed`.
unfoldable pub update_row : ℕ → ℕ → List ℕ → List Row × Bool → List Row × Bool
unfolding next_row equal_execution_bits
update_row entry node [] state = state
update_row entry node (first ∷ rest) state =
    let next = next_row state.0 node first rest in
    if node == entry || equal_execution_bits next (row_of state.0 node)
    then state
    else (set state.0 node next, true)

-- The loop over the nodes, from an index on.
unfoldable pub round : ℕ → ℕ → List (List ℕ) → List Row × Bool → List Row × Bool
unfolding update_row
round entry node [] state = state
round entry node (predecessors ∷ later) state =
    round entry (node + 1) later (update_row entry node predecessors state)

abbrev pub again : (List Row → Option (List Row)) → List Row × Bool → Option (List Row)
again go (dominators, true) = go dominators
again go (dominators, false) = some dominators

-- `for changed`; `none` if the fuel runs out.
unfoldable pub rounds : ℕ → ℕ → List (List ℕ) → List Row → Option (List Row)
unfolding round
rounds zero entry predecessors dominators = none
rounds (suc fuel) entry predecessors dominators =
    again (rounds fuel entry predecessors) (round entry 0 predecessors (dominators, false))

-- `64 * words`.
abbrev pub row_bits : ℕ → ℕ
row_bits n = 64 * ((n + 63) / 64)

unfoldable pub first_rows : ℕ → ℕ → ℕ → ℕ → List Row
first_rows entry width node zero = []
first_rows entry width node (suc left) =
    (if node == entry then set_execution_bit (replicate width false) node else replicate width true)
    ∷ first_rows entry width (node + 1) left

-- `executionDominators`. Each round but the last clears a bit.
unfoldable pub execution_dominators : ℕ → List (List ℕ) → Option (List Row)
unfolding rounds first_rows
execution_dominators entry predecessors =
    let n = length predecessors in
    rounds (n * row_bits n + 1) entry predecessors (first_rows entry (row_bits n) 0 n)
