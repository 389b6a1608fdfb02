-- ===== src/Plan/Cycles.antt =====
-- internal/engine/execution_plan.go: `executionCycleNode`, which takes away the nodes that no edge leads
-- to. Its answer -1 is `none`.
pub mod Counts
pub mod Ordered
mod Tests
use flow_routine.Prelude.{
  ℕ, zero, suc, ◌+◌, ◌-◌, ◌*◌, ◌/◌, ◌%◌, ◌^◌, ◌≤◌, ◌<◌, min, max, ◌≡◌, refl, sym, ap, ◌∙◌, subst,
  ◌≢◌, ◌↔◌, ◌⊎◌, inl, inr, Bool, true, false, ◌&&◌, ◌||◌, not, Option, none, some, List, [], ◌∷◌,
  ◌++◌, map, arith, ltb, leb, ◌==◌, if◌then◌else◌, ltb→lt, lt→ltb, leb→le, ==_iff, tests,
  Bool-cases, Option-cases, length, get_elem?, get_or, set, replicate, take, drop, length-append,
  length-set, length-replicate, length-map, get_or-set,
}
use mathlib.Core.Option
use flow_routine.Plan.Graph.{targets_of}

abbrev pub count_of : List ℕ → ℕ → ℕ
count_of incoming node = get_or incoming node 0

-- `incoming[target]++` for each target.
unfoldable pub raise_targets : List ℕ → List ℕ → List ℕ
raise_targets [] incoming = incoming
raise_targets (target ∷ rest) incoming =
    raise_targets rest (set incoming target (count_of incoming target + 1))

unfoldable pub raise_all : List (List ℕ) → List ℕ → List ℕ
unfolding raise_targets
raise_all [] incoming = incoming
raise_all (targets ∷ rest) incoming = raise_all rest (raise_targets targets incoming)

-- The first queue: the nodes with no edge to them, from an index on.
unfoldable pub zero_nodes : ℕ → List ℕ → List ℕ
zero_nodes index [] = []
zero_nodes index (count ∷ rest) =
    let later = zero_nodes (index + 1) rest in if count == 0 then index ∷ later else later

-- The inner loop: `incoming[target]--`, and the target goes to the queue if nothing is left.
unfoldable pub lower_targets : List ℕ → List ℕ → List ℕ → List ℕ × List ℕ
lower_targets [] incoming queue = (incoming, queue)
lower_targets (target ∷ rest) incoming queue =
    let left = count_of incoming target - 1 in
    lower_targets rest (set incoming target left)
      (if left == 0 then queue ++ target ∷ [] else queue)

-- The outer loop, over the part of the queue from the cursor on; `none` if the fuel runs out.
unfoldable pub cycle_loop : ℕ → List (List ℕ) → List ℕ → List ℕ → Option (List ℕ)
unfolding lower_targets
cycle_loop zero adjacency incoming queue = none
cycle_loop (suc fuel) adjacency incoming [] = some incoming
cycle_loop (suc fuel) adjacency incoming (node ∷ queue) =
    let next = lower_targets (targets_of adjacency node) incoming queue in
    cycle_loop fuel adjacency next.0 next.1

unfoldable pub first_positive : ℕ → List ℕ → Option ℕ
first_positive index [] = none
first_positive index (count ∷ rest) =
    let later = first_positive (index + 1) rest in if ltb 0 count then some index else later

-- `executionCycleNode`. Every node is in the queue at most once.
unfoldable pub execution_cycle_node : List (List ℕ) → Option (Option ℕ)
unfolding raise_all zero_nodes cycle_loop first_positive
execution_cycle_node adjacency =
    let incoming = raise_all adjacency (replicate (length adjacency) 0) in
    Option.map (first_positive 0)
      (cycle_loop (length adjacency + 1) adjacency incoming (zero_nodes 0 incoming))
