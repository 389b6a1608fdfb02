-- ===== src/Plan/Graph.antt =====
-- internal/engine/execution_plan.go: the searches over the graph of a plan.
-- Go indexes slices by targets that `resolveRequiredExecutionTarget` found, so they are in range; the
-- theorems state that as `InRange`. An index out of range, which panics in Go, reads a default here.
pub mod Paths
pub mod Visit
pub mod Search
pub mod Predecessors
pub mod Reverse
pub mod Tests
use mathlib.Core.Option
use flow_routine.Prelude.{
  ℕ, zero, suc, ◌+◌, ◌-◌, ◌*◌, ◌/◌, ◌%◌, ◌^◌, ◌≤◌, ◌<◌, min, max, ◌≡◌, refl, sym, ap, ◌∙◌, subst,
  ◌≢◌, ◌↔◌, ◌⊎◌, inl, inr, Bool, true, false, ◌&&◌, ◌||◌, not, Option, none, some, List, [], ◌∷◌,
  ◌++◌, map, arith, ltb, leb, ◌==◌, if◌then◌else◌, ltb→lt, lt→ltb, leb→le, ==_iff, tests,
  Bool-cases, Option-cases, length, get_elem?, get_or, set, replicate, take, drop, length-append,
  length-set, length-replicate, length-map,
}

-- `adjacency[node]`.
abbrev pub targets_of : List (List ℕ) → ℕ → List ℕ
targets_of adjacency node = get_or adjacency node []

-- The inner loop: mark each target that is not yet visited, and put it at the end of the queue.
unfoldable pub visit_targets : List ℕ → List Bool → List ℕ → List Bool × List ℕ
visit_targets [] visited queue = (visited, queue)
visit_targets (target ∷ rest) visited queue =
    let seen = visit_targets rest visited queue in
    let fresh = visit_targets rest (set visited target true) (queue ++ target ∷ []) in
    if get_or visited target false then seen else fresh

-- The outer loop, over the part of the queue from the cursor on; `none` if the fuel runs out.
unfoldable pub search_loop : ℕ → List (List ℕ) → List Bool → List ℕ → Option (List Bool)
search_loop zero adjacency visited queue = none
search_loop (suc fuel) adjacency visited [] = some visited
search_loop (suc fuel) adjacency visited (node ∷ queue) =
    let next = visit_targets (targets_of adjacency node) visited queue in
    search_loop fuel adjacency next.0 next.1

-- The search from a node: `visited`, with the fuel that it needs.
unfoldable pub search_from : ℕ → List (List ℕ) → Option (List Bool)
unfolding search_loop
search_from entry adjacency =
    search_loop (length adjacency + 2) adjacency
      (set (replicate (length adjacency) false) entry true) (entry ∷ [])

unfoldable pub all_true : List Bool → Bool
all_true [] = true
all_true (b ∷ rest) = b && all_true rest

-- `validateExecutionReachability`: whether it returns no error.
unfoldable pub validate_execution_reachability : ℕ → List (List ℕ) → Option Bool
unfolding search_from all_true
validate_execution_reachability entry adjacency = Option.map all_true (search_from entry adjacency)

-- `reverseReachable` is the same search, over the predecessors.
unfoldable pub reverse_reachable : ℕ → List (List ℕ) → Option (List Bool)
unfolding search_from
reverse_reachable target reverse = search_from target reverse

-- `executionPredecessors`.
unfoldable pub push_at : List (List ℕ) → ℕ → ℕ → List (List ℕ)
push_at lists i value = set lists i (get_or lists i [] ++ value ∷ [])

unfoldable pub add_predecessors : ℕ → List ℕ → List (List ℕ) → List (List ℕ)
unfolding push_at
add_predecessors source [] predecessors = predecessors
add_predecessors source (target ∷ rest) predecessors =
    add_predecessors source rest (push_at predecessors target source)

unfoldable pub collect_predecessors : ℕ → List (List ℕ) → List (List ℕ) → List (List ℕ)
unfolding add_predecessors
collect_predecessors source [] predecessors = predecessors
collect_predecessors source (targets ∷ rest) predecessors =
    collect_predecessors (source + 1) rest (add_predecessors source targets predecessors)

unfoldable pub execution_predecessors : List (List ℕ) → List (List ℕ)
unfolding collect_predecessors
execution_predecessors adjacency =
    collect_predecessors 0 adjacency (replicate (length adjacency) [])
