-- ===== src/Plan/Forward.antt =====
-- internal/engine/execution_plan.go: `forwardUntil`. The map of visited nodes is a list of marks.
pub mod Exact
mod Tests
use flow_routine.Prelude.{
  ℕ, zero, suc, ◌+◌, ◌-◌, ◌*◌, ◌/◌, ◌%◌, ◌^◌, ◌≤◌, ◌<◌, min, max, ◌≡◌, refl, sym, ap, ◌∙◌, subst,
  ◌≢◌, ◌↔◌, ◌⊎◌, inl, inr, Bool, true, false, ◌&&◌, ◌||◌, not, Option, none, some, List, [], ◌∷◌,
  ◌++◌, map, arith, ltb, leb, ◌==◌, if◌then◌else◌, ltb→lt, lt→ltb, leb→le, ==_iff, tests,
  Bool-cases, Option-cases, length, get_elem?, get_or, set, replicate, take, drop, length-append,
  length-set, length-replicate, length-map, get_or-set,
}
use flow_routine.Plan.Graph.{targets_of}

-- The loop over the part of the queue from the cursor on; `none` if the fuel runs out.
unfoldable pub forward_loop : ℕ → ℕ → List (List ℕ) → List Bool → List ℕ → Option (List Bool)
forward_loop zero stop adjacency visited queue = none
forward_loop (suc fuel) stop adjacency visited [] = some visited
forward_loop (suc fuel) stop adjacency visited (current ∷ queue) =
    let skip = current == stop || get_or visited current false in
    forward_loop fuel stop adjacency (if skip then visited else set visited current true)
      (if skip then queue else queue ++ targets_of adjacency current)

unfoldable pub edge_count : List (List ℕ) → ℕ
edge_count [] = 0
edge_count (targets ∷ rest) = length targets + edge_count rest

-- `forwardUntil`. A node is put in the queue at most once for each edge to it.
unfoldable pub forward_until : ℕ → ℕ → List (List ℕ) → Option (List Bool)
unfolding forward_loop edge_count
forward_until entry stop adjacency =
    forward_loop (edge_count adjacency + 2) stop adjacency (replicate (length adjacency) false)
      (entry ∷ [])
