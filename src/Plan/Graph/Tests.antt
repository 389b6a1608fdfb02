-- ===== src/Plan/Graph/Tests.antt =====
-- Searches in a small graph: a branch with two routes, a join, and a step that loops.
use flow_routine.Prelude.{
  ℕ, zero, suc, ◌<◌, ◌≡◌, refl, ◌↔◌, inl, inr, Bool, true, false, some, List, [], ◌∷◌, arith,
  length,
}
use flow_routine.Plan.Graph.{
  search_from, visit_targets, validate_execution_reachability, execution_predecessors,
  reverse_reachable,
}
use flow_routine.Plan.Graph.Paths.{Edge, Reach, InRange}
use flow_routine.Plan.Graph.Visit.{Marked}
use flow_routine.Plan.Graph.Search.{search_from_correct, validate_execution_reachability_correct}
use flow_routine.Plan.Graph.Predecessors.{Edge-execution_predecessors}
use flow_routine.Plan.Graph.Reverse.{reverse_reachable_correct}

abbrev pub diamond : List (List ℕ)
diamond = (1 ∷ 2 ∷ []) ∷ (3 ∷ []) ∷ (3 ∷ []) ∷ (0 ∷ []) ∷ []

abbrev split_graph : List (List ℕ)
split_graph = (1 ∷ []) ∷ [] ∷ (1 ∷ []) ∷ []

all_reached : validate_execution_reachability 0 diamond ≡ some true
unfolding validate_execution_reachability visit_targets
all_reached = refl

not_reached : validate_execution_reachability 0 split_graph ≡ some false
unfolding validate_execution_reachability visit_targets
not_reached = refl

turned_round : execution_predecessors split_graph ≡ [] ∷ (0 ∷ 2 ∷ []) ∷ [] ∷ []
unfolding execution_predecessors
turned_round = refl

pub diamond-InRange : InRange diamond
diamond-InRange zero b (inl e) = omega (arith, e)
diamond-InRange zero b (inr (inl e)) = omega (arith, e)
diamond-InRange zero b (inr (inr h)) = absurd h
diamond-InRange (suc zero) b (inl e) = omega (arith, e)
diamond-InRange (suc zero) b (inr h) = absurd h
diamond-InRange (suc (suc zero)) b (inl e) = omega (arith, e)
diamond-InRange (suc (suc zero)) b (inr h) = absurd h
diamond-InRange (suc (suc (suc zero))) b (inl e) = omega (arith, e)
diamond-InRange (suc (suc (suc zero))) b (inr h) = absurd h
diamond-InRange (suc (suc (suc (suc a)))) b h = absurd h

search_from_correct_example :
    (v : List Bool) × (search_from 0 diamond ≡ some v)
    × (length v ≡ 4)
    × ((n : ℕ) → Marked v n ↔ Reach diamond 0 n)
search_from_correct_example = search_from_correct diamond 0 diamond-InRange (omega arith)

validate_execution_reachability_correct_example :
    (answer : Bool) × (validate_execution_reachability 0 diamond ≡ some answer)
    × (answer ≡ true ↔ ((n : ℕ) → n < 4 → Reach diamond 0 n))
validate_execution_reachability_correct_example =
    validate_execution_reachability_correct diamond 0 diamond-InRange (omega arith)

Edge-execution_predecessors_example : Edge (execution_predecessors diamond) 3 1 ↔ Edge diamond 1 3
Edge-execution_predecessors_example = Edge-execution_predecessors diamond 1 3 diamond-InRange

reverse_reachable_correct_example :
    (v : List Bool) × (reverse_reachable 3 (execution_predecessors diamond) ≡ some v)
    × ((n : ℕ) → Marked v n ↔ Reach diamond n 3)
reverse_reachable_correct_example =
    reverse_reachable_correct diamond diamond-InRange 3 (omega arith)
