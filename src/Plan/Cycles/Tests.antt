-- ===== src/Plan/Cycles/Tests.antt =====
-- Searches for a cycle in small graphs.
use flow_routine.Prelude.{ℕ, ◌≡◌, refl, ◌↔◌, Option, none, some, [], ◌∷◌}
use flow_routine.Plan.Graph.Tests.{diamond, diamond-InRange}
use flow_routine.Plan.Cycles.{execution_cycle_node}
use flow_routine.Plan.Cycles.Ordered.{Ordered, execution_cycle_node_correct}

tail_cycle : execution_cycle_node ((1 ∷ []) ∷ (2 ∷ []) ∷ (1 ∷ []) ∷ []) ≡ some (some 1)
unfolding execution_cycle_node
tail_cycle = refl

no_cycle : execution_cycle_node ((2 ∷ 1 ∷ []) ∷ (2 ∷ []) ∷ [] ∷ []) ≡ some none
unfolding execution_cycle_node
no_cycle = refl

execution_cycle_node_correct_example :
    (answer : Option ℕ) × (execution_cycle_node diamond ≡ some answer)
    × (answer ≡ none ↔ Ordered diamond)
execution_cycle_node_correct_example = execution_cycle_node_correct diamond diamond-InRange
