-- ===== src/Plan/Dominators/Tests.antt =====
-- The dominators of a branch with two routes and a join.
use flow_routine.Prelude.{ℕ, ◌<◌, ◌≡◌, refl, ◌↔◌, true, false, some, List, [], ◌∷◌, arith}
use flow_routine.Plan.Graph.{execution_predecessors}
use flow_routine.Plan.Graph.Paths.{Avoiding}
use flow_routine.Plan.Graph.Tests.{diamond, diamond-InRange}
use flow_routine.Plan.Dominators.{
  Row, has_execution_bit, row_of, execution_dominators, equal_execution_bits, and_bits,
}
use flow_routine.Plan.Dominators.Exact.{execution_dominators_correct}

and_words :
    and_bits (true ∷ true ∷ false ∷ []) (false ∷ true ∷ true ∷ []) ≡ false ∷ true ∷ false ∷ []
unfolding and_bits
and_words = refl

other_words : equal_execution_bits (true ∷ true ∷ []) (true ∷ false ∷ []) ≡ false
unfolding equal_execution_bits
other_words = refl

execution_dominators_correct_example :
    (rows : List Row) × (execution_dominators 0 (execution_predecessors diamond) ≡ some rows)
    × ((m d : ℕ)
        → m < 4
        → d < 4
        → has_execution_bit (row_of rows m) d ≡ true ↔ ¬ (Avoiding diamond d 0 m))
execution_dominators_correct_example =
    execution_dominators_correct diamond 0 diamond-InRange (omega arith)
