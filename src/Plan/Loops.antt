-- ===== src/Plan/Loops.antt =====
-- internal/engine/execution_plan.go: `validateBoundedExecutionLoops`. Go ranges over the map of a loop's
-- region in any order; here the nodes come in order, which decides only which error is reported.
use flow_routine.Prelude.{
  ℕ, suc, ◌+◌, Bool, true, false, ◌&&◌, ◌||◌, not, Option, none, some, List, [], ◌∷◌, ◌++◌, ◌==◌,
  if◌then◌else◌, get_or,
}
use flow_routine.Prelude.Result.{Result, ok, ◌>>=◌, ◌>>◌, guard}
use flow_routine.Plan.{Instruction, CompiledExecutionStep, execution_adjacency}
use flow_routine.Plan.Graph.{execution_predecessors, reverse_reachable}
use flow_routine.Plan.Forward.{forward_until}
use flow_routine.Plan.Cycles.{execution_cycle_node}
use flow_routine.Plan.Targets.{
  CompileError, unbounded_cycle, loop_without_return, loop_escape, nested_loop, loop_exit_inside,
  unfinished, or_error, is_some,
}

abbrev pub is_marked : List Bool → ℕ → Bool
is_marked marks node = get_or marks node false

unfoldable pub is_loop : Instruction → Bool
is_loop (Instruction.loop body exit max_iterations) = true
is_loop _ = false

-- The loop over a loop's region, from a node on.
unfoldable pub check_region :
    ℕ → List Bool → ℕ → List CompiledExecutionStep → List Bool → Result CompileError (Unit {0})
unfolding is_loop
check_region loop_index can_reach node [] region = ok tt
check_region loop_index can_reach node (step ∷ rest) [] = ok tt
check_region loop_index can_reach node (step ∷ rest) (inside ∷ region) = do
  guard (not inside || is_marked can_reach node) loop_escape
  guard (not inside || node == loop_index || not (is_loop step.instruction)) nested_loop
  check_region loop_index can_reach (node + 1) rest region

unfoldable pub exit_outside : ℕ → List Bool → Option ℕ → Bool
exit_outside loop_index region none = true
exit_outside loop_index region (some exit) = not (is_marked region exit) && not (exit == loop_index)

-- `len(bodyRegion)`.
unfoldable pub count_marks : List Bool → ℕ
count_marks [] = 0
count_marks (b ∷ rest) = let later = count_marks rest in if b then suc later else later

-- The body of the loop over the steps: the size of the region if the step is a loop.
unfoldable pub check_loop :
    List CompiledExecutionStep
    → List (List ℕ)
    → ℕ
    → Instruction
    → Result CompileError (List (ℕ × ℕ))
unfolding check_region exit_outside
check_loop steps acyclic loop_index (Instruction.loop body exit max_iterations) = do
  can_reach ← or_error unfinished (reverse_reachable loop_index (execution_predecessors acyclic))
  guard (is_marked can_reach body) loop_without_return
  region ← or_error unfinished (forward_until body loop_index acyclic)
  check_region loop_index can_reach 0 steps region
  guard (exit_outside loop_index region exit) loop_exit_inside
  ok ((loop_index, count_marks region) ∷ [])
check_loop steps acyclic loop_index _ = ok []

unfoldable pub check_loops :
    List CompiledExecutionStep
    → List (List ℕ)
    → ℕ
    → List CompiledExecutionStep
    → Result CompileError (List (ℕ × ℕ))
unfolding check_loop
check_loops steps acyclic index [] = ok []
check_loops steps acyclic index (step ∷ rest) = do
  here ← check_loop steps acyclic index step.instruction
  later ← check_loops steps acyclic (index + 1) rest
  ok (here ++ later)

-- `validateBoundedExecutionLoops`: the loops with the sizes of their regions, and the graph without the
-- edges into the bodies.
unfoldable pub validate_bounded_execution_loops :
    List CompiledExecutionStep → Result CompileError (List (ℕ × ℕ) × List (List ℕ))
unfolding check_loops
validate_bounded_execution_loops steps =
    let acyclic = execution_adjacency steps true in
    do
      cycle ← or_error unfinished (execution_cycle_node acyclic)
      guard (not (is_some cycle)) unbounded_cycle
      loop_bodies ← check_loops steps acyclic 0 steps
      ok (loop_bodies, acyclic)
