-- ===== src/Plan/Compile.antt =====
-- internal/engine/execution_plan.go: `compileExecutionPlan`. The steps of the scenario, into which Go
-- writes the assertions, are part of the result.
pub mod Ensures
pub mod Below
pub mod Fits
pub mod Regions
pub mod Joined
pub mod Owners
pub mod Attached
pub mod Producers
pub mod Available
pub mod Identified
pub mod Checked
pub mod Counting
pub mod Accepted
mod Tests
use flow_routine.Prelude.{
  ℕ, zero, suc, ◌+◌, ◌-◌, ◌*◌, ◌/◌, ◌%◌, ◌^◌, ◌≤◌, ◌<◌, min, max, ◌≡◌, refl, sym, ap, ◌∙◌, subst,
  ◌≢◌, ◌↔◌, ◌⊎◌, inl, inr, Bool, true, false, ◌&&◌, ◌||◌, not, Option, none, some, List, [], ◌∷◌,
  ◌++◌, map, arith, ltb, leb, ◌==◌, if◌then◌else◌, ltb→lt, lt→ltb, leb→le, ==_iff, tests,
  Bool-cases, Option-cases, length, get_elem?, get_or, set, replicate, take, drop, length-append,
  length-set, length-replicate, length-map, get_or-set,
}
use Prim.Native.String.{String}
use flow_routine.Prelude.Int.{ℤ, pos, eqb_ℤ}
use flow_routine.Prelude.Result.{Result, ok, err, ◌>>=◌, ◌>>◌, guard}
use flow_routine.Config.{ExecutionPlan, ExecutionPlanStep}
use flow_routine.Plan.{Instruction, CompiledExecutionStep, execution_adjacency}
use flow_routine.Plan.Graph.{execution_predecessors, validate_execution_reachability}
use flow_routine.Plan.Dominators.{execution_dominators}
use flow_routine.Plan.Targets.{
  CompileError, unsupported_schema, step_count, missing_entry, missing_scenario_steps,
  entry_not_request, unreachable, too_many_transitions, unfinished, or_error, is_some,
  execution_plan_id, lookup,
}
use flow_routine.Plan.Scenario.{CompiledStep}
use flow_routine.Plan.Loops.{validate_bounded_execution_loops}
use flow_routine.Plan.Branches.{validate_structured_branches}
use flow_routine.Plan.Requests.{
  with_request, scenario_at, attach_planned_assertions, validate_planned_templates,
}
use flow_routine.Plan.Instructions.{CompileState, index_scenario, index_steps, compile_instructions}

abbrev pub execution_plan_schema_version : ℤ
execution_plan_schema_version = pos 1

abbrev pub max_execution_plan_steps : ℕ
max_execution_plan_steps = 1_024

abbrev pub max_execution_transitions : ℕ
max_execution_transitions = 100_000

pub record CompiledExecutionPlan : Type 0 where
  pub entry : ℕ
  pub steps : List CompiledExecutionStep
  pub max_transitions : ℕ
  pub route_count : ℕ

unfoldable pub iterations_of : Instruction → ℕ
iterations_of (Instruction.loop body exit max_iterations) = max_iterations
iterations_of _ = 0

-- `steps[index].maxIterations`.
unfoldable pub iterations_at : List CompiledExecutionStep → ℕ → ℕ
unfolding iterations_of
iterations_at [] index = 0
iterations_at (s ∷ rest) zero = iterations_of s.instruction
iterations_at (s ∷ rest) (suc index) = iterations_at rest index

-- The loop that adds up `maximum`.
unfoldable pub add_transitions : List CompiledExecutionStep → List (ℕ × ℕ) → ℕ → ℕ
unfolding iterations_at
add_transitions steps [] maximum = maximum
add_transitions steps ((loop_index, body_size) ∷ rest) maximum =
    let iterations = iterations_at steps loop_index in
    add_transitions steps rest ((maximum + iterations * (body_size + 1)) % 2 ^ 64)

-- The part that compiles the steps: `compiled` without its transitions, and `stepsByID`.
unfoldable pub compile_steps :
    ExecutionPlan
    → List CompiledStep
    → Result CompileError (CompiledExecutionPlan × List (String × ℕ))
unfolding index_steps index_scenario compile_instructions
compile_steps plan scenario = do
  guard (eqb_ℤ plan.schema_version execution_plan_schema_version) unsupported_schema
  guard (leb 1 (length plan.steps) && leb (length plan.steps) max_execution_plan_steps) step_count
  indexed ← index_steps 0 plan.steps []
  entry_id ← execution_plan_id plan.entry_step_id
  entry ← or_error missing_entry (lookup indexed.1 entry_id)
  compiled ←
      compile_instructions plan.steps (index_scenario 0 scenario []) indexed.1 indexed.0 plan.steps
        (record { used = []; route_metric_index = 0 })
  guard (length compiled.1.used == length scenario) missing_scenario_steps
  guard (is_some (with_request scenario (scenario_at compiled.0 entry))) entry_not_request
  ok (
    record {
      entry = entry;
      steps = compiled.0;
      max_transitions = 0;
      route_count = compiled.1.route_metric_index;
    },
    indexed.1,
  )

-- The part that checks the graph of the compiled steps.
unfoldable pub check_graph :
    ExecutionPlan
    → List CompiledStep
    → List (String × String)
    → CompiledExecutionPlan × List (String × ℕ)
    → Result CompileError (CompiledExecutionPlan × List CompiledStep)
unfolding validate_bounded_execution_loops validate_structured_branches attach_planned_assertions
    validate_planned_templates add_transitions
check_graph plan scenario variables (compiled, steps_by_id) =
    let adjacency = execution_adjacency compiled.steps false in
    do
      reached ← or_error unfinished (validate_execution_reachability compiled.entry adjacency)
      guard reached unreachable
      loops ← validate_bounded_execution_loops compiled.steps
      validate_structured_branches compiled.steps loops.1
      dominators ←
          or_error unfinished
            (execution_dominators compiled.entry (execution_predecessors adjacency))
      attached ← attach_planned_assertions compiled.steps scenario plan.steps steps_by_id dominators
      validate_planned_templates compiled.steps attached variables dominators
      let maximum = add_transitions compiled.steps loops.0 (length compiled.steps)
      guard (leb maximum max_execution_transitions) too_many_transitions
      ok (record compiled { max_transitions = maximum }, attached)

-- `compileExecutionPlan`, of a plan that is not nil.
unfoldable pub compile_execution_plan :
    ExecutionPlan
    → List CompiledStep
    → List (String × String)
    → Result CompileError (CompiledExecutionPlan × List CompiledStep)
unfolding compile_steps check_graph
compile_execution_plan plan scenario variables = do
  compiled ← compile_steps plan scenario
  check_graph plan scenario variables compiled
