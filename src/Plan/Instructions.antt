-- ===== src/Plan/Instructions.antt =====
-- internal/engine/execution_plan.go: the two loops of `compileExecutionPlan` over the steps of a plan,
-- which index their identifiers and compile their instructions. A weight is less than 2^64.
use flow_routine.Prelude.{
  ℕ, zero, suc, ◌+◌, ◌%◌, ◌^◌, Bool, true, false, ◌&&◌, ◌||◌, not, Option, List, [], ◌∷◌, leb, ◌==◌,
  if◌then◌else◌, length,
}
use Prim.Native.String.{String, ◌++◌ as append}
use flow_routine.Prelude.Int.{ℤ, pos, pos_part, leb_ℤ}
use flow_routine.Prelude.Text.{trim_space}
use flow_routine.Prelude.Result.{Result, ok, err, ◌>>=◌, ◌>>◌, guard}
use flow_routine.Config.{ExecutionPlanStep, ExecutionPlanStepKind, ExecutionRoute}
use flow_routine.Plan.{Instruction, CompiledExecutionRoute, CompiledExecutionStep}
use flow_routine.Plan.Scenario.{CompiledStep}
use flow_routine.Plan.Targets

abbrev pub max_branch_routes : ℕ
max_branch_routes = 32

abbrev pub max_branch_route_weight : ℤ
max_branch_route_weight = pos 1_000_000

abbrev pub max_loop_iterations : ℤ
max_loop_iterations = pos 1_000

abbrev pub in_range : ℤ → ℤ → Bool
in_range maximum value = leb_ℤ (pos 1) value && leb_ℤ value maximum

-- `scenarioByID`, from an index on.
unfoldable pub index_scenario : ℕ → List CompiledStep → Targets.Names → Targets.Names
index_scenario index [] known = known
index_scenario index (s ∷ rest) known = index_scenario (index + 1) rest ((s.id, index) ∷ known)

-- The first loop: the identifiers and `stepsByID`.
unfoldable pub index_steps :
    ℕ
    → List ExecutionPlanStep
    → Targets.Names
    → Result Targets.CompileError (List String × Targets.Names)
unfolding Targets.execution_plan_id Targets.lookup
index_steps index [] known = ok ([], known)
index_steps index (definition ∷ rest) known = do
  id ← Targets.execution_plan_id definition.id
  guard (not (Targets.is_some (Targets.lookup known id))) Targets.duplicate_step
  later ← index_steps (index + 1) rest ((id, index) ∷ known)
  ok (id ∷ later.0, later.1)

unfoldable pub is_join_kind : ExecutionPlanStepKind → Bool
is_join_kind ExecutionPlanStepKind.join = true
is_join_kind _ = false

-- `plan.Steps[index].Kind == ExecutionStepJoin`.
unfoldable pub is_join_at : List ExecutionPlanStep → ℕ → Bool
unfolding is_join_kind
is_join_at [] index = false
is_join_at (d ∷ rest) zero = is_join_kind d.kind
is_join_at (d ∷ rest) (suc index) = is_join_at rest index

unfoldable pub has_name : List String → String → Bool
has_name [] name = false
has_name (other ∷ rest) name = Targets.same_name other name || has_name rest name

unfoldable pub has_index : List ℕ → ℕ → Bool
has_index [] index = false
has_index (other ∷ rest) index = other == index || has_index rest index

-- The loop over the routes of a branch: the compiled ones, and the sum of the weights.
unfoldable pub compile_routes :
    Targets.Names
    → String
    → List ExecutionRoute
    → List String
    → ℕ
    → ℕ
    → Result Targets.CompileError (List CompiledExecutionRoute × ℕ)
unfolding has_name Targets.resolve_required_execution_target trim_space
compile_routes steps_by_id branch_id [] seen total metric = ok ([], total)
compile_routes steps_by_id branch_id (route ∷ rest) seen total metric =
    let trimmed = trim_space route.name in
    do
      id ← Targets.execution_plan_id route.id
      guard (not (has_name seen id)) Targets.duplicate_route
      guard (in_range max_branch_route_weight route.weight) Targets.route_weight_range
      target ← Targets.resolve_required_execution_target route.target_step_id steps_by_id
      let name = if Targets.same_name trimmed "" then id else trimmed
      Targets.validate_scenario_step_text name Targets.max_scenario_step_name_bytes
      let weight = pos_part route.weight
      later ←
          compile_routes steps_by_id branch_id rest (id ∷ seen) ((total + weight) % 2 ^ 64)
            (metric + 1)
      ok (
        record {
          id = id;
          name = name;
          target = target;
          weight = weight;
          metrics_index = metric;
          scope_key = append branch_id (append ":" id);
        }
            ∷ later.0,
        later.1,
      )

-- The join of a branch; its errors are looked at after the routes.
unfoldable pub resolve_join :
    List ExecutionPlanStep → Targets.Names → String → Result Targets.CompileError ℕ
unfolding Targets.resolve_required_execution_target is_join_at
resolve_join definitions steps_by_id id = do
  join ← Targets.resolve_required_execution_target id steps_by_id
  guard (is_join_at definitions join) Targets.join_kind
  ok join

-- The body and the exit of a loop.
unfoldable pub resolve_loop :
    Targets.Names → ExecutionPlanStep → Result Targets.CompileError (ℕ × Option ℕ)
unfolding Targets.resolve_required_execution_target Targets.resolve_optional_execution_target
resolve_loop steps_by_id definition = do
  body ← Targets.resolve_required_execution_target definition.body_step_id steps_by_id
  exit ← Targets.resolve_optional_execution_target definition.exit_step_id steps_by_id
  ok (body, exit)

-- What the second loop changes: `usedScenarioSteps` and `routeMetricIndex`.
pub record CompileState : Type 0 where
  pub used : List ℕ
  pub route_metric_index : ℕ

module _ (definitions : List ExecutionPlanStep) (scenario_by_id steps_by_id : Targets.Names) where
  unfoldable pub compile_scenario :
      String
      → ExecutionPlanStep
      → CompileState
      → Result Targets.CompileError (Instruction × CompileState)
  unfolding Targets.lookup has_index Targets.resolve_optional_execution_target
  compile_scenario id definition progress = do
    index ← Targets.or_error Targets.unknown_scenario_step (Targets.lookup scenario_by_id id)
    guard (not (has_index progress.used index)) Targets.repeated_scenario_step
    next ← Targets.resolve_optional_execution_target definition.next_step_id steps_by_id
    ok (Instruction.scenario index next, record progress { used = index ∷ progress.used })

  unfoldable pub compile_branch :
      String
      → ExecutionPlanStep
      → CompileState
      → Result Targets.CompileError (Instruction × CompileState)
  unfolding compile_routes resolve_join
  compile_branch id definition progress =
      let routes = definition.routes in
      do
        guard (leb 2 (length routes) && leb (length routes) max_branch_routes) Targets.route_count
        compiled ← compile_routes steps_by_id id routes [] 0 progress.route_metric_index
        guard (not (compiled.1 == 0)) Targets.zero_route_weight
        join ← resolve_join definitions steps_by_id definition.join_step_id
        ok (
          Instruction.branch compiled.0 compiled.1 join,
          record progress { route_metric_index = progress.route_metric_index + length routes },
        )

  unfoldable pub compile_join :
      ExecutionPlanStep → CompileState → Result Targets.CompileError (Instruction × CompileState)
  unfolding Targets.resolve_optional_execution_target
  compile_join definition progress = do
    next ← Targets.resolve_optional_execution_target definition.next_step_id steps_by_id
    ok (Instruction.join next, progress)

  unfoldable pub compile_loop :
      ExecutionPlanStep → CompileState → Result Targets.CompileError (Instruction × CompileState)
  unfolding resolve_loop
  compile_loop definition progress = do
    guard (in_range max_loop_iterations definition.max_iterations) Targets.iteration_range
    targets ← resolve_loop steps_by_id definition
    ok (Instruction.loop targets.0 targets.1 (pos_part definition.max_iterations), progress)

  -- `switch definition.Kind`.
  unfoldable pub compile_instruction :
      String
      → ExecutionPlanStep
      → ExecutionPlanStepKind
      → CompileState
      → Result Targets.CompileError (Instruction × CompileState)
  unfolding compile_scenario compile_branch compile_join compile_loop
  compile_instruction id definition ExecutionPlanStepKind.step progress =
      compile_scenario id definition progress
  compile_instruction id definition ExecutionPlanStepKind.branch progress =
      compile_branch id definition progress
  compile_instruction id definition ExecutionPlanStepKind.join progress =
      compile_join definition progress
  compile_instruction id definition ExecutionPlanStepKind.loop progress =
      compile_loop definition progress
  compile_instruction id definition (ExecutionPlanStepKind.unknown kind) progress =
      err Targets.unsupported_kind

  -- The second loop, over the steps with their identifiers.
  unfoldable pub compile_instructions :
      List String
      → List ExecutionPlanStep
      → CompileState
      → Result Targets.CompileError (List CompiledExecutionStep × CompileState)
  unfolding compile_instruction
  compile_instructions [] rest progress = ok ([], progress)
  compile_instructions (id ∷ ids) [] progress = ok ([], progress)
  compile_instructions (id ∷ ids) (definition ∷ rest) progress = do
    here ← compile_instruction id definition definition.kind progress
    later ← compile_instructions ids rest here.1
    ok (record { id = id; instruction = here.0 } ∷ later.0, later.1)
