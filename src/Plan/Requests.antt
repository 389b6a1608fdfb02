-- ===== src/Plan/Requests.antt =====
-- internal/engine/execution_plan.go: `attachPlannedAssertions` and `validatePlannedTemplates`.
use flow_routine.Prelude.{
  ℕ, zero, suc, ◌+◌, Bool, true, false, ◌&&◌, ◌||◌, not, Option, none, some, List, [], ◌∷◌, ◌++◌,
  map, ◌==◌, if◌then◌else◌, get_elem?,
}
use Prim.Native.String.{String}
use mathlib.Core.Option
use flow_routine.Prelude.Result.{Result, ok, ◌>>=◌, ◌>>◌, guard}
use flow_routine.Config.{ExecutionPlanStep}
use flow_routine.Plan.{Instruction, CompiledExecutionStep}
use flow_routine.Plan.Dominators.{Row, has_execution_bit, row_of}
use flow_routine.Plan.Targets.{
  CompileError, Names, not_a_request, request_not_on_every_path, undefined_template, or_error,
  same_name, resolve_required_execution_target,
}
use flow_routine.Plan.Scenario.{
  CompiledStep, CompiledAction, request, assertion, CompiledAssertion, CompiledRequestStep,
  CompiledVariableCapture, request_at, set_action,
}

-- The scenario step of an instruction of the kind `compiledExecutionScenario`.
unfoldable pub scenario_of : Instruction → Option ℕ
scenario_of (Instruction.scenario index next) = some index
scenario_of _ = none

unfoldable pub scenario_at : List CompiledExecutionStep → ℕ → Option ℕ
unfolding scenario_of
scenario_at [] index = none
scenario_at (s ∷ rest) zero = scenario_of s.instruction
scenario_at (s ∷ rest) (suc index) = scenario_at rest index

-- The scenario index of the plan's step if that is a request, and the request.
abbrev pub with_request : List CompiledStep → Option ℕ → Option (ℕ × CompiledRequestStep)
with_request scenario none = none
with_request scenario (some index) = Option.map (λ r. (index, r)) (request_at scenario index)

-- The assignment to the assertion and `append(request.assertions, …)`.
unfoldable pub attach :
    ℕ → CompiledAssertion → ℕ × CompiledRequestStep → List CompiledStep → List CompiledStep
unfolding set_action
attach index a (request_index, r) scenario =
    let updated = record a { request_metrics_index = r.metrics_index } in
    set_action (set_action scenario index (assertion updated)) request_index
      (request (record r { assertions = r.assertions ++ updated ∷ [] }))

module _ (steps_by_id : Names) (dominators : List Row) (steps : List CompiledExecutionStep) where
  -- The body of the loop for a step of the scenario.
  unfoldable pub attach_action :
      ℕ
      → String
      → ℕ
      → Option CompiledAction
      → List CompiledStep
      → Result CompileError (List CompiledStep)
  unfolding resolve_required_execution_target scenario_at attach
  attach_action plan_index request_id index (some (assertion a)) scenario = do
    request_plan_index ← resolve_required_execution_target request_id steps_by_id
    found ← or_error not_a_request (with_request scenario (scenario_at steps request_plan_index))
    guard
        (not (request_plan_index == plan_index)
          && has_execution_bit (row_of dominators plan_index) request_plan_index)
        request_not_on_every_path
    ok (attach index a found scenario)
  attach_action plan_index request_id index _ scenario = ok scenario

  abbrev pub attach_instruction :
      ℕ → String → Option ℕ → List CompiledStep → Result CompileError (List CompiledStep)
  attach_instruction plan_index request_id none scenario = ok scenario
  attach_instruction plan_index request_id (some index) scenario =
      attach_action plan_index request_id index
        (Option.map (λ s. s.action) (get_elem? scenario index)) scenario

  -- The loop over the steps of the plan, with their definitions.
  unfoldable pub attach_from :
      ℕ
      → List CompiledExecutionStep
      → List ExecutionPlanStep
      → List CompiledStep
      → Result CompileError (List CompiledStep)
  unfolding attach_action scenario_of
  attach_from plan_index [] definitions scenario = ok scenario
  attach_from plan_index (step ∷ rest) [] scenario = ok scenario
  attach_from plan_index (step ∷ rest) (definition ∷ later) scenario = do
    next ←
        attach_instruction plan_index definition.request_step_id (scenario_of step.instruction)
          scenario
    attach_from (plan_index + 1) rest later next

-- `attachPlannedAssertions`.
unfoldable pub attach_planned_assertions :
    List CompiledExecutionStep
    → List CompiledStep
    → List ExecutionPlanStep
    → Names
    → List Row
    → Result CompileError (List CompiledStep)
unfolding attach_from
attach_planned_assertions steps scenario definitions steps_by_id dominators =
    attach_from steps_by_id dominators steps 0 steps definitions scenario

abbrev pub capture_names : ℕ → List CompiledVariableCapture → Names
capture_names plan_index captures = map (λ c. (c.name, plan_index)) captures

unfoldable pub produced : ℕ → Option CompiledRequestStep → Names
produced plan_index none = []
produced plan_index (some r) = capture_names plan_index r.captures

abbrev pub produced_at : List CompiledStep → ℕ → Option ℕ → Names
produced_at scenario plan_index none = []
produced_at scenario plan_index (some index) = produced plan_index (request_at scenario index)

-- `producers`: each name with the steps that capture it.
unfoldable pub producers_from : List CompiledStep → ℕ → List CompiledExecutionStep → Names
unfolding produced scenario_of
producers_from scenario plan_index [] = []
producers_from scenario plan_index (step ∷ rest) =
    produced_at scenario plan_index (scenario_of step.instruction)
    ++ producers_from scenario (plan_index + 1) rest

abbrev pub is_step : ℕ → Option ℕ → Bool
is_step index none = false
is_step index (some other) = other == index

-- `planIndexByScenario[index]`: the last step that has it, and 0 if there is none.
unfoldable pub plan_index_of : ℕ → ℕ → List CompiledExecutionStep → ℕ → ℕ
unfolding scenario_of
plan_index_of index plan_index [] latest = latest
plan_index_of index plan_index (step ∷ rest) latest =
    plan_index_of index (plan_index + 1) rest
      (if is_step index (scenario_of step.instruction) then plan_index else latest)

unfoldable pub is_bound : List (String × String) → String → Bool
is_bound [] name = false
is_bound ((key, value) ∷ rest) name = same_name key name || is_bound rest name

-- A producer of the name runs on every path.
unfoldable pub is_available : List Row → ℕ → Names → String → Bool
is_available dominators plan_index [] name = false
is_available dominators plan_index ((key, producer) ∷ rest) name =
    same_name key name
      && (not (producer == plan_index) && has_execution_bit (row_of dominators plan_index) producer)
    || is_available dominators plan_index rest name

unfoldable pub all_available : List (String × String) → List Row → Names → ℕ → List String → Bool
unfolding is_bound is_available
all_available variables dominators producers plan_index [] = true
all_available variables dominators producers plan_index (name ∷ rest) =
    (is_bound variables name || is_available dominators plan_index producers name)
    && all_available variables dominators producers plan_index rest

abbrev pub templates_of : Option CompiledRequestStep → List String
templates_of none = []
templates_of (some r) = r.template_names

-- The loop over the steps of the scenario, from an index on.
unfoldable pub templates_from :
    List (String × String)
    → List Row
    → Names
    → List CompiledExecutionStep
    → ℕ
    → List CompiledStep
    → Bool
unfolding plan_index_of all_available request_at
templates_from variables dominators producers steps index [] = true
templates_from variables dominators producers steps index (s ∷ rest) =
    all_available variables dominators producers (plan_index_of index 0 steps 0)
      (templates_of (request_at (s ∷ []) 0))
    && templates_from variables dominators producers steps (index + 1) rest

-- `validatePlannedTemplates`.
unfoldable pub validate_planned_templates :
    List CompiledExecutionStep
    → List CompiledStep
    → List (String × String)
    → List Row
    → Result CompileError (Unit {0})
unfolding producers_from templates_from
validate_planned_templates steps scenario variables dominators =
    guard (templates_from variables dominators (producers_from scenario 0 steps) steps 0 scenario)
      undefined_template
