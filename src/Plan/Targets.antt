-- ===== src/Plan/Targets.antt =====
-- internal/engine/execution_plan.go: `executionPlanID` and the targets that the steps of a plan name, and
-- internal/engine/config.go: `validateScenarioStepText`. A map from names to indexes is an association
-- list with the newest entry first.
use flow_routine.Prelude.{
  ℕ, Bool, true, false, not, Option, none, some, List, [], ◌∷◌, leb, if◌then◌else◌,
}
use Prim.Native.String.{String, len, compare}
use text.Mathlib.Text
use flow_routine.Prelude.Text.{trim_space, any_control}
use flow_routine.Prelude.Result.{Result, ok, err, ◌>>=◌, ◌>>◌, guard}

-- One constructor for each error of `compileExecutionPlan`; `unfinished` is no error of the code, it says
-- that a loop ran out of fuel.
pub data CompileError : Type 0 where
  unsupported_schema step_count : CompileError
  id_required outer_whitespace text_too_long control_character : CompileError
  duplicate_step missing_entry missing_target unknown_scenario_step repeated_scenario_step :
      CompileError
  route_count join_kind duplicate_route route_weight_range zero_route_weight : CompileError
  iteration_range unsupported_kind missing_scenario_steps entry_not_request unreachable :
      CompileError
  unbounded_cycle loop_without_return loop_escape nested_loop loop_exit_inside : CompileError
  shared_join route_without_join route_bypass routes_merge nested_branch unowned_join : CompileError
  not_a_request request_not_on_every_path undefined_template : CompileError
  too_many_transitions unfinished : CompileError

abbrev pub Names : Type 0
Names = List (String × ℕ)

abbrev pub same_name : String → String → Bool
same_name a b = Text.is_eq (compare a b)

unfoldable pub lookup : Names → String → Option ℕ
lookup [] name = none
lookup ((key, index) ∷ rest) name =
    let later = lookup rest name in if same_name key name then some index else later

unfoldable pub is_some {ℓ} : {A : Type ℓ} → Option A → Bool
is_some none = false
is_some (some a) = true

abbrev pub or_error {ℓ} : {A : Type ℓ} → CompileError → Option A → Result CompileError A
or_error e none = err e
or_error e (some a) = ok a

abbrev pub max_scenario_step_id_bytes : ℕ
max_scenario_step_id_bytes = 128

abbrev pub max_scenario_step_name_bytes : ℕ
max_scenario_step_name_bytes = 256

-- `validateScenarioStepText`.
unfoldable pub validate_scenario_step_text : String → ℕ → Result CompileError (Unit {0})
unfolding any_control
validate_scenario_step_text value maximum = do
  guard (leb (len value) maximum) text_too_long
  guard (not (any_control value)) control_character

-- `executionPlanID`.
unfoldable pub execution_plan_id : String → Result CompileError String
unfolding trim_space validate_scenario_step_text
execution_plan_id value =
    let trimmed = trim_space value in
    do
      guard (not (same_name trimmed "")) id_required
      guard (same_name trimmed value) outer_whitespace
      validate_scenario_step_text trimmed max_scenario_step_id_bytes
      ok trimmed

-- `resolveRequiredExecutionTarget`.
unfoldable pub resolve_required_execution_target : String → Names → Result CompileError ℕ
unfolding execution_plan_id lookup
resolve_required_execution_target id steps_by_id = do
  trimmed ← execution_plan_id id
  or_error missing_target (lookup steps_by_id trimmed)

-- `resolveOptionalExecutionTarget`; -1 is `none`.
unfoldable pub resolve_optional_execution_target : String → Names → Result CompileError (Option ℕ)
unfolding resolve_required_execution_target
resolve_optional_execution_target id steps_by_id =
    if same_name id ""
    then ok none
    else do target ← resolve_required_execution_target id steps_by_id; ok (some target)
