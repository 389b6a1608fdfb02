-- ===== src/Protocol/Identifier.antt =====
-- internal/distributed/protocol.go: `validateIdentifier` and the validation of a plan. A text is its
-- characters; Go's strings that are not UTF-8 are not represented.
use flow_routine.Prelude.{ℕ, not, List, leb, ◌==◌}
use Prim.Native.String.{String, len, compare}
use flow_routine.Prelude.Text.{trim_space, any_control}
use text.Mathlib.Text
use flow_routine.Prelude.Int.{eqb_ℤ}
use flow_routine.Prelude.Result.{Result, ok, err, ◌>>◌, guard}
use flow_routine.Validate.{ScenarioChecks, ConfigError, validate_config}
use flow_routine.Protocol.Wire
use flow_routine.Protocol.Convert.{engine_config, plan_schema_version}

pub data IdentifierError : Type 0 where
  required outer_whitespace too_long control_character : IdentifierError

abbrev pub max_identifier_bytes : ℕ
max_identifier_bytes = 128

-- `len(value)` counts bytes, and so does `len`.
unfoldable pub validate_identifier : String → Result IdentifierError (Unit {0})
unfolding any_control trim_space
validate_identifier value =
    let trimmed = trim_space value in
    do
      guard (not (Text.is_eq (compare trimmed ""))) required
      guard (Text.is_eq (compare value trimmed)) outer_whitespace
      guard (leb (len value) max_identifier_bytes) too_long
      guard (not (any_control value)) control_character

pub data PlanError : Type 0 where
  schema_version zero_revision : PlanError
  plan_id : IdentifierError → PlanError
  plan_config : ConfigError → PlanError

abbrev pub or_plan_id : Result IdentifierError (Unit {0}) → Result PlanError (Unit {0})
or_plan_id (ok a) = ok a
or_plan_id (err e) = err (plan_id e)

abbrev pub or_plan_config : Result ConfigError (Unit {0}) → Result PlanError (Unit {0})
or_plan_config (ok a) = ok a
or_plan_config (err e) = err (plan_config e)

-- `ExecutionPlan.validate`.
unfoldable pub validate_plan :
    ScenarioChecks → Wire.ExecutionPlan → List (String × String) → Result PlanError (Unit {0})
unfolding validate_identifier
validate_plan checks plan runtime_bindings = do
  guard (eqb_ℤ plan.schema_version plan_schema_version) schema_version
  or_plan_id (validate_identifier plan.id)
  guard (not (plan.revision == 0)) zero_revision
  or_plan_config (validate_config checks (engine_config plan.config runtime_bindings))
