-- ===== src/Plan/Scenario.antt =====
-- internal/engine/config.go: the compiled steps of a scenario, with the fields that
-- `compileExecutionPlan` reads or sets; it carries the others along.
use flow_routine.Prelude.{ℕ, zero, suc, Option, none, some, List, [], ◌∷◌}
use Prim.Native.String.{String}

pub record CompiledVariableCapture : Type 0 where
  pub name : String
  pub path : List String
  pub scope : String
  pub on_status : String

pub record CompiledAssertion : Type 0 where
  pub result_index : ℕ
  pub request_metrics_index : ℕ

pub record CompiledRequestStep : Type 0 where
  pub metrics_index : ℕ
  pub client_index : ℕ
  pub captures : List CompiledVariableCapture
  pub template_names : List String
  pub assertions : List CompiledAssertion

-- The kind of a step, with the struct that the kind uses.
pub data CompiledAction : Type 0 where
  request : CompiledRequestStep → CompiledAction
  delay : ℕ → CompiledAction
  assertion : CompiledAssertion → CompiledAction

pub record CompiledStep : Type 0 where
  pub id : String
  pub name : String
  pub action : CompiledAction

-- The request of a step, if it is one.
unfoldable pub request_of : CompiledAction → Option CompiledRequestStep
request_of (request r) = some r
request_of _ = none

-- `scenarioSteps[index]`, which panics in Go if there is no such step.
unfoldable pub request_at : List CompiledStep → ℕ → Option CompiledRequestStep
unfolding request_of
request_at [] index = none
request_at (s ∷ rest) zero = request_of s.action
request_at (s ∷ rest) (suc index) = request_at rest index

-- `steps[index].action = value`.
unfoldable pub set_action : List CompiledStep → ℕ → CompiledAction → List CompiledStep
set_action [] index value = []
set_action (s ∷ rest) zero value = record s { action = value } ∷ rest
set_action (s ∷ rest) (suc index) value = s ∷ set_action rest index value
