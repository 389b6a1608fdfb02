-- ===== src/Config.antt =====
-- internal/engine/config.go and profile.go: the configuration that the engine is started with.
-- A string whose values are a fixed set of constants is a data type with a constructor for each, one
-- for the empty string and one for every other string. Durations are in nanoseconds.
-- A byte slice is a list of bytes; a map is an association list.
use Prim.Native.String.{String}
use flow_routine.Prelude.{ℕ, List, Option}
use flow_routine.Prelude.Int.{ℤ}

pub record Header : Type 0 where
  pub name : String
  pub value : String

pub data LoadMode : Type 0 where
  unset constant_vus ramping_vus constant_arrival ramping_arrival : LoadMode
  unknown : String → LoadMode

pub record LoadStage : Type 0 where
  pub duration : ℤ
  pub target : ℤ

pub record LoadProfile : Type 0 where
  pub mode : LoadMode
  pub start_target : ℤ
  pub stages : List LoadStage
  pub pre_allocated_vus : ℤ
  pub max_vus : ℤ
  pub graceful_stop : ℤ

pub data ExecutionPlanStepKind : Type 0 where
  step branch join loop : ExecutionPlanStepKind
  unknown : String → ExecutionPlanStepKind

pub record ExecutionRoute : Type 0 where
  pub id : String
  pub name : String
  pub target_step_id : String
  pub weight : ℤ

pub record ExecutionPlanStep : Type 0 where
  pub id : String
  pub kind : ExecutionPlanStepKind
  pub next_step_id : String
  pub request_step_id : String
  pub routes : List ExecutionRoute
  pub join_step_id : String
  pub body_step_id : String
  pub exit_step_id : String
  pub max_iterations : ℤ

pub record ExecutionPlan : Type 0 where
  pub schema_version : ℤ
  pub entry_step_id : String
  pub steps : List ExecutionPlanStep

pub data StepKind : Type 0 where
  unset request delay assert assert_status : StepKind
  unknown : String → StepKind

-- The strings of an assertion are compared after `strings.TrimSpace`, so they stay strings.
pub record Assertion : Type 0 where
  pub type_name : String
  pub operator : String
  pub header_name : String
  pub json_path : String
  pub expected : String
  pub value_type : String
  pub max_latency : ℤ
  pub failure_mode : String

pub record VariableCapture : Type 0 where
  pub name : String
  pub path : String
  pub scope : String
  pub on_status : String

pub record ScenarioStep : Type 0 where
  pub id : String
  pub name : String
  pub kind : StepKind
  pub url : String
  pub method : String
  pub headers : List Header
  pub body : List ℕ
  pub delay : ℤ
  pub expected_status : String
  pub assertion : Assertion
  pub captures : List VariableCapture

-- The fields of `Config` that say what each iteration does.
pub record Scenario : Type 0 where
  pub url : String
  pub method : String
  pub headers : List Header
  pub body : List ℕ
  pub scenario_steps : List ScenarioStep
  pub execution_plan : Option ExecutionPlan
  pub runtime_variables : List (String × String)

-- `Config`: those fields, and the ones that say how much load there is.
pub record Config : Type 0 where
  pub scenario : Scenario
  pub open scenario use *
  pub virtual_users : ℤ
  pub duration : ℤ
  pub request_timeout : ℤ
  pub max_conns_per_host : ℤ
  pub read_buffer_size : ℤ
  pub write_buffer_size : ℤ
  pub max_response_bytes : ℤ
  pub latency_sample_rate : ℤ
  pub rate_limit_rps : ℤ
  pub ramp_up : ℤ
  pub profile : Option LoadProfile
