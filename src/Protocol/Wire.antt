-- ===== src/Protocol/Wire.antt =====
-- internal/distributed/protocol.go: the types that travel as JSON. They repeat the types of the
-- engine's configuration field by field, without the runtime variables.
use flow_routine.Prelude.{ℕ, Option, List}
use Prim.Native.String.{String}
use flow_routine.Prelude.Int.{ℤ}
use flow_routine.Config.{LoadMode, ExecutionPlanStepKind, StepKind}

pub record Header : Type 0 where
  pub name : String
  pub value : String

pub record LoadStage : Type 0 where
  pub duration_ns : ℤ
  pub target : ℤ

pub record LoadProfile : Type 0 where
  pub mode : LoadMode
  pub start_target : ℤ
  pub stages : List LoadStage
  pub pre_allocated_vus : ℤ
  pub max_vus : ℤ
  pub graceful_stop_ns : ℤ

pub record Assertion : Type 0 where
  pub type_name : String
  pub operator : String
  pub header_name : String
  pub json_path : String
  pub expected : String
  pub value_type : String
  pub max_latency_ns : ℤ
  pub failure_mode : String

pub record VariableCapture : Type 0 where
  pub name : String
  pub path : String
  pub scope : String
  pub on_status : String

pub record ScenarioStep : Type 0 where
  pub id : String
  pub name : String
  pub kind : StepKind
  pub url : String
  pub method : String
  pub headers : List Header
  pub body : List ℕ
  pub delay_ns : ℤ
  pub expected_status : String
  pub assertion : Assertion
  pub captures : List VariableCapture

pub record ScenarioExecutionRoute : Type 0 where
  pub id : String
  pub name : String
  pub target_step_id : String
  pub weight : ℤ

pub record ScenarioExecutionPlanStep : Type 0 where
  pub id : String
  pub kind : ExecutionPlanStepKind
  pub next_step_id : String
  pub request_step_id : String
  pub routes : List ScenarioExecutionRoute
  pub join_step_id : String
  pub body_step_id : String
  pub exit_step_id : String
  pub max_iterations : ℤ

pub record ScenarioExecutionPlan : Type 0 where
  pub schema_version : ℤ
  pub entry_step_id : String
  pub steps : List ScenarioExecutionPlanStep

pub record PlanConfig : Type 0 where
  pub url : String
  pub method : String
  pub headers : List Header
  pub body : List ℕ
  pub virtual_users : ℤ
  pub duration_ns : ℤ
  pub request_timeout_ns : ℤ
  pub max_conns_per_host : ℤ
  pub read_buffer_size : ℤ
  pub write_buffer_size : ℤ
  pub max_response_bytes : ℤ
  pub latency_sample_rate : ℤ
  pub rate_limit_rps : ℤ
  pub ramp_up_ns : ℤ
  pub profile : Option LoadProfile
  pub scenario_steps : List ScenarioStep
  pub execution_plan : Option ScenarioExecutionPlan

-- `distributed.ExecutionPlan`.
pub record ExecutionPlan : Type 0 where
  pub schema_version : ℤ
  pub id : String
  pub revision : ℕ
  pub config : PlanConfig
