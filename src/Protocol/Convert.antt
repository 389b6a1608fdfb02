-- ===== src/Protocol/Convert.antt =====
-- internal/distributed/protocol.go: `NewPlanConfig` and `EngineConfig`, with their helpers.
-- In the names, `from_engine` goes to the wire and `to_engine` comes back.
use flow_routine.Prelude.{ℕ, List, map}
use Prim.Native.String.{String}
use mathlib.Core.Option
use flow_routine.Prelude.Int.{ℤ, pos}
use flow_routine.Config
use flow_routine.Config.{Config}
use flow_routine.Protocol.Wire

abbrev pub plan_schema_version : ℤ
plan_schema_version = pos 1

unfoldable pub from_engine_header : Config.Header → Wire.Header
from_engine_header h = record { name = h.name; value = h.value }

unfoldable pub to_engine_header : Wire.Header → Config.Header
to_engine_header h = record { name = h.name; value = h.value }

unfoldable pub from_engine_stage : Config.LoadStage → Wire.LoadStage
from_engine_stage s = record { duration_ns = s.duration; target = s.target }

unfoldable pub to_engine_stage : Wire.LoadStage → Config.LoadStage
to_engine_stage s = record { duration = s.duration_ns; target = s.target }

unfoldable pub from_engine_profile : Config.LoadProfile → Wire.LoadProfile
unfolding from_engine_stage
from_engine_profile p = record {
  mode = p.mode;
  start_target = p.start_target;
  stages = map from_engine_stage p.stages;
  pre_allocated_vus = p.pre_allocated_vus;
  max_vus = p.max_vus;
  graceful_stop_ns = p.graceful_stop;
}

unfoldable pub to_engine_profile : Wire.LoadProfile → Config.LoadProfile
unfolding to_engine_stage
to_engine_profile p = record {
  mode = p.mode;
  start_target = p.start_target;
  stages = map to_engine_stage p.stages;
  pre_allocated_vus = p.pre_allocated_vus;
  max_vus = p.max_vus;
  graceful_stop = p.graceful_stop_ns;
}

unfoldable pub from_engine_assertion : Config.Assertion → Wire.Assertion
from_engine_assertion a = record {
  type_name = a.type_name;
  operator = a.operator;
  header_name = a.header_name;
  json_path = a.json_path;
  expected = a.expected;
  value_type = a.value_type;
  max_latency_ns = a.max_latency;
  failure_mode = a.failure_mode;
}

unfoldable pub to_engine_assertion : Wire.Assertion → Config.Assertion
to_engine_assertion a = record {
  type_name = a.type_name;
  operator = a.operator;
  header_name = a.header_name;
  json_path = a.json_path;
  expected = a.expected;
  value_type = a.value_type;
  max_latency = a.max_latency_ns;
  failure_mode = a.failure_mode;
}

unfoldable pub from_engine_capture : Config.VariableCapture → Wire.VariableCapture
from_engine_capture c = record {
  name = c.name;
  path = c.path;
  scope = c.scope;
  on_status = c.on_status;
}

unfoldable pub to_engine_capture : Wire.VariableCapture → Config.VariableCapture
to_engine_capture c = record {
  name = c.name;
  path = c.path;
  scope = c.scope;
  on_status = c.on_status;
}

unfoldable pub from_engine_step : Config.ScenarioStep → Wire.ScenarioStep
unfolding from_engine_header from_engine_assertion from_engine_capture
from_engine_step s = record {
  id = s.id;
  name = s.name;
  kind = s.kind;
  url = s.url;
  method = s.method;
  headers = map from_engine_header s.headers;
  body = s.body;
  delay_ns = s.delay;
  expected_status = s.expected_status;
  assertion = from_engine_assertion s.assertion;
  captures = map from_engine_capture s.captures;
}

unfoldable pub to_engine_step : Wire.ScenarioStep → Config.ScenarioStep
unfolding to_engine_header to_engine_assertion to_engine_capture
to_engine_step s = record {
  id = s.id;
  name = s.name;
  kind = s.kind;
  url = s.url;
  method = s.method;
  headers = map to_engine_header s.headers;
  body = s.body;
  delay = s.delay_ns;
  expected_status = s.expected_status;
  assertion = to_engine_assertion s.assertion;
  captures = map to_engine_capture s.captures;
}

unfoldable pub from_engine_route : Config.ExecutionRoute → Wire.ScenarioExecutionRoute
from_engine_route r = record {
  id = r.id;
  name = r.name;
  target_step_id = r.target_step_id;
  weight = r.weight;
}

unfoldable pub to_engine_route : Wire.ScenarioExecutionRoute → Config.ExecutionRoute
to_engine_route r = record {
  id = r.id;
  name = r.name;
  target_step_id = r.target_step_id;
  weight = r.weight;
}

unfoldable pub from_engine_plan_step : Config.ExecutionPlanStep → Wire.ScenarioExecutionPlanStep
unfolding from_engine_route
from_engine_plan_step s = record {
  id = s.id;
  kind = s.kind;
  next_step_id = s.next_step_id;
  request_step_id = s.request_step_id;
  routes = map from_engine_route s.routes;
  join_step_id = s.join_step_id;
  body_step_id = s.body_step_id;
  exit_step_id = s.exit_step_id;
  max_iterations = s.max_iterations;
}

unfoldable pub to_engine_plan_step : Wire.ScenarioExecutionPlanStep → Config.ExecutionPlanStep
unfolding to_engine_route
to_engine_plan_step s = record {
  id = s.id;
  kind = s.kind;
  next_step_id = s.next_step_id;
  request_step_id = s.request_step_id;
  routes = map to_engine_route s.routes;
  join_step_id = s.join_step_id;
  body_step_id = s.body_step_id;
  exit_step_id = s.exit_step_id;
  max_iterations = s.max_iterations;
}

unfoldable pub from_engine_execution_plan : Config.ExecutionPlan → Wire.ScenarioExecutionPlan
unfolding from_engine_plan_step
from_engine_execution_plan p = record {
  schema_version = p.schema_version;
  entry_step_id = p.entry_step_id;
  steps = map from_engine_plan_step p.steps;
}

unfoldable pub to_engine_execution_plan : Wire.ScenarioExecutionPlan → Config.ExecutionPlan
unfolding to_engine_plan_step
to_engine_execution_plan p = record {
  schema_version = p.schema_version;
  entry_step_id = p.entry_step_id;
  steps = map to_engine_plan_step p.steps;
}

unfoldable pub new_plan_config : Config → Wire.PlanConfig
unfolding from_engine_header from_engine_profile from_engine_step from_engine_execution_plan
new_plan_config cfg = record {
  url = cfg.url;
  method = cfg.method;
  headers = map from_engine_header cfg.headers;
  body = cfg.body;
  virtual_users = cfg.virtual_users;
  duration_ns = cfg.duration;
  request_timeout_ns = cfg.request_timeout;
  max_conns_per_host = cfg.max_conns_per_host;
  read_buffer_size = cfg.read_buffer_size;
  write_buffer_size = cfg.write_buffer_size;
  max_response_bytes = cfg.max_response_bytes;
  latency_sample_rate = cfg.latency_sample_rate;
  rate_limit_rps = cfg.rate_limit_rps;
  ramp_up_ns = cfg.ramp_up;
  profile = Option.map from_engine_profile cfg.profile;
  scenario_steps = map from_engine_step cfg.scenario_steps;
  execution_plan = Option.map from_engine_execution_plan cfg.execution_plan;
}

unfoldable pub engine_config : Wire.PlanConfig → List (String × String) → Config
unfolding to_engine_header to_engine_profile to_engine_step to_engine_execution_plan
engine_config cfg runtime_bindings = record {
  scenario = record {
    url = cfg.url;
    method = cfg.method;
    headers = map to_engine_header cfg.headers;
    body = cfg.body;
    scenario_steps = map to_engine_step cfg.scenario_steps;
    execution_plan = Option.map to_engine_execution_plan cfg.execution_plan;
    runtime_variables = runtime_bindings;
  };
  virtual_users = cfg.virtual_users;
  duration = cfg.duration_ns;
  request_timeout = cfg.request_timeout_ns;
  max_conns_per_host = cfg.max_conns_per_host;
  read_buffer_size = cfg.read_buffer_size;
  write_buffer_size = cfg.write_buffer_size;
  max_response_bytes = cfg.max_response_bytes;
  latency_sample_rate = cfg.latency_sample_rate;
  rate_limit_rps = cfg.rate_limit_rps;
  ramp_up = cfg.ramp_up_ns;
  profile = Option.map to_engine_profile cfg.profile;
}

unfoldable pub new_execution_plan : String → ℕ → Config → Wire.ExecutionPlan
unfolding new_plan_config
new_execution_plan id revision cfg = record {
  schema_version = plan_schema_version;
  id = id;
  revision = revision;
  config = new_plan_config cfg;
}
