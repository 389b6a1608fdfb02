-- ===== src/Plan/Compile/Tests.antt =====
-- A plan with a branch, a join and a loop, compiled.
use flow_routine.Prelude.{
  get_elem?, map, ℕ, ◌+◌, ◌≤◌, ◌<◌, ◌≡◌, refl, ◌≢◌, ◌⊎◌, Bool, true, false, none, some, List, [],
  ◌∷◌, arith, take, drop,
}
use Prim.Native.String.{String}
use flow_routine.Prelude.Int.{pos}
use flow_routine.Prelude.Text.{trim_space}
use flow_routine.Prelude.Result.{ok, err}
use flow_routine.Config.{ExecutionPlan, ExecutionPlanStep, ExecutionPlanStepKind, ExecutionRoute}
use flow_routine.Plan.{
  Instruction, CompiledExecutionRoute, CompiledExecutionStep, execution_adjacency,
}
use flow_routine.Plan.Targets
use flow_routine.Plan.Scenario.{
  CompiledStep, CompiledRequestStep, request, delay, assertion, CompiledVariableCapture,
  CompiledAssertion, request_at,
}
use flow_routine.Plan.Graph.Paths.{Reach}
use flow_routine.Plan.Cycles.Ordered.{Ordered}
use flow_routine.Plan.Iteration.{Machine, Runtime, StepOutcome, run_planned_iteration}
use flow_routine.Plan.Iteration.Safe.{LoopsBounded}
use flow_routine.Plan.Targets.{same_name}
use flow_routine.Plan.Requests.{scenario_of, scenario_at, is_bound, validate_planned_templates}
use flow_routine.Plan.Compile.Regions.{LoopClosed}
use flow_routine.Plan.Compile.Joined.{BranchJoined}
use flow_routine.Plan.Compile.Owners.{owners_of}
use flow_routine.Plan.Compile.Attached.{kind_at, is_request}
use flow_routine.Plan.Compile.Producers.{Captures}
use flow_routine.Plan.Compile.Accepted.{
  compile_execution_plan-ends, compiled_iteration-returns, compiled_graph-bounded,
  compiled_scenario-once, compiled_loop-closed, compiled_branch-joined, Precedes,
  compiled_assertion-follows, compiled_template-defined,
}
use flow_routine.Plan.Compile.{CompiledExecutionPlan, compile_execution_plan}
use flow_routine.Plan.Cycles.{execution_cycle_node}
use flow_routine.Plan.Dominators.{execution_dominators}
use flow_routine.Plan.Forward.{forward_until}
use flow_routine.Plan.Graph.{
  visit_targets, validate_execution_reachability, reverse_reachable, execution_predecessors,
}
use flow_routine.Plan.Loops.{count_marks}

abbrev plain : String → ExecutionPlanStepKind → String → ExecutionPlanStep
plain id kind next = record {
  id = id;
  kind = kind;
  next_step_id = next;
  request_step_id = "";
  routes = [];
  join_step_id = "";
  body_step_id = "";
  exit_step_id = "";
  max_iterations = pos 0;
}

abbrev route_to : String → ℕ → ExecutionRoute
route_to target weight = record {
  id = target;
  name = "";
  target_step_id = target;
  weight = pos weight;
}

abbrev shop_steps : List ExecutionPlanStep
shop_steps =
    plain "login" ExecutionPlanStepKind.step "choose"
    ∷ record (plain "choose" ExecutionPlanStepKind.branch "") {
      routes = route_to "buy" 3 ∷ route_to "wait" 1 ∷ [];
      join_step_id = "meet";
    }
    ∷ plain "buy" ExecutionPlanStepKind.step "meet"
    ∷ plain "wait" ExecutionPlanStepKind.step "meet"
    ∷ plain "meet" ExecutionPlanStepKind.join "again"
    ∷ record (plain "again" ExecutionPlanStepKind.loop "") {
      body_step_id = "verify";
      max_iterations = pos 3;
    }
    ∷ record (plain "verify" ExecutionPlanStepKind.step "again") { request_step_id = "login" }
    ∷ []

abbrev shop_plan : ExecutionPlan
shop_plan = record { schema_version = pos 1; entry_step_id = "login"; steps = shop_steps }

abbrev request_step : ℕ → List CompiledVariableCapture → List String → CompiledRequestStep
request_step index captures names = record {
  metrics_index = index;
  client_index = 0;
  captures = captures;
  template_names = names;
  assertions = [];
}

abbrev token : CompiledVariableCapture
token = record { name = "token"; path = "token" ∷ []; scope = "iteration"; on_status = "" }

abbrev shop_scenario : List CompiledStep
shop_scenario =
    record { id = "login"; name = "login"; action = request (request_step 0 (token ∷ []) []) }
    ∷ record { id = "buy"; name = "buy"; action = request (request_step 1 [] ("token" ∷ [])) }
    ∷ record { id = "wait"; name = "wait"; action = delay 5 }
    ∷ record {
      id = "verify";
      name = "verify";
      action = assertion (record { result_index = 0; request_metrics_index = 0 });
    }
    ∷ []

abbrev choices : List CompiledExecutionRoute
choices =
    record {
      id = "buy";
      name = "buy";
      target = 2;
      weight = 3;
      metrics_index = 0;
      scope_key = "choose:buy";
    }
    ∷ record {
      id = "wait";
      name = "wait";
      target = 3;
      weight = 1;
      metrics_index = 1;
      scope_key = "choose:wait";
    }
    ∷ []

abbrev buy_step : CompiledExecutionStep
buy_step = record { id = "buy"; instruction = Instruction.scenario 1 (some 4) }

abbrev wait_step : CompiledExecutionStep
wait_step = record { id = "wait"; instruction = Instruction.scenario 2 (some 4) }

abbrev verify_step : CompiledExecutionStep
verify_step = record { id = "verify"; instruction = Instruction.scenario 3 (some 5) }

abbrev again_step : CompiledExecutionStep
again_step = record { id = "again"; instruction = Instruction.loop 6 none 3 }

abbrev choose_step : CompiledExecutionStep
choose_step = record { id = "choose"; instruction = Instruction.branch choices 4 4 }

abbrev shop_compiled : CompiledExecutionPlan
shop_compiled = record {
  entry = 0;
  steps =
      record { id = "login"; instruction = Instruction.scenario 0 (some 1) }
      ∷ choose_step
      ∷ buy_step
      ∷ wait_step
      ∷ record { id = "meet"; instruction = Instruction.join (some 5) }
      ∷ again_step
      ∷ verify_step
      ∷ [];
  max_transitions = 13;
  route_count = 2;
}

abbrev first_assertion : CompiledAssertion
first_assertion = record { result_index = 0; request_metrics_index = 0 }

abbrev shop_attached : List CompiledStep
shop_attached =
    record {
      id = "login";
      name = "login";
      action =
          request (record (request_step 0 (token ∷ []) []) { assertions = first_assertion ∷ [] });
    }
    ∷ record { id = "buy"; name = "buy"; action = request (request_step 1 [] ("token" ∷ [])) }
    ∷ record { id = "wait"; name = "wait"; action = delay 5 }
    ∷ record { id = "verify"; name = "verify"; action = assertion first_assertion }
    ∷ []

shop_compiles :
    compile_execution_plan shop_plan shop_scenario [] ≡ ok (shop_compiled, shop_attached)
unfolding compile_execution_plan Targets.is_some validate_execution_reachability execution_adjacency
    visit_targets execution_cycle_node reverse_reachable execution_predecessors forward_until
    execution_dominators count_marks
shop_compiles = refl

other_version :
    compile_execution_plan (record shop_plan { schema_version = pos 2 }) shop_scenario []
    ≡ err Targets.unsupported_schema
unfolding compile_execution_plan
other_version = refl

-- The request captures nothing.
no_token :
    compile_execution_plan shop_plan
      (record { id = "login"; name = "login"; action = request (request_step 0 [] []) }
        ∷ drop 1 shop_scenario)
      []
    ≡ err Targets.undefined_template
unfolding compile_execution_plan Targets.is_some validate_execution_reachability execution_adjacency
    visit_targets execution_cycle_node reverse_reachable execution_predecessors forward_until
    execution_dominators
no_token = refl

-- A variable of the run is enough.
run_token :
    validate_planned_templates shop_compiled.steps shop_scenario (("token", "abc") ∷ []) [] ≡ ok tt
unfolding validate_planned_templates
run_token = refl

-- The branch is left out of the scenario that the plan runs.
unknown_step :
    compile_execution_plan shop_plan (drop 1 shop_scenario) [] ≡ err Targets.unknown_scenario_step
unfolding compile_execution_plan Targets.is_some
unknown_step = refl

-- `retry` returns to the first step without a loop.
endless :
    compile_execution_plan
      (record {
        schema_version = pos 1;
        entry_step_id = "login";
        steps =
            plain "login" ExecutionPlanStepKind.step "buy"
            ∷ plain "buy" ExecutionPlanStepKind.step "login"
            ∷ [];
      })
      (take 2 shop_scenario)
      []
    ≡ err Targets.unbounded_cycle
unfolding compile_execution_plan Targets.is_some validate_execution_reachability execution_adjacency
    visit_targets execution_cycle_node
endless = refl

compile_execution_plan-ends_example :
    compile_execution_plan shop_plan shop_scenario [] ≢ err Targets.unfinished
compile_execution_plan-ends_example = compile_execution_plan-ends shop_plan shop_scenario []

-- A machine that counts its requests.
abbrev counting : Machine ℕ
counting = record {
  run_step = λ index routes s. (StepOutcome.step_continue, s + 1);
  record_route = λ index s. s;
  push_branch = λ key s. s;
  pop_branch = λ s. s;
}

compiled_iteration-returns_example :
    (completed : Bool) × (runtime : Runtime ℕ) × (run_planned_iteration counting 0 0
        shop_compiled.steps 0 13 0
      ≡ some (completed, runtime))
    × LoopsBounded counting 0 0 shop_compiled.steps runtime
compiled_iteration-returns_example =
    compiled_iteration-returns shop_plan shop_scenario [] shop_compiled shop_attached shop_compiles
      counting 0 0 0

compiled_graph-bounded_example :
    ((m : ℕ) → m < 7 → Reach (execution_adjacency shop_compiled.steps false) 0 m)
    × Ordered (execution_adjacency shop_compiled.steps true)
    × (13 ≤ 100_000)
compiled_graph-bounded_example =
    compiled_graph-bounded shop_plan shop_scenario [] shop_compiled shop_attached shop_compiles

compiled_scenario-once_example :
    (m : ℕ) × (scenario_at shop_compiled.steps m ≡ some 3)
    × ((other : ℕ) → scenario_at shop_compiled.steps other ≡ some 3 → other ≡ m)
compiled_scenario-once_example =
    compiled_scenario-once shop_plan shop_scenario [] shop_compiled shop_attached shop_compiles 3
      (omega arith)

compiled_loop-closed_example : LoopClosed shop_compiled.steps 5 6 none
compiled_loop-closed_example =
    compiled_loop-closed shop_plan shop_scenario [] shop_compiled shop_attached shop_compiles 5
      again_step 6 none 3 refl refl

compiled_branch-joined_example :
    BranchJoined shop_compiled.steps choices 4 × (owners_of 4 shop_compiled.steps ≡ 1)
compiled_branch-joined_example =
    compiled_branch-joined shop_plan shop_scenario [] shop_compiled shop_attached shop_compiles 1
      choose_step choices 4 4 refl refl

compiled_assertion-follows_example :
    (source : ℕ) × (j : ℕ) × (scenario_at shop_compiled.steps source ≡ some j)
    × (kind_at shop_scenario j ≡ is_request)
    × Precedes shop_plan shop_scenario [] shop_compiled shop_attached shop_compiles source 6
    × ((id : String) × (get_elem? (map (λ x. x.id) shop_compiled.steps) source ≡ some id)
        × (same_name id (trim_space "login") ≡ true))
unfolding scenario_of
compiled_assertion-follows_example =
    compiled_assertion-follows shop_plan shop_scenario [] shop_compiled shop_attached shop_compiles
      6 3 verify_step
      (record (plain "verify" ExecutionPlanStepKind.step "again") { request_step_id = "login" })
      refl refl refl refl

compiled_template-defined_example :
    (is_bound [] "token" ≡ true)
    ⊎ ((source : ℕ) × (key : String) × (same_name key "token" ≡ true)
        × Captures shop_attached shop_compiled.steps source key
        × Precedes shop_plan shop_scenario [] shop_compiled shop_attached shop_compiles source 2)
unfolding scenario_at request_at
compiled_template-defined_example =
    compiled_template-defined shop_plan shop_scenario [] shop_compiled shop_attached shop_compiles 2
      1 (request_step 1 [] ("token" ∷ [])) 0 "token" refl refl refl
