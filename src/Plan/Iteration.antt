-- ===== src/Plan/Iteration.antt =====
-- internal/engine/execution_runtime.go: `runPlannedIteration`, the walk of one iteration over a plan.
pub mod Safe
mod Tests
use flow_routine.Prelude.{
  ℕ, zero, suc, ◌+◌, ◌-◌, ◌*◌, ◌/◌, ◌%◌, ◌^◌, ◌≤◌, ◌<◌, min, max, ◌≡◌, refl, sym, ap, ◌∙◌, subst,
  ◌≢◌, ◌↔◌, ◌⊎◌, inl, inr, Bool, true, false, ◌&&◌, ◌||◌, not, Option, none, some, List, [], ◌∷◌,
  ◌++◌, map, arith, ltb, leb, ◌==◌, if◌then◌else◌, ltb→lt, lt→ltb, leb→le, ==_iff, tests,
  Bool-cases, Option-cases, length, get_elem?, get_or, set, replicate, take, drop, length-append,
  length-set, length-replicate, length-map, get_or-set,
}
use Prim.Native.String.{String}
use mathlib.Core.Option
use flow_routine.Plan.{CompiledExecutionRoute, Instruction, CompiledExecutionStep}
use flow_routine.Plan.Routes.{select_execution_route}

-- What `runStep` returns.
pub data StepOutcome : Type 0 where
  step_continue step_stop_iteration step_canceled : StepOutcome

-- `activeBranchRoute`.
pub record ActiveRoute : Type 0 where
  pub join : ℕ
  pub metrics_index : ℕ

-- The rest of the engine, on a state of its own: `runStep` for a scenario step, within the routes that
-- are active, the selection counter of a route, and the frames of branch variables.
pub record Machine (S : Type 0) : Type 0 where
  pub run_step : ℕ → List ActiveRoute → S → StepOutcome × S
  pub record_route : ℕ → S → S
  pub push_branch : String → S → S
  pub pop_branch : S → S

-- The fields of `workerRuntime` that the walk changes itself. `loopIterations` is a function of the
-- index of a step, and the innermost active route comes first. The rest holds the variables, the
-- statistics and what `runStep` passes on from one step to the next.
pub record Runtime (S : Type 0) : Type 0 where
  pub loop_iterations : ℕ → ℕ
  pub active_routes : List ActiveRoute
  pub rest : S

unfoldable pub update : (ℕ → ℕ) → ℕ → ℕ → ℕ → ℕ
update f k value i = if i == k then value else f i

-- The iteration returns, or goes on at a target.
pub data Progress : Type 0 where
  leave : Bool → Progress
  goto : Option ℕ → Progress

module _ {S : Type 0} (machine : Machine S) (worker_index iteration_index : ℕ) where
  abbrev pub after_step : Option ℕ → Runtime S → StepOutcome × S → Progress × Runtime S
  after_step next runtime (StepOutcome.step_canceled, s) =
      (leave false, record runtime { rest = s })
  after_step next runtime (StepOutcome.step_stop_iteration, s) =
      (leave true, record runtime { rest = s })
  after_step next runtime (StepOutcome.step_continue, s) = (goto next, record runtime { rest = s })

  abbrev pub enter_route : ℕ → Runtime S → CompiledExecutionRoute → Progress × Runtime S
  enter_route join runtime route = (
    goto (some route.target),
    record runtime {
      active_routes =
          record { join = join; metrics_index = route.metrics_index } ∷ runtime.active_routes;
      rest =
          machine.push_branch route.scope_key
            (machine.record_route route.metrics_index runtime.rest);
    },
  )

  abbrev pub leave_route : ℕ → Option ℕ → Runtime S → List ActiveRoute → Progress × Runtime S
  leave_route counter next runtime [] = (leave true, runtime)
  leave_route counter next runtime (top ∷ outer) =
      let popped = record runtime {
        active_routes = outer;
        rest = machine.pop_branch runtime.rest;
      } in
      if top.join == counter then (goto next, popped) else (leave true, runtime)

  unfoldable pub run_loop : ℕ → ℕ → Option ℕ → ℕ → Runtime S → Progress × Runtime S
  unfolding update
  run_loop counter body exit max_iterations runtime =
      let count = runtime.loop_iterations counter in
      let again = record runtime {
        loop_iterations = update runtime.loop_iterations counter (count + 1);
      } in
      let over = record runtime { loop_iterations = update runtime.loop_iterations counter 0 } in
      if ltb count max_iterations
      then (Progress.goto (some body), again)
      else (Progress.goto exit, over)

  -- One instruction at the program counter; `none` where Go panics, at a branch without routes.
  unfoldable pub run_instruction :
      ℕ → String → Instruction → Runtime S → Option (Progress × Runtime S)
  run_instruction counter id (Instruction.scenario index next) runtime =
      some (after_step next runtime (machine.run_step index runtime.active_routes runtime.rest))
  run_instruction counter id (Instruction.branch routes weight join) runtime =
      Option.map (enter_route join runtime)
        (select_execution_route id routes weight worker_index iteration_index)
  run_instruction counter id (Instruction.join next) runtime =
      some (leave_route counter next runtime runtime.active_routes)
  run_instruction counter id (Instruction.loop body exit max_iterations) runtime =
      some (run_loop counter body exit max_iterations runtime)

  abbrev pub execute : Option CompiledExecutionStep → ℕ → Runtime S → Option (Progress × Runtime S)
  execute none counter runtime = none
  execute (some step) counter runtime = run_instruction counter step.id step.instruction runtime

  abbrev pub proceed :
      (Option ℕ → Runtime S → Option (Bool × Runtime S))
      → Option (Progress × Runtime S)
      → Option (Bool × Runtime S)
  proceed go none = none
  proceed go (some (Progress.leave b, runtime)) = some (b, runtime)
  proceed go (some (Progress.goto target, runtime)) = go target runtime

  -- The loop, with the transitions that are left; `none` where Go panics.
  unfoldable pub run_from :
      List CompiledExecutionStep → ℕ → Option ℕ → Runtime S → Option (Bool × Runtime S)
  unfolding run_instruction
  run_from steps zero counter runtime = some (true, runtime)
  run_from steps (suc left) none runtime = some (true, runtime)
  run_from steps (suc left) (some counter) runtime =
      proceed (run_from steps left) (execute (get_elem? steps counter) counter runtime)

  -- `runPlannedIteration` from an entry, with `maxTransitions`.
  unfoldable pub run_planned_iteration :
      List CompiledExecutionStep → ℕ → ℕ → S → Option (Bool × Runtime S)
  unfolding run_from
  run_planned_iteration steps entry max_transitions s =
      run_from steps max_transitions (some entry)
        (record { loop_iterations = λ i. 0; active_routes = []; rest = s })
