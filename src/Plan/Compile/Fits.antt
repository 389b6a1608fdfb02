-- ===== src/Plan/Compile/Fits.antt =====
-- internal/engine/execution_plan.go: the loop of `compileExecutionPlan` over the steps, its targets and
-- weights.
use flow_routine.Prelude.{
  map, ℕ, ◌+◌, ◌*◌, ◌%◌, ◌^◌, ◌≤◌, ◌<◌, ◌≡◌, refl, ap, ◌∙◌, subst, false, ◌&&◌, not, List, [], ◌∷◌,
  arith, leb, ◌==◌, if◌then◌else◌, length,
}
use Prim.Native.String.{String}
use flow_routine.Prelude.Int.{pos_part}
use flow_routine.Prelude.Text.{trim_space}
use flow_routine.Config.{ExecutionPlanStep, ExecutionPlanStepKind, ExecutionRoute}
use flow_routine.Plan.{Instruction, CompiledExecutionStep}
use flow_routine.Plan.Routes.Chosen.{total_weight}
use flow_routine.Plan.Iteration.Safe.{Fits, AllFit, InstructionFits, StepsFit}
use flow_routine.Plan.Targets
use flow_routine.Plan.Instructions.{
  in_range, max_branch_route_weight, max_branch_routes, max_loop_iterations, has_name, has_index,
  compile_routes, resolve_join, resolve_loop, CompileState, compile_scenario, compile_branch,
  compile_join, compile_loop, compile_instruction, compile_instructions, is_join_at,
}
use flow_routine.Plan.Compile.Ensures.{Ensures, returns, fails, after, checked, found}
use flow_routine.Plan.Compile.Below.{
  NamesBelow, lookup-below, validate_text-Ensures, execution_plan_id-Ensures,
  resolve_required-Ensures, resolve_optional-Ensures,
}

-- The sum of the weights does not wrap around, as there are few routes and each weight is small.
pub compile_routes-Ensures :
    (n : ℕ) (steps_by_id : Targets.Names) (branch_id : String) (routes : List ExecutionRoute)
    (seen : List String) (total metric : ℕ)
    → NamesBelow n steps_by_id
    → total + 1_000_000 * length routes < 2 ^ 64
    → Ensures
        (λ r. AllFit n r.0 × (length r.0 ≡ length routes) × (r.1 ≡ total + total_weight r.0))
        (compile_routes steps_by_id branch_id routes seen total metric)
unfolding compile_routes
compile_routes-Ensures n steps_by_id branch_id [] seen total metric below small =
    returns (_, refl, omega arith)
compile_routes-Ensures n steps_by_id branch_id (route ∷ rest) seen total metric below small =
    let trimmed = trim_space route.name in
    let weight = pos_part route.weight in
    after (Targets.execution_plan_id route.id) _ (execution_plan_id-Ensures route.id) (λ id u.
      let name = if Targets.same_name trimmed "" then id else trimmed in
      checked (not (has_name seen id)) Targets.duplicate_route _ refl (λ fresh.
        checked (in_range max_branch_route_weight route.weight) Targets.route_weight_range _ refl
          (λ range.
            after (Targets.resolve_required_execution_target route.target_step_id steps_by_id) _
              (resolve_required-Ensures n route.target_step_id steps_by_id below)
              (λ target inside.
                after (Targets.validate_scenario_step_text name 256) _
                  (validate_text-Ensures name 256)
                  (λ valid u.
                    let light : weight ≤ 1_000_000 = ground (arith, range) in
                    let sum : (total + weight) % 2 ^ 64 ≡ total + weight =
                      omega (arith, small, light) in
                    after
                      (compile_routes steps_by_id branch_id rest (id ∷ seen)
                        ((total + weight) % 2 ^ 64) (metric + 1))
                      _
                      (compile_routes-Ensures n steps_by_id branch_id rest (id ∷ seen)
                        ((total + weight) % 2 ^ 64) (metric + 1) below
                        (omega (arith, small, light, sum)))
                      (λ later (fits, size, added).
                        returns
                          ((inside, fits), omega (arith, size), omega (arith, added, sum))))))))

-- What else holds of an instruction in a plan of n steps, for a scenario of m steps.
abbrev pub Sound : ℕ → ℕ → Instruction → Type 0
Sound n m (Instruction.scenario index next) = index < m
Sound n m (Instruction.branch routes weight join) = (weight ≡ total_weight routes) × (join < n)
Sound n m (Instruction.join next) = Unit {0}
Sound n m (Instruction.loop body exit max_iterations) = max_iterations ≤ 1_000

abbrev pub AllSound : ℕ → ℕ → List CompiledExecutionStep → Type 0
AllSound n m [] = Unit {0}
AllSound n m (s ∷ rest) = Sound n m s.instruction × AllSound n m rest

-- `usedScenarioSteps` after a step, which puts in what was not there.
abbrev pub used_after : List ℕ → Instruction → List ℕ
used_after used (Instruction.scenario index next) = index ∷ used
used_after used _ = used

abbrev pub Unused : List ℕ → Instruction → Type 0
Unused used (Instruction.scenario index next) = has_index used index ≡ false
Unused used _ = Unit {0}

abbrev pub Once : List ℕ → List CompiledExecutionStep → Type 0
Once used [] = Unit {0}
Once used (s ∷ rest) = Unused used s.instruction × Once (used_after used s.instruction) rest

abbrev pub all_used : List ℕ → List CompiledExecutionStep → List ℕ
all_used used [] = used
all_used used (s ∷ rest) = all_used (used_after used s.instruction) rest

module _ (n m : ℕ) (definitions : List ExecutionPlanStep)
    (scenario_by_id steps_by_id : Targets.Names) (below : NamesBelow n steps_by_id)
    (scenario_below : NamesBelow m scenario_by_id) where
  abbrev Good : CompileState → Instruction × CompileState → Type 0
  Good state r =
      (InstructionFits n r.0 × Sound n m r.0)
      × (Unused state.used r.0 × (r.1.used ≡ used_after state.used r.0))

  compile_scenario-Ensures :
      (id : String) (definition : ExecutionPlanStep) (state : CompileState)
      → Ensures
          (Good state)
          (compile_scenario definitions scenario_by_id steps_by_id id definition state)
  unfolding compile_scenario
  compile_scenario-Ensures id definition state =
      after (Targets.or_error Targets.unknown_scenario_step (Targets.lookup scenario_by_id id)) _
        (found Targets.unknown_scenario_step (Targets.lookup scenario_by_id id) refl)
        (λ index at.
          checked (not (has_index state.used index)) Targets.repeated_scenario_step _ refl (λ fresh.
            after (Targets.resolve_optional_execution_target definition.next_step_id steps_by_id) _
              (resolve_optional-Ensures n definition.next_step_id steps_by_id below)
              (λ next fits. returns (
                (fits, lookup-below m scenario_by_id id index scenario_below at),
                (ground (arith, fresh), refl),
              ))))

  resolve_join-Ensures :
      (id : String) → Ensures (λ join. join < n) (resolve_join definitions steps_by_id id)
  unfolding resolve_join
  resolve_join-Ensures id =
      after (Targets.resolve_required_execution_target id steps_by_id) _
        (resolve_required-Ensures n id steps_by_id below)
        (λ join inside.
          checked (is_join_at definitions join) Targets.join_kind _ refl (λ kind. returns inside))

  compile_branch-Ensures :
      (id : String) (definition : ExecutionPlanStep) (state : CompileState)
      → Ensures
          (Good state)
          (compile_branch definitions scenario_by_id steps_by_id id definition state)
  unfolding compile_branch
  compile_branch-Ensures id definition state =
      let count = length definition.routes in
      checked (leb 2 count && leb count max_branch_routes) Targets.route_count _ refl (λ few.
        let small : 1_000_000 * count < 2 ^ 64 = ground (arith, few) in
        after (compile_routes steps_by_id id definition.routes [] 0 state.route_metric_index) _
          (compile_routes-Ensures n steps_by_id id definition.routes [] 0 state.route_metric_index
            below (omega (arith, small)))
          (λ compiled (fits, size, sum).
            checked (not (compiled.1 == 0)) Targets.zero_route_weight _ refl (λ positive.
              after (resolve_join definitions steps_by_id definition.join_step_id) _
                (resolve_join-Ensures definition.join_step_id)
                (λ join inside. returns (
                  (
                    (ground (arith, positive), ground (arith, few, size), fits),
                    (omega (arith, sum), inside),
                  ),
                  (_, refl),
                )))))

  compile_join-Ensures :
      (definition : ExecutionPlanStep) (state : CompileState)
      → Ensures (Good state) (compile_join definitions scenario_by_id steps_by_id definition state)
  unfolding compile_join
  compile_join-Ensures definition state =
      after (Targets.resolve_optional_execution_target definition.next_step_id steps_by_id) _
        (resolve_optional-Ensures n definition.next_step_id steps_by_id below)
        (λ next fits. returns ((fits, _), (_, refl)))

  resolve_loop-Ensures :
      (definition : ExecutionPlanStep)
      → Ensures (λ r. (r.0 < n) × Fits n r.1) (resolve_loop steps_by_id definition)
  unfolding resolve_loop
  resolve_loop-Ensures definition =
      after (Targets.resolve_required_execution_target definition.body_step_id steps_by_id) _
        (resolve_required-Ensures n definition.body_step_id steps_by_id below)
        (λ body inside.
          after (Targets.resolve_optional_execution_target definition.exit_step_id steps_by_id) _
            (resolve_optional-Ensures n definition.exit_step_id steps_by_id below)
            (λ exit fits. returns (inside, fits)))

  compile_loop-Ensures :
      (definition : ExecutionPlanStep) (state : CompileState)
      → Ensures (Good state) (compile_loop definitions scenario_by_id steps_by_id definition state)
  unfolding compile_loop
  compile_loop-Ensures definition state =
      checked (in_range max_loop_iterations definition.max_iterations) Targets.iteration_range _
        refl
        (λ range.
          after (resolve_loop steps_by_id definition) _ (resolve_loop-Ensures definition)
            (λ targets fits. returns ((fits, ground (arith, range)), (_, refl))))

  compile_instruction-Ensures :
      (id : String) (definition : ExecutionPlanStep) (kind : ExecutionPlanStepKind)
      (state : CompileState)
      → Ensures
          (Good state)
          (compile_instruction definitions scenario_by_id steps_by_id id definition kind state)
  unfolding compile_instruction
  compile_instruction-Ensures id definition ExecutionPlanStepKind.step state =
      compile_scenario-Ensures id definition state
  compile_instruction-Ensures id definition ExecutionPlanStepKind.branch state =
      compile_branch-Ensures id definition state
  compile_instruction-Ensures id definition ExecutionPlanStepKind.join state =
      compile_join-Ensures definition state
  compile_instruction-Ensures id definition ExecutionPlanStepKind.loop state =
      compile_loop-Ensures definition state
  compile_instruction-Ensures id definition (ExecutionPlanStepKind.unknown kind) state = fails refl

  pub compile_instructions-Ensures :
      (ids : List String) (rest : List ExecutionPlanStep) (state : CompileState)
      → length ids ≡ length rest
      → Ensures
          (λ r.
            (StepsFit n r.0 × AllSound n m r.0)
            × (((length r.0 ≡ length ids) × (map (λ s. s.id) r.0 ≡ ids))
                × (Once state.used r.0 × (r.1.used ≡ all_used state.used r.0))))
          (compile_instructions definitions scenario_by_id steps_by_id ids rest state)
  unfolding compile_instructions
  compile_instructions-Ensures [] rest state size = returns ((_, _), ((refl, refl), (_, refl)))
  compile_instructions-Ensures (id ∷ ids) [] state size = absurd (omega (arith, size))
  compile_instructions-Ensures (id ∷ ids) (definition ∷ rest) state size =
      after
        (compile_instruction definitions scenario_by_id steps_by_id id definition definition.kind
          state)
        _ (compile_instruction-Ensures id definition definition.kind state)
        (λ here ((fits, sound), (unused, used)).
          after (compile_instructions definitions scenario_by_id steps_by_id ids rest here.1) _
            (compile_instructions-Ensures ids rest here.1 (omega (arith, size)))
            (λ later ((all_fit, all_sound), ((length_later, same_ids), (once, used_later))).
              returns (
                ((fits, all_fit), (sound, all_sound)),
                (
                  (omega (arith, length_later), ap (λ xs. id ∷ xs) same_ids),
                  (
                    (unused, subst (λ u. Once u later.0) used once),
                    used_later ∙ ap (λ u. all_used u later.0) used,
                  ),
                ),
              )))
