-- ===== src/Plan/Compile/Checked.antt =====
-- internal/engine/execution_plan.go: the two parts of `compileExecutionPlan`, by their calls.
use flow_routine.Prelude.{
  map, ℕ, ◌+◌, ◌≤◌, ◌<◌, ◌≡◌, refl, sym, ap, ◌∙◌, subst, ◌↔◌, true, false, ◌&&◌, List, [], arith,
  leb, ◌==◌, leb→le, ==_iff, length,
}
use Prim.Native.String.{String}
use flow_routine.Prelude.Int.{eqb_ℤ}
use flow_routine.Config.{ExecutionPlan, ExecutionPlanStep}
use flow_routine.Plan.{execution_adjacency}
use flow_routine.Plan.Graph.{execution_predecessors, validate_execution_reachability}
use flow_routine.Plan.Graph.Paths.{Reach, Avoiding}
use flow_routine.Plan.Graph.Search.{validate_execution_reachability_correct}
use flow_routine.Plan.Dominators.{Row, has_execution_bit, row_of, execution_dominators}
use flow_routine.Plan.Dominators.Exact.{execution_dominators_correct}
use flow_routine.Plan.Cycles.Ordered.{Ordered}
use flow_routine.Plan.Iteration.Safe.{StepsFit}
use flow_routine.Plan.Targets.{
  Names, unsupported_schema, step_count, missing_entry, missing_scenario_steps, entry_not_request,
  unreachable, too_many_transitions, unfinished, or_error, is_some, execution_plan_id, lookup,
}
use flow_routine.Plan.Scenario.{CompiledStep}
use flow_routine.Plan.Loops.{validate_bounded_execution_loops}
use flow_routine.Plan.Branches.{validate_structured_branches}
use flow_routine.Plan.Requests.{
  with_request, scenario_at, attach_planned_assertions, validate_planned_templates,
}
use flow_routine.Plan.Instructions.{CompileState, index_scenario, index_steps, compile_instructions}
use flow_routine.Plan.Compile.{
  CompiledExecutionPlan, execution_plan_schema_version, max_execution_plan_steps,
  max_execution_transitions, add_transitions, compile_steps, check_graph, compile_execution_plan,
}
use flow_routine.Plan.Compile.Ensures.{
  alongside, Ensures, returns, after, checked, found, finished, weaken,
}
use flow_routine.Plan.Compile.Identified.{NamesAt, index_steps-NamesAt}
use flow_routine.Plan.Compile.Below.{
  NamesBelow, lookup-below, execution_plan_id-Ensures, index_steps-Ensures,
  index_scenario-NamesBelow,
}
use flow_routine.Plan.Compile.Fits.{AllSound, Once, all_used, compile_instructions-Ensures}
use flow_routine.Plan.Compile.Regions.{
  AllClosed, length-execution_adjacency, execution_adjacency-InRange,
  validate_bounded_execution_loops-Ensures,
}
use flow_routine.Plan.Compile.Owners.{Structured, validate_structured_branches-Ensures}
use flow_routine.Plan.Compile.Attached.{SameKinds, AllFollow, attach_planned_assertions-Ensures}
use flow_routine.Plan.Compile.Available.{AllDefined, validate_planned_templates-Ensures}

-- What the first part makes, for a scenario of m steps.
pub record StepsCompiled (m : ℕ) (p : CompiledExecutionPlan) (names : Names) : Type 0 where
  pub inside : p.entry < length p.steps
  pub few : length p.steps ≤ 1_024
  pub fit : StepsFit (length p.steps) p.steps
  pub sound : AllSound (length p.steps) m p.steps
  pub below : NamesBelow (length p.steps) names
  pub identified : NamesAt (map (λ s. s.id) p.steps) names
  pub once : Once [] p.steps
  pub all_of_them : length (all_used [] p.steps) ≡ m

compile_steps-Ensures :
    (plan : ExecutionPlan) (scenario : List CompiledStep)
    → Ensures (λ r. StepsCompiled (length scenario) r.0 r.1) (compile_steps plan scenario)
unfolding compile_steps
compile_steps-Ensures plan scenario =
    let n = length plan.steps in
    let m = length scenario in
    let start : CompileState = record { used = []; route_metric_index = 0 } in
    checked (eqb_ℤ plan.schema_version execution_plan_schema_version) unsupported_schema _ refl
      (λ version. checked (leb 1 n && leb n max_execution_plan_steps) step_count _ refl (λ few.
        after (index_steps 0 plan.steps []) _
          (alongside (index_steps 0 plan.steps []) (index_steps-Ensures 0 plan.steps [] _)
            (index_steps-NamesAt 0 plan.steps [] [] refl _))
          (λ indexed ((names, ids), placed).
            after (execution_plan_id plan.entry_step_id) _
              (execution_plan_id-Ensures plan.entry_step_id)
              (λ entry_id u.
                after (or_error missing_entry (lookup indexed.1 entry_id)) _
                  (found missing_entry (lookup indexed.1 entry_id) refl)
                  (λ entry at.
                    let by_scenario = index_scenario 0 scenario [] in
                    after
                      (compile_instructions plan.steps by_scenario indexed.1 indexed.0 plan.steps
                        start)
                      _
                      (compile_instructions-Ensures n m plan.steps by_scenario indexed.1
                        (subst (λ k. NamesBelow k indexed.1) (omega arith) names)
                        (subst (λ k. NamesBelow k by_scenario) (omega arith)
                          (index_scenario-NamesBelow 0 scenario [] _))
                        indexed.0 plan.steps start ids)
                      (λ compiled ((fit, sound), ((size, same_ids), (once, used))).
                        checked (length compiled.1.used == m) missing_scenario_steps _ refl
                          (λ all_of_them.
                            checked (is_some (with_request scenario (scenario_at compiled.0 entry)))
                              entry_not_request _ refl
                              (λ first.
                                let same : n ≡ length compiled.0 = sym (size ∙ ids) in
                                returns (record {
                                  inside = omega (
                                    arith,
                                    same,
                                    lookup-below (0 + n) indexed.1 entry_id entry names at,
                                  );
                                  few = ground (arith, few, same);
                                  fit = subst (λ k. StepsFit k compiled.0) same fit;
                                  sound = subst (λ k. AllSound k m compiled.0) same sound;
                                  below =
                                      subst (λ k. NamesBelow k indexed.1) (omega (arith, same))
                                        names;
                                  identified =
                                      subst (λ xs. NamesAt xs indexed.1) (sym same_ids) placed;
                                  once = once;
                                  all_of_them =
                                      ap length (sym used)
                                      ∙ (==_iff (length compiled.1.used) m).0 all_of_them;
                                })))))))))

-- The dominators that `executionDominators` computes: bit d of row m says that no path leads from the
-- entry to m without d.
abbrev pub Dominating : CompiledExecutionPlan → List Row → Type 0
Dominating p rows =
    (m d : ℕ)
    → m < length p.steps
    → d < length p.steps
    → has_execution_bit (row_of rows m) d ≡ true
      ↔ ¬ (Avoiding (execution_adjacency p.steps false) d p.entry m)

-- What the second part ensures of the plan and of the steps with their assertions.
pub record GraphChecked (definitions : List ExecutionPlanStep) (scenario : List CompiledStep)
    (variables : List (String × String)) (names : Names) (p : CompiledExecutionPlan)
    (attached : List CompiledStep) : Type 0 where
  pub reached : (m : ℕ) → m < length p.steps → Reach (execution_adjacency p.steps false) p.entry m
  pub fit : StepsFit (length p.steps) p.steps
  pub acyclic : Ordered (execution_adjacency p.steps true)
  pub loops : AllClosed p.steps fit 0 p.steps
  pub branches : Structured p.steps fit
  pub dominators : List Row
  pub exact : Dominating p dominators
  pub kinds : SameKinds attached scenario
  pub assertions :
      AllFollow (length p.steps) names dominators p.steps scenario 0 p.steps definitions
  pub templates : AllDefined variables dominators attached p.steps
  pub bounded : p.max_transitions ≤ 100_000

module _ (plan : ExecutionPlan) (scenario : List CompiledStep) (variables : List (String × String))
    (p : CompiledExecutionPlan) (names : Names) (c : StepsCompiled (length scenario) p names) where
  abbrev whole_graph : List (List ℕ)
  whole_graph = execution_adjacency p.steps false

  size : length whole_graph ≡ length p.steps
  size = length-execution_adjacency p.steps false

  reachability_found :
      Ensures
        (λ answer. answer ≡ true ↔ ((m : ℕ) → m < length whole_graph → Reach whole_graph p.entry m))
        (or_error unfinished (validate_execution_reachability p.entry whole_graph))
  reachability_found = finished _ (validate_execution_reachability p.entry whole_graph) (
      validate_execution_reachability_correct whole_graph p.entry
        (execution_adjacency-InRange p.steps false c.fit) (omega (arith, size, c.inside)))

  dominators_found :
      Ensures
        (Dominating p)
        (or_error unfinished (execution_dominators p.entry (execution_predecessors whole_graph)))
  dominators_found =
      let (rows, e, exact) =
        execution_dominators_correct whole_graph p.entry
          (execution_adjacency-InRange p.steps false c.fit) (omega (arith, size, c.inside)) in
      finished _ (execution_dominators p.entry (execution_predecessors whole_graph))
        (rows, e, λ m d m_inside d_inside. exact m d (rw size m_inside) (rw size d_inside))

  check_graph-Ensures :
      Ensures
        (λ r.
          GraphChecked plan.steps scenario variables names r.0 r.1
          × StepsCompiled (length scenario) r.0 names)
        (check_graph plan scenario variables (p, names))
  unfolding check_graph
  check_graph-Ensures =
      after (or_error unfinished (validate_execution_reachability p.entry whole_graph)) _
        reachability_found
        (λ reached exact_reach. checked reached unreachable _ refl (λ all_reached.
          after (validate_bounded_execution_loops p.steps) _
            (validate_bounded_execution_loops-Ensures p.steps c.fit)
            (λ loops (ordered, closed, same).
              after (validate_structured_branches p.steps loops.1) _
                (subst
                  (λ g.
                    Ensures (λ u. Structured p.steps c.fit)
                      (validate_structured_branches p.steps g))
                  (sym same)
                  (validate_structured_branches-Ensures p.steps c.fit (length scenario) c.sound))
                (λ u structured.
                  after
                    (or_error unfinished
                      (execution_dominators p.entry (execution_predecessors whole_graph)))
                    _ dominators_found
                    (λ rows exact.
                      after (attach_planned_assertions p.steps scenario plan.steps names rows) _
                        (attach_planned_assertions-Ensures (length p.steps) names rows p.steps
                          scenario plan.steps c.below)
                        (λ attached (kinds, follows).
                          after (validate_planned_templates p.steps attached variables rows) _
                            (validate_planned_templates-Ensures variables rows attached p.steps
                              c.once)
                            (λ u defined.
                              let maximum = add_transitions p.steps loops.0 (length p.steps) in
                              checked (leb maximum max_execution_transitions) too_many_transitions _
                                refl
                                (λ bounded. returns (
                                  record {
                                    reached =
                                        λ m inside. exact_reach.0 all_reached m (rw size inside);
                                    fit = c.fit;
                                    acyclic = ordered;
                                    loops = closed;
                                    branches = structured;
                                    dominators = rows;
                                    exact = exact;
                                    kinds = kinds;
                                    assertions = follows;
                                    templates = defined;
                                    bounded = leb→le maximum 100_000 bounded;
                                  },
                                  record {
                                    inside = c.inside;
                                    few = c.few;
                                    fit = c.fit;
                                    sound = c.sound;
                                    below = c.below;
                                    identified = c.identified;
                                    once = c.once;
                                    all_of_them = c.all_of_them;
                                  },
                                )))))))))

-- What holds of a plan that compiles.
pub record Accepted (plan : ExecutionPlan) (scenario : List CompiledStep)
    (variables : List (String × String)) (p : CompiledExecutionPlan) (attached : List CompiledStep)
    : Type 0 where
  pub names : Names
  pub graph : GraphChecked plan.steps scenario variables names p attached
  pub steps : StepsCompiled (length scenario) p names

pub compile_execution_plan-Ensures :
    (plan : ExecutionPlan) (scenario : List CompiledStep) (variables : List (String × String))
    → Ensures
        (λ r. Accepted plan scenario variables r.0 r.1)
        (compile_execution_plan plan scenario variables)
unfolding compile_execution_plan
compile_execution_plan-Ensures plan scenario variables =
    after (compile_steps plan scenario) _ (compile_steps-Ensures plan scenario) (λ compiled c.
      weaken (check_graph plan scenario variables compiled)
        (check_graph-Ensures plan scenario variables compiled.0 compiled.1 c)
        (λ r (graph, steps). record { names = compiled.1; graph = graph; steps = steps }))
