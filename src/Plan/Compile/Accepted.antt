-- ===== src/Plan/Compile/Accepted.antt =====
-- internal/engine/execution_plan.go: the plans that `compileExecutionPlan` compiles.
use flow_routine.Prelude.{
  map, ℕ, zero, suc, ◌+◌, ◌≤◌, ◌<◌, ◌≡◌, subst, ◌≢◌, ◌⊎◌, inl, inr, Bool, true, false, Option, some,
  List, [], ◌∷◌, arith, length, get_elem?,
}
use Prim.Native.String.{String}
use flow_routine.Prelude.Result.{ok, err}
use flow_routine.Config.{ExecutionPlan, ExecutionPlanStep}
use flow_routine.Plan.{
  Instruction, CompiledExecutionRoute, CompiledExecutionStep, execution_adjacency,
}
use flow_routine.Plan.Graph.Paths.{Reach, Avoiding}
use flow_routine.Plan.Cycles.Ordered.{Ordered}
use flow_routine.Plan.Iteration.{Machine, Runtime, run_planned_iteration}
use flow_routine.Plan.Iteration.Safe.{StepsFit, LoopsBounded, run_planned_iteration-bounded}
use flow_routine.Plan.Targets.{unfinished, same_name}
use flow_routine.Plan.Scenario.{CompiledStep, CompiledRequestStep, request_at}
use flow_routine.Plan.Requests.{scenario_of, scenario_at, is_bound}
use flow_routine.Plan.Compile.{CompiledExecutionPlan, compile_execution_plan}
use flow_routine.Plan.Compile.Ensures.{ends, ensured}
use flow_routine.Plan.Compile.Regions.{LoopClosed, Closed, AllClosed}
use flow_routine.Plan.Compile.Joined.{BranchJoined}
use flow_routine.Plan.Compile.Owners.{owners_of, AllJoined, Joined}
use flow_routine.Plan.Compile.Attached.{is_assertion, is_request, kind_at}
use flow_routine.Prelude.Text.{trim_space}
use flow_routine.Plan.Compile.Identified.{resolve_required-named}
use flow_routine.Plan.Compile.Producers.{Captures}
use flow_routine.Plan.Compile.Available.{plan_index_of-at}
use flow_routine.Plan.Compile.Counting.{every_index_used}
use flow_routine.Plan.Compile.Checked.{Accepted, compile_execution_plan-Ensures}

-- Every loop in the compilation of a plan ends: the compilation always returns a plan or an error.
pub compile_execution_plan-ends :
    (plan : ExecutionPlan) (scenario : List CompiledStep) (variables : List (String × String))
    → compile_execution_plan plan scenario variables ≢ err unfinished
compile_execution_plan-ends plan scenario variables =
    ends (compile_execution_plan plan scenario variables)
      (compile_execution_plan-Ensures plan scenario variables)

loop_at :
    (steps : List CompiledExecutionStep) (fits : StepsFit (length steps) steps) (index : ℕ)
    (rest : List CompiledExecutionStep) (m j : ℕ) (s : CompiledExecutionStep)
    → AllClosed steps fits index rest
    → m ≡ index + j
    → get_elem? rest j ≡ some s
    → Closed steps m s.instruction
loop_at steps fits index [] m j s all e at = cc
loop_at steps fits index (step ∷ rest) m zero s (here, all) e at =
    let same : step ≡ s = cc at in
    let place : index ≡ m = omega (arith, e) in
    subst (λ x. Closed steps m x.instruction) same
      (subst (λ i. Closed steps i step.instruction) place here)
loop_at steps fits index (step ∷ rest) m (suc j) s (here, all) e at =
    loop_at steps fits (index + 1) rest m j s all (omega (arith, e)) at

branch_at :
    (steps : List CompiledExecutionStep) (fits : StepsFit (length steps) steps)
    (rest : List CompiledExecutionStep) (j : ℕ) (s : CompiledExecutionStep)
    → AllJoined steps fits rest
    → get_elem? rest j ≡ some s
    → Joined steps fits s.instruction
branch_at steps fits [] j s all at = cc
branch_at steps fits (step ∷ rest) zero s (here, all) at =
    let same : step ≡ s = cc at in subst (λ x. Joined steps fits x.instruction) same here
branch_at steps fits (step ∷ rest) (suc j) s (here, all) at = branch_at steps fits rest j s all at

owners_of-at :
    (join : ℕ) (rest : List CompiledExecutionStep) (j : ℕ) (s : CompiledExecutionStep)
    (routes : List CompiledExecutionRoute) (weight : ℕ)
    → get_elem? rest j ≡ some s
    → s.instruction ≡ Instruction.branch routes weight join
    → 1 ≤ owners_of join rest
owners_of-at join [] j s routes weight at kind = cc
owners_of-at join (step ∷ rest) zero s routes weight at kind =
    let same : step ≡ s = cc at in
    let here : step.instruction ≡ Instruction.branch routes weight join = rw same kind in
    rw here (ground arith)
owners_of-at join (step ∷ rest) (suc j) s routes weight at kind =
    omega (arith, owners_of-at join rest j s routes weight at kind)

module _ (plan : ExecutionPlan) (scenario : List CompiledStep) (variables : List (String × String))
    (p : CompiledExecutionPlan) (attached : List CompiledStep)
    (compiled : compile_execution_plan plan scenario variables ≡ ok (p, attached)) where
  accepted : Accepted plan scenario variables p attached
  accepted =
      ensured (compile_execution_plan plan scenario variables) (p, attached)
        (compile_execution_plan-Ensures plan scenario variables) compiled

  -- An iteration over a compiled plan always returns, whatever its requests do, and no loop counts
  -- more iterations than it may.
  pub compiled_iteration-returns :
      {S : Type 0} (machine : Machine S) (worker_index iteration_index : ℕ) (s : S)
      → (completed : Bool) × (runtime : Runtime S) × (run_planned_iteration machine worker_index
            iteration_index p.steps p.entry p.max_transitions s
          ≡ some (completed, runtime))
        × LoopsBounded machine worker_index iteration_index p.steps runtime
  compiled_iteration-returns machine worker_index iteration_index s =
      run_planned_iteration-bounded machine worker_index iteration_index p.steps p.entry
        p.max_transitions s accepted.steps.fit accepted.steps.inside

  -- In a compiled plan every step can be reached from the entry, the graph without the edges into the
  -- bodies of loops has no cycle, and an iteration may take at most 100,000 transitions.
  pub compiled_graph-bounded :
      ((m : ℕ) → m < length p.steps → Reach (execution_adjacency p.steps false) p.entry m)
      × Ordered (execution_adjacency p.steps true)
      × (p.max_transitions ≤ 100_000)
  compiled_graph-bounded = (accepted.graph.reached, accepted.graph.acyclic, accepted.graph.bounded)

  -- Every step of the scenario is run by exactly one step of a compiled plan.
  pub compiled_scenario-once :
      (k : ℕ)
      → k < length scenario
      → (m : ℕ) × (scenario_at p.steps m ≡ some k)
        × ((other : ℕ) → scenario_at p.steps other ≡ some k → other ≡ m)
  compiled_scenario-once k inside =
      let c = accepted.steps in
      let (m, at) =
        every_index_used (length p.steps) (length scenario) p.steps c.once c.sound c.all_of_them k
          inside in
      (
        m,
        at,
        λ other at_other. omega (
          arith,
          plan_index_of-at k 0 [] p.steps 0 m c.once at,
          plan_index_of-at k 0 [] p.steps 0 other c.once at_other,
        ),
      )

  -- In a compiled plan the body of a loop leads back to it, whatever can be reached from the body
  -- without the loop leads back too and is no other loop, and the exit is outside.
  pub compiled_loop-closed :
      (m : ℕ) (s : CompiledExecutionStep) (body : ℕ) (exit : Option ℕ) (iterations : ℕ)
      → get_elem? p.steps m ≡ some s
      → s.instruction ≡ Instruction.loop body exit iterations
      → LoopClosed p.steps m body exit
  compiled_loop-closed m s body exit iterations at kind =
      rw kind at
        (loop_at p.steps accepted.graph.fit 0 p.steps m m s accepted.graph.loops (omega arith) at)

  -- In a compiled plan the routes of a branch lead to its join, whatever can be reached from a route
  -- without the join leads there too, two routes meet only at the join, a branch on a route joins
  -- before it, and no other branch has the join.
  pub compiled_branch-joined :
      (m : ℕ) (s : CompiledExecutionStep) (routes : List CompiledExecutionRoute) (weight join : ℕ)
      → get_elem? p.steps m ≡ some s
      → s.instruction ≡ Instruction.branch routes weight join
      → BranchJoined p.steps routes join × (owners_of join p.steps ≡ 1)
  compiled_branch-joined m s routes weight join at kind =
      let b = accepted.graph.branches in
      (
        rw kind at (branch_at p.steps accepted.graph.fit p.steps m s b.joined at),
        omega (arith, b.single join, owners_of-at join p.steps m s routes weight at kind),
      )

  -- A step of the plan that no path from the entry to another step can leave out.
  abbrev pub Precedes : ℕ → ℕ → Type 0
  Precedes source m =
      (source ≢ m) × ¬ (Avoiding (execution_adjacency p.steps false) source p.entry m)

  scenario_inside :
      (steps : List CompiledExecutionStep) (m k : ℕ)
      → scenario_at steps m ≡ some k
      → m < length steps
  unfolding scenario_at
  scenario_inside [] m k at = cc
  scenario_inside (s ∷ steps) zero k at = omega arith
  scenario_inside (s ∷ steps) (suc m) k at = omega (arith, scenario_inside steps m k at)

  -- In a compiled plan an assertion is run only after its request: the step that its definition names
  -- is another step, a request, and on every path from the entry to the assertion.
  pub compiled_assertion-follows :
      (m k : ℕ) (s : CompiledExecutionStep) (d : ExecutionPlanStep)
      → get_elem? p.steps m ≡ some s
      → get_elem? plan.steps m ≡ some d
      → scenario_of s.instruction ≡ some k
      → kind_at scenario k ≡ is_assertion
      → (source : ℕ) × (j : ℕ) × (scenario_at p.steps source ≡ some j)
        × (kind_at scenario j ≡ is_request)
        × Precedes source m
        × ((id : String) × (get_elem? (map (λ x. x.id) p.steps) source ≡ some id)
            × (same_name id (trim_space d.request_step_id) ≡ true))
  compiled_assertion-follows m k s d at defined of kind =
      let g = accepted.graph in
      let f = g.assertions m m s d k (omega arith) at defined of kind in
      (
        f.source,
        f.scenario_index,
        f.at,
        f.is_one,
        (f.other, (g.exact m f.source (index_inside p.steps m s at) f.inside).0 f.dominates),
        resolve_required-named (map (λ x. x.id) p.steps) accepted.names d.request_step_id f.source
            accepted.steps.identified f.named,
      )
    where
      index_inside :
          (steps : List CompiledExecutionStep) (i : ℕ) (x : CompiledExecutionStep)
          → get_elem? steps i ≡ some x
          → i < length steps
      index_inside [] i x e = cc
      index_inside (y ∷ steps) zero x e = omega arith
      index_inside (y ∷ steps) (suc i) x e = omega (arith, index_inside steps i x e)

  -- In a compiled plan every template variable of a request is a runtime variable, or a capture of
  -- that name is made by another request on every path from the entry.
  pub compiled_template-defined :
      (m i : ℕ) (r : CompiledRequestStep) (k : ℕ) (template : String)
      → scenario_at p.steps m ≡ some i
      → request_at attached i ≡ some r
      → get_elem? r.template_names k ≡ some template
      → (is_bound variables template ≡ true)
        ⊎ ((source : ℕ) × (key : String) × (same_name key template ≡ true)
            × Captures attached p.steps source key
            × Precedes source m)
  compiled_template-defined m i r k template at of listed =
      let g = accepted.graph in
      elim (g.templates m i r k template at of listed) [
        | inl bound ↦ inl bound
        | inr made ↦
            let inside =
              scenario_inside p.steps made.source made.captures.scenario_index made.captures.at in
            inr (
              made.source,
              made.key,
              made.same,
              made.captures,
              (
                made.other,
                (g.exact m made.source (scenario_inside p.steps m i at) inside).0 made.dominates,
              ),
            )
      ]
