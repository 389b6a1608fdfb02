-- ===== src/Plan/Iteration/Safe.antt =====
-- A walk over a plan whose targets exist never fails, and no loop exceeds its iterations.
use flow_routine.Prelude.{
  ℕ, zero, suc, ◌+◌, ◌-◌, ◌%◌, ◌≤◌, ◌<◌, ◌≡◌, refl, sym, subst, inl, inr, Bool, true, false, Option,
  none, some, List, [], ◌∷◌, arith, ltb, ◌==◌, ltb→lt, ==_iff, Bool-cases, Option-cases, length,
  get_elem?,
}
use Prim.Native.String.{String}
use flow_routine.Plan.{CompiledExecutionRoute, Instruction, CompiledExecutionStep}
use flow_routine.Plan.Hash.{deterministic_execution_value}
use flow_routine.Plan.Routes.{pick_route, last_route, select_execution_route}
use flow_routine.Plan.Iteration.{
  StepOutcome, ActiveRoute, Machine, Runtime, update, Progress, after_step, enter_route,
  leave_route, run_loop, proceed, run_instruction, run_from, run_planned_iteration,
}

abbrev pub Fits : ℕ → Option ℕ → Type 0
Fits n none = Unit {0}
Fits n (some t) = t < n

abbrev pub AllFit : ℕ → List CompiledExecutionRoute → Type 0
AllFit n [] = Unit {0}
AllFit n (r ∷ rest) = (r.target < n) × AllFit n rest

-- The targets of an instruction are among n steps; a branch has a route and a positive weight.
abbrev pub InstructionFits : ℕ → Instruction → Type 0
InstructionFits n (Instruction.scenario index next) = Fits n next
InstructionFits n (Instruction.branch routes weight join) =
    (0 < weight) × (0 < length routes) × AllFit n routes
InstructionFits n (Instruction.join next) = Fits n next
InstructionFits n (Instruction.loop body exit max_iterations) = (body < n) × Fits n exit

abbrev pub StepsFit : ℕ → List CompiledExecutionStep → Type 0
StepsFit n [] = Unit {0}
StepsFit n (s ∷ rest) = InstructionFits n s.instruction × StepsFit n rest

-- The iterations that a step may count.
abbrev pub allowed : Instruction → ℕ
allowed (Instruction.loop body exit max_iterations) = max_iterations
allowed _ = 0

abbrev pub allowed_at : List CompiledExecutionStep → ℕ → ℕ
allowed_at [] i = 0
allowed_at (s ∷ rest) zero = allowed s.instruction
allowed_at (s ∷ rest) (suc i) = allowed_at rest i

step_of :
    (n : ℕ) (steps : List CompiledExecutionStep) (i : ℕ)
    → StepsFit n steps
    → i < length steps
    → (s : CompiledExecutionStep) × (get_elem? steps i ≡ some s)
      × InstructionFits n s.instruction
      × (allowed_at steps i ≡ allowed s.instruction)
step_of n [] i f h = absurd (omega (arith, h))
step_of n (s ∷ rest) zero (here, later) h = (s, refl, here, refl)
step_of n (s ∷ rest) (suc i) (here, later) h = step_of n rest i later (omega (arith, h))

picked-fits :
    (n v : ℕ) (routes : List CompiledExecutionRoute)
    → AllFit n routes
    → (r : CompiledExecutionRoute) → pick_route v routes ≡ some r
    → r.target < n
unfolding pick_route
picked-fits n v [] f r e = absurd (ground (arith, e))
picked-fits n v (x ∷ rest) (here, later) r e =
    let below = picked-fits n (v - x.weight) rest later r in ground (arith, e, here, below)

last-fits :
    (n : ℕ) (routes : List CompiledExecutionRoute)
    → 0 < length routes
    → AllFit n routes
    → (r : CompiledExecutionRoute) × (last_route routes ≡ some r) × (r.target < n)
last-fits n [] h f = absurd (omega (arith, h))
last-fits n (x ∷ []) h (here, later) = (x, refl, here)
last-fits n (x ∷ y ∷ rest) h (here, later) = last-fits n (y ∷ rest) (omega arith) later

selected-fits :
    (n : ℕ) (id : String) (routes : List CompiledExecutionRoute) (weight w k : ℕ)
    → 0 < weight
    → 0 < length routes
    → AllFit n routes
    → (r : CompiledExecutionRoute) × (select_execution_route id routes weight w k ≡ some r)
      × (r.target < n)
unfolding select_execution_route
selected-fits n id routes weight w k p h f =
    let weighty : (weight == 0) ≡ false = ground (arith, p) in
    let v = deterministic_execution_value w k id % weight in
    let (r, e, fits) = last-fits n routes h f in
    elim (Option-cases (pick_route v routes)) [
      | inl none_left ↦ (r, rw weighty (rw none_left e), fits)
      | inr (x, picked) ↦ (x, rw weighty (rw picked refl), picked-fits n v routes f x picked)
    ]

abbrev ProgressFits : ℕ → Progress → Type 0
ProgressFits n (Progress.leave b) = Unit {0}
ProgressFits n (Progress.goto target) = Fits n target

module _ {S : Type 0} (machine : Machine S) (w k : ℕ) (steps : List CompiledExecutionStep) where
  -- No step has counted more iterations than it may.
  abbrev pub LoopsBounded : Runtime S → Type 0
  LoopsBounded runtime = (i : ℕ) → runtime.loop_iterations i ≤ allowed_at steps i

  Good : ℕ → Progress × Runtime S → Type 0
  Good n q = ProgressFits n q.0 × LoopsBounded q.1

  after_step-Good :
      (n : ℕ) (next : Option ℕ) (runtime : Runtime S) (q : StepOutcome × S)
      → Fits n next
      → LoopsBounded runtime
      → Good n (after_step machine w k next runtime q)
  unfolding Good
  after_step-Good n next runtime (StepOutcome.step_canceled, s) f b = (tt, b)
  after_step-Good n next runtime (StepOutcome.step_stop_iteration, s) f b = (tt, b)
  after_step-Good n next runtime (StepOutcome.step_continue, s) f b = (f, b)

  leave_route-Good :
      (n counter : ℕ) (next : Option ℕ) (runtime : Runtime S) (active : List ActiveRoute)
      → Fits n next
      → LoopsBounded runtime
      → Good n (leave_route machine w k counter next runtime active)
  unfolding Good
  leave_route-Good n counter next runtime [] f b = (tt, b)
  leave_route-Good n counter next runtime (top ∷ outer) f b =
      elim (Bool-cases (top.join == counter)) [ inl e ↦ rw e (f, b) | inr e ↦ rw e (tt, b) ]

  update-bounded :
      (f : ℕ → ℕ) (counter value : ℕ)
      → ((i : ℕ) → f i ≤ allowed_at steps i)
      → value ≤ allowed_at steps counter
      → (i : ℕ) → update f counter value i ≤ allowed_at steps i
  unfolding update
  update-bounded f counter value b h i = elim (Bool-cases (i == counter)) [
    | inl e ↦ rw e (subst (λ j. value ≤ allowed_at steps j) (sym ((==_iff i counter).0 e)) h)
    | inr e ↦ rw e (b i)
  ]

  loop-Good :
      (n counter body : ℕ) (exit : Option ℕ) (m : ℕ) (runtime : Runtime S)
      → body < n
      → Fits n exit
      → allowed_at steps counter ≡ m
      → LoopsBounded runtime
      → Good n (run_loop machine w k counter body exit m runtime)
  unfolding Good run_loop
  loop-Good n counter body exit m runtime inside f a b =
      let count = runtime.loop_iterations counter in
      elim (Bool-cases (ltb count m)) [
        | inl e ↦ rw e (
          inside,
          update-bounded runtime.loop_iterations counter (count + 1) b
              (omega (arith, a, ltb→lt count m e)),
        )
        | inr e ↦ rw e (f, update-bounded runtime.loop_iterations counter 0 b (omega arith))
      ]

  Advances : ℕ → Option (Progress × Runtime S) → Type 0
  Advances n o = (q : Progress × Runtime S) × (o ≡ some q) × Good n q

  run_instruction-Advances :
      (n counter : ℕ) (id : String) (x : Instruction) (runtime : Runtime S)
      → InstructionFits n x
      → allowed_at steps counter ≡ allowed x
      → LoopsBounded runtime
      → Advances n (run_instruction machine w k counter id x runtime)
  unfolding run_instruction Advances Good
  run_instruction-Advances n counter id (Instruction.scenario index next) runtime f a b = (
    _,
    refl,
    after_step-Good n next runtime (machine.run_step index runtime.active_routes runtime.rest) f b,
  )
  run_instruction-Advances n counter id (Instruction.branch routes weight join) runtime f a b =
      let (r, e, fits) = selected-fits n id routes weight w k f.0 f.1 f.2 in
      (enter_route machine w k join runtime r, rw e refl, (fits, b))
  run_instruction-Advances n counter id (Instruction.join next) runtime f a b =
      (_, refl, leave_route-Good n counter next runtime runtime.active_routes f b)
  run_instruction-Advances n counter id (Instruction.loop body exit m) runtime f a b =
      (_, refl, loop-Good n counter body exit m runtime f.0 f.1 a b)

  Ends : Option (Bool × Runtime S) → Type 0
  Ends o = (b : Bool) × (r : Runtime S) × (o ≡ some (b, r)) × LoopsBounded r

  proceed-Ends :
      (go : Option ℕ → Runtime S → Option (Bool × Runtime S))
      → ((target : Option ℕ) (after : Runtime S)
          → Fits (length steps) target
          → LoopsBounded after
          → Ends (go target after))
      → (q : Progress × Runtime S) → Good (length steps) q
      → Ends (proceed machine w k go (some q))
  unfolding Ends Good
  proceed-Ends go h (Progress.leave b, after) good = (b, after, refl, good.1)
  proceed-Ends go h (Progress.goto target, after) good = h target after good.0 good.1

  run_from-Ends :
      (left : ℕ) (counter : Option ℕ) (runtime : Runtime S)
      → StepsFit (length steps) steps
      → Fits (length steps) counter
      → LoopsBounded runtime
      → Ends (run_from machine w k steps left counter runtime)
  unfolding run_from Ends Advances Good
  run_from-Ends zero counter runtime fit f b = (true, runtime, refl, b)
  run_from-Ends (suc left) none runtime fit f b = (true, runtime, refl, b)
  run_from-Ends (suc left) (some counter) runtime fit f b =
      let (s, at, fits, bound) = step_of (length steps) steps counter fit f in
      let (q, done, good) =
        run_instruction-Advances (length steps) counter s.id s.instruction runtime fits bound b in
      let ends =
        proceed-Ends (run_from machine w k steps left)
          (λ target after g c. run_from-Ends left target after fit g c) q good in
      rw at (rw done ends)

-- If all targets of a plan exist and each branch has a route and a positive
-- weight, an iteration always returns, wherever
-- it enters and however its requests end, and no loop ever counts more iterations than it may.
pub run_planned_iteration-bounded :
    {S : Type 0} (machine : Machine S) (worker_index iteration_index : ℕ)
    (steps : List CompiledExecutionStep) (entry max_transitions : ℕ) (s : S)
    → StepsFit (length steps) steps
    → entry < length steps
    → (completed : Bool) × (runtime : Runtime S) × (run_planned_iteration machine worker_index
          iteration_index steps entry max_transitions s
        ≡ some (completed, runtime))
      × LoopsBounded machine worker_index iteration_index steps runtime
unfolding run_planned_iteration Ends
run_planned_iteration-bounded machine w k steps entry max_transitions s fit inside =
    run_from-Ends machine w k steps max_transitions (some entry) _ fit inside (λ i. omega arith)
