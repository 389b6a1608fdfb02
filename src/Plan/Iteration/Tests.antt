-- ===== src/Plan/Iteration/Tests.antt =====
-- A plan whose loop runs its body twice.
use flow_routine.Prelude.{ℕ, ◌+◌, ◌≡◌, refl, Bool, none, some, List, [], ◌∷◌, arith}
use mathlib.Core.Option
use flow_routine.Plan.{Instruction, CompiledExecutionStep}
use flow_routine.Plan.Iteration.{run_loop, Machine, Runtime, StepOutcome, run_planned_iteration}
use flow_routine.Plan.Iteration.Safe.{LoopsBounded, run_planned_iteration-bounded}

-- A machine that counts the requests.
abbrev counting : Machine ℕ
counting = record {
  run_step = λ index active s. (StepOutcome.step_continue, s + 1);
  record_route = λ index s. s;
  push_branch = λ key s. s;
  pop_branch = λ s. s;
}

abbrev steps : List CompiledExecutionStep
steps =
    record { id = "a"; instruction = Instruction.scenario 0 (some 1) }
    ∷ record { id = "b"; instruction = Instruction.loop 2 none 2 }
    ∷ record { id = "c"; instruction = Instruction.scenario 1 (some 1) }
    ∷ []

three_requests :
    Option.map (λ r. r.1.rest) (run_planned_iteration counting 0 0 steps 0 10 0) ≡ some 3
unfolding run_planned_iteration run_loop
three_requests = refl

run_planned_iteration-bounded_example :
    (completed : Bool) × (runtime : Runtime ℕ) × (run_planned_iteration counting 0 0 steps 0 10 0
      ≡ some (completed, runtime))
    × LoopsBounded counting 0 0 steps runtime
run_planned_iteration-bounded_example =
    run_planned_iteration-bounded counting 0 0 steps 0 10 0
      (omega arith, ((omega arith, tt), (omega arith, tt))) (omega arith)
