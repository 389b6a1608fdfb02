-- ===== src/Plan/Compile/Below.antt =====
-- internal/engine/execution_plan.go: the targets that `resolveRequiredExecutionTarget` finds.
use flow_routine.Prelude.{
  ℕ, suc, ◌+◌, ◌≤◌, ◌<◌, ◌≡◌, refl, inl, inr, not, some, List, [], ◌∷◌, arith, leb, Bool-cases,
  length,
}
use Prim.Native.String.{String, len}
use flow_routine.Prelude.Text.{any_control, trim_space}
use flow_routine.Prelude.Result.{guard}
use flow_routine.Plan.Iteration.Safe.{Fits}
use flow_routine.Config.{ExecutionPlanStep}
use flow_routine.Plan.Scenario.{CompiledStep}
use flow_routine.Plan.Instructions.{index_steps, index_scenario}
use flow_routine.Plan.Targets
use flow_routine.Plan.Targets.{
  Names, lookup, same_name, CompileError, missing_target, id_required, outer_whitespace,
  text_too_long, control_character, or_error, execution_plan_id, resolve_required_execution_target,
  resolve_optional_execution_target, validate_scenario_step_text,
}
use flow_routine.Plan.Compile.Ensures.{Ensures, returns, after, checked, tested, found, weaken}

abbrev pub NamesBelow : ℕ → Names → Type 0
NamesBelow n [] = Unit {0}
NamesBelow n ((name, index) ∷ rest) = (index < n) × NamesBelow n rest

pub NamesBelow-later : (n m : ℕ) (names : Names) → n ≤ m → NamesBelow n names → NamesBelow m names
NamesBelow-later n m [] h below = _
NamesBelow-later n m ((name, index) ∷ rest) h (inside, below) =
    (omega (arith, inside, h), NamesBelow-later n m rest h below)

pub lookup-below :
    (n : ℕ) (names : Names) (name : String) (index : ℕ)
    → NamesBelow n names
    → lookup names name ≡ some index
    → index < n
unfolding lookup
lookup-below n [] name index below h = cc
lookup-below n ((key, i) ∷ rest) name index (inside, below) h =
    elim (Bool-cases (same_name key name)) [
      | inl e ↦ ground (arith, h, e, inside)
      | inr e ↦ lookup-below n rest name index below (ground (arith, h, e))
    ]

abbrev pub Anything {ℓ} : {A : Type ℓ} → A → Type 0
Anything a = Unit {0}

pub validate_text-Ensures :
    (value : String) (maximum : ℕ) → Ensures Anything (validate_scenario_step_text value maximum)
unfolding validate_scenario_step_text
validate_text-Ensures value maximum =
    checked (leb (len value) maximum) text_too_long _ refl (λ short.
      weaken (guard (not (any_control value)) control_character)
        (tested (not (any_control value)) control_character refl) (λ u plain. _))

pub execution_plan_id-Ensures : (value : String) → Ensures Anything (execution_plan_id value)
unfolding execution_plan_id
execution_plan_id-Ensures value =
    let trimmed = trim_space value in
    checked (not (same_name trimmed "")) id_required _ refl (λ filled.
      checked (same_name trimmed value) outer_whitespace _ refl (λ whole.
        after (validate_scenario_step_text trimmed 128) _ (validate_text-Ensures trimmed 128)
          (λ valid u. returns _)))

pub resolve_required-Ensures :
    (n : ℕ) (id : String) (names : Names)
    → NamesBelow n names
    → Ensures (λ index. index < n) (resolve_required_execution_target id names)
unfolding resolve_required_execution_target
resolve_required-Ensures n id names below =
    after (execution_plan_id id) _ (execution_plan_id-Ensures id) (λ trimmed u.
      weaken (or_error missing_target (lookup names trimmed))
        (found missing_target (lookup names trimmed) refl)
        (λ index. lookup-below n names trimmed index below))

pub resolve_optional-Ensures :
    (n : ℕ) (id : String) (names : Names)
    → NamesBelow n names
    → Ensures (Fits n) (resolve_optional_execution_target id names)
unfolding resolve_optional_execution_target
resolve_optional-Ensures n id names below = elim (Bool-cases (same_name id "")) [
  | inl e ↦ rw e (returns _)
  | inr e ↦ rw e (
      after (resolve_required_execution_target id names) _
        (resolve_required-Ensures n id names below) (λ target inside. returns inside))
]

pub index_steps-Ensures :
    (index : ℕ) (definitions : List ExecutionPlanStep) (known : Targets.Names)
    → NamesBelow index known
    → Ensures
        (λ r. NamesBelow (index + length definitions) r.1 × (length r.0 ≡ length definitions))
        (index_steps index definitions known)
unfolding index_steps
index_steps-Ensures index [] known below =
    returns (NamesBelow-later index (index + 0) known (omega arith) below, refl)
index_steps-Ensures index (definition ∷ rest) known below =
    after (Targets.execution_plan_id definition.id) _ (execution_plan_id-Ensures definition.id)
      (λ id u.
        checked (not (Targets.is_some (Targets.lookup known id))) Targets.duplicate_step _ refl
          (λ fresh.
            after (index_steps (index + 1) rest ((id, index) ∷ known)) _
              (index_steps-Ensures (index + 1) rest ((id, index) ∷ known)
                (omega arith, NamesBelow-later index (index + 1) known (omega arith) below))
              (λ later (names, size). returns (
                NamesBelow-later (index + 1 + length rest) (index + suc (length rest)) later.1
                    (omega arith) names,
                omega (arith, size),
              ))))

pub index_scenario-NamesBelow :
    (index : ℕ) (scenario : List CompiledStep) (known : Targets.Names)
    → NamesBelow index known
    → NamesBelow (index + length scenario) (index_scenario index scenario known)
unfolding index_scenario
index_scenario-NamesBelow index [] known below =
    NamesBelow-later index (index + 0) known (omega arith) below
index_scenario-NamesBelow index (s ∷ rest) known below =
    NamesBelow-later (index + 1 + length rest) (index + suc (length rest)) _ (omega arith) (
      index_scenario-NamesBelow (index + 1) rest ((s.id, index) ∷ known)
        (omega arith, NamesBelow-later index (index + 1) known (omega arith) below))
