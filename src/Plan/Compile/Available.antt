-- ===== src/Plan/Compile/Available.antt =====
-- internal/engine/execution_plan.go: the template names in `validatePlannedTemplates`.
use flow_routine.Prelude.{
  ℕ, zero, suc, ◌+◌, ◌≡◌, refl, ap, ◌∙◌, subst, ◌≢◌, ◌⊎◌, inl, inr, true, false, some, List, [],
  ◌∷◌, arith, ◌==◌, ==_iff, Bool-cases, get_elem?,
}
use Prim.Native.String.{String}
use flow_routine.Prelude.Result.{guard}
use flow_routine.Plan.{Instruction, CompiledExecutionStep}
use flow_routine.Plan.Dominators.{Row, has_execution_bit, row_of}
use flow_routine.Plan.Targets.{Names, same_name, undefined_template}
use flow_routine.Plan.Scenario.{CompiledStep, CompiledRequestStep, request_at}
use flow_routine.Plan.Requests.{
  scenario_of, scenario_at, producers_from, is_step, plan_index_of, is_bound, all_available,
  templates_of, templates_from, validate_planned_templates,
}
use flow_routine.Plan.Instructions.{has_index}
use flow_routine.Plan.Compile.Ensures.{Ensures, tested, weaken}
use flow_routine.Plan.Compile.Fits.{Once, Unused, used_after}
use flow_routine.Plan.Compile.Producers.{Captures, Listed-producers_from, is_available_lem}

not_again :
    (i : ℕ) (used : List ℕ) (instruction : Instruction)
    → has_index used i ≡ true
    → Unused used instruction
    → is_step i (scenario_of instruction) ≡ false
unfolding scenario_of
not_again i used (Instruction.scenario k next) h fresh = elim (Bool-cases (k == i)) [
  | inl same ↦
      let equal : k ≡ i = (==_iff k i).0 same in
      absurd (ground (arith, ap (has_index used) equal, h, fresh))
  | inr other ↦ other
]
not_again i used (Instruction.branch routes weight join) h fresh = refl
not_again i used (Instruction.join next) h fresh = refl
not_again i used (Instruction.loop body exit k) h fresh = refl

still_used :
    (i : ℕ) (used : List ℕ) (instruction : Instruction)
    → has_index used i ≡ true
    → has_index (used_after used instruction) i ≡ true
unfolding has_index
still_used i used (Instruction.scenario k next) h = ground (arith, h)
still_used i used (Instruction.branch routes weight join) h = h
still_used i used (Instruction.join next) h = h
still_used i used (Instruction.loop body exit k) h = h

now_used :
    (i : ℕ) (used : List ℕ) (instruction : Instruction)
    → scenario_of instruction ≡ some i
    → has_index (used_after used instruction) i ≡ true
unfolding has_index scenario_of
now_used i used (Instruction.scenario k next) e = let same : k ≡ i = cc e in ground (arith, same)
now_used i used (Instruction.branch routes weight join) e = cc
now_used i used (Instruction.join next) e = cc
now_used i used (Instruction.loop body exit k) e = cc

-- A step that was used already does not come again, so the last step with an index is the only one.
plan_index_of-used :
    (i index : ℕ) (used : List ℕ) (rest : List CompiledExecutionStep) (latest : ℕ)
    → Once used rest
    → has_index used i ≡ true
    → plan_index_of i index rest latest ≡ latest
unfolding plan_index_of
plan_index_of-used i index used [] latest once h = refl
plan_index_of-used i index used (step ∷ rest) latest (unused, once) h =
    rw (not_again i used step.instruction h unused) (
      plan_index_of-used i (index + 1) (used_after used step.instruction) rest latest once
        (still_used i used step.instruction h))

pub plan_index_of-at :
    (i index : ℕ) (used : List ℕ) (rest : List CompiledExecutionStep) (latest j : ℕ)
    → Once used rest
    → scenario_at rest j ≡ some i
    → plan_index_of i index rest latest ≡ index + j
unfolding plan_index_of scenario_at
plan_index_of-at i index used [] latest j once at = cc
plan_index_of-at i index used (step ∷ rest) latest zero (unused, once) at =
    let here : is_step i (scenario_of step.instruction) ≡ true = rw at (ground arith) in
    let stays =
      plan_index_of-used i (index + 1) (used_after used step.instruction) rest index once
        (now_used i used step.instruction at) in
    rw here (stays ∙ omega arith)
plan_index_of-at i index used (step ∷ rest) latest (suc j) (unused, once) at =
    plan_index_of-at i (index + 1) (used_after used step.instruction) rest _ j once at ∙ omega arith

module _ (variables : List (String × String)) (dominators : List Row) (scenario : List CompiledStep)
    (steps : List CompiledExecutionStep) where
  -- The name is a runtime variable, or another step that dominates this one captures it.
  pub record Produced (plan_index : ℕ) (template : String) : Type 0 where
    pub source : ℕ
    pub other : source ≢ plan_index
    pub dominates : has_execution_bit (row_of dominators plan_index) source ≡ true
    pub key : String
    pub same : same_name key template ≡ true
    pub captures : Captures scenario steps source key

  abbrev pub Defined : ℕ → String → Type 0
  Defined plan_index template = (is_bound variables template ≡ true) ⊎ Produced plan_index template

  abbrev Producers : Names
  Producers = producers_from scenario 0 steps

  all_available_lem :
      (plan_index : ℕ) (names : List String)
      → all_available variables dominators Producers plan_index names ≡ true
      → (k : ℕ) (template : String) → get_elem? names k ≡ some template
      → Defined plan_index template
  unfolding all_available
  all_available_lem plan_index [] h k template at = cc
  all_available_lem plan_index (name ∷ rest) h (suc k) template at =
      all_available_lem plan_index rest (ground (arith, h)) k template at
  all_available_lem plan_index (name ∷ rest) h zero template at =
      let equal : name ≡ template = cc at in
      elim (Bool-cases (is_bound variables name)) [
        | inl e ↦ inl (rw equal at e)
        | inr e ↦
            let (key, source, listed, same, other, bit) =
              is_available_lem dominators plan_index Producers name (ground (arith, h, e)) in
            let (j, at_j, captures) = Listed-producers_from scenario key source 0 steps listed in
            let position : j ≡ source = omega (arith, at_j) in
            inr (record {
              source = source;
              other = other;
              dominates = bit;
              key = key;
              same = subst (λ t. same_name key t ≡ true) equal same;
              captures = subst (λ p. Captures scenario steps p key) position captures;
            })
      ]

  templates_from_lem :
      (index : ℕ) (rest : List CompiledStep)
      → templates_from variables dominators Producers steps index rest ≡ true
      → (i j : ℕ) (r : CompiledRequestStep) → i ≡ index + j
      → request_at rest j ≡ some r
      → all_available variables dominators Producers (plan_index_of i 0 steps 0) r.template_names
        ≡ true
  unfolding templates_from request_at
  templates_from_lem index [] h i j r e at = cc
  templates_from_lem index (s ∷ rest) h i zero r e at =
      let here : i ≡ index = omega (arith, e) in
      rw here (
        subst
          (λ o.
            all_available variables dominators Producers (plan_index_of index 0 steps 0)
              (templates_of o)
            ≡ true)
          at (ground (arith, h)))
  templates_from_lem index (s ∷ rest) h i (suc j) r e at =
      templates_from_lem (index + 1) rest (ground (arith, h)) i j r (omega (arith, e)) at

  -- Every name in a request of the plan.
  abbrev pub AllDefined : Type 0
  AllDefined =
      (m i : ℕ) (r : CompiledRequestStep) (k : ℕ) (template : String)
      → scenario_at steps m ≡ some i
      → request_at scenario i ≡ some r
      → get_elem? r.template_names k ≡ some template
      → Defined m template

  pub validate_planned_templates-Ensures :
      Once [] steps
      → Ensures (λ u. AllDefined) (validate_planned_templates steps scenario variables dominators)
  unfolding validate_planned_templates
  validate_planned_templates-Ensures once =
      let test = templates_from variables dominators Producers steps 0 scenario in
      weaken (guard test undefined_template) (tested test undefined_template refl)
        (λ u accepted m i r k template at of listed.
          let place : plan_index_of i 0 steps 0 ≡ m =
            plan_index_of-at i 0 [] steps 0 m once at ∙ omega arith in
          subst (λ p. Defined p template) place
            (all_available_lem (plan_index_of i 0 steps 0) r.template_names
              (templates_from_lem 0 scenario accepted i i r (omega arith) of) k template listed))
