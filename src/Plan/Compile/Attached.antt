-- ===== src/Plan/Compile/Attached.antt =====
-- internal/engine/execution_plan.go: the assertions and requests of `attachPlannedAssertions`.
use flow_routine.Prelude.{
  ℕ, zero, suc, ◌+◌, ◌<◌, ◌≡◌, refl, sym, ap, ◌∙◌, ◌≢◌, inl, inr, true, ◌&&◌, not, Option, none,
  some, List, [], ◌∷◌, ◌++◌, arith, ◌==◌, Option-cases, get_elem?,
}
use Prim.Native.String.{String}
use mathlib.Core.Option
use flow_routine.Prelude.Result.{ok}
use flow_routine.Config.{ExecutionPlanStep}
use flow_routine.Plan.{CompiledExecutionStep}
use flow_routine.Plan.Dominators.{Row, has_execution_bit, row_of}
use flow_routine.Plan.Targets.{
  Names, not_a_request, request_not_on_every_path, or_error, resolve_required_execution_target,
}
use flow_routine.Plan.Scenario.{
  CompiledStep, CompiledAction, request, delay, assertion, CompiledAssertion, CompiledRequestStep,
  request_of, request_at, set_action,
}
use flow_routine.Plan.Requests.{
  scenario_of, scenario_at, with_request, attach, attach_action, attach_instruction, attach_from,
  attach_planned_assertions,
}
use flow_routine.Plan.Compile.Ensures.{Ensures, returns, after, checked, found, weaken, recall}
use flow_routine.Plan.Compile.Below.{NamesBelow, resolve_required-Ensures}

-- The kind of a step of the scenario.
pub data Kind : Type 0 where
  is_request is_delay is_assertion is_missing : Kind

abbrev pub kind_of : CompiledAction → Kind
kind_of (request r) = is_request
kind_of (delay d) = is_delay
kind_of (assertion a) = is_assertion

abbrev pub kind_at : List CompiledStep → ℕ → Kind
kind_at [] k = is_missing
kind_at (s ∷ rest) zero = kind_of s.action
kind_at (s ∷ rest) (suc k) = kind_at rest k

abbrev pub SameKinds : List CompiledStep → List CompiledStep → Type 0
SameKinds xs ys = (k : ℕ) → kind_at xs k ≡ kind_at ys k

kind_at-set_action :
    (scenario : List CompiledStep) (k : ℕ) (value : CompiledAction)
    → kind_at scenario k ≡ kind_of value
    → SameKinds (set_action scenario k value) scenario
unfolding set_action
kind_at-set_action [] k value h j = refl
kind_at-set_action (s ∷ rest) zero value h zero = sym h
kind_at-set_action (s ∷ rest) zero value h (suc j) = refl
kind_at-set_action (s ∷ rest) (suc k) value h zero = refl
kind_at-set_action (s ∷ rest) (suc k) value h (suc j) = kind_at-set_action rest k value h j

kind_of-request :
    (a : CompiledAction) (r : CompiledRequestStep) → request_of a ≡ some r → kind_of a ≡ is_request
unfolding request_of
kind_of-request (request x) r h = refl
kind_of-request (delay d) r h = cc
kind_of-request (assertion x) r h = cc

pub kind_at-request :
    (scenario : List CompiledStep) (k : ℕ) (r : CompiledRequestStep)
    → request_at scenario k ≡ some r
    → kind_at scenario k ≡ is_request
unfolding request_at
kind_at-request [] k r h = cc
kind_at-request (s ∷ rest) zero r h = kind_of-request s.action r h
kind_at-request (s ∷ rest) (suc k) r h = kind_at-request rest k r h

-- The action of a step, and its kind.
KindOf : Option CompiledAction → Kind → Type 0
KindOf none kind = kind ≡ is_missing
KindOf (some a) kind = kind ≡ kind_of a

action-KindOf :
    (scenario : List CompiledStep) (k : ℕ)
    → KindOf (Option.map (λ s. s.action) (get_elem? scenario k)) (kind_at scenario k)
unfolding KindOf
action-KindOf [] k = refl
action-KindOf (s ∷ rest) zero = refl
action-KindOf (s ∷ rest) (suc k) = action-KindOf rest k

with_request-found :
    (scenario : List CompiledStep) (o : Option ℕ) (k : ℕ) (r : CompiledRequestStep)
    → with_request scenario o ≡ some (k, r)
    → (o ≡ some k) × (kind_at scenario k ≡ is_request)
with_request-found scenario none k r h = cc
with_request-found scenario (some j) k r h = elim (Option-cases (request_at scenario j)) [
  | inl e ↦ absurd (ground (arith, h, e))
  | inr (x, e) ↦
      let yes : some (j, x) ≡ some (k, r) = rw e at h in
      let same : j ≡ k = cc yes in (ap some same, rw (← same) (kind_at-request scenario j x e))
]

attach-SameKinds :
    (index : ℕ) (a : CompiledAssertion) (k : ℕ) (r : CompiledRequestStep)
    (scenario : List CompiledStep)
    → kind_at scenario index ≡ is_assertion
    → kind_at scenario k ≡ is_request
    → SameKinds (attach index a (k, r) scenario) scenario
unfolding attach
attach-SameKinds index a k r scenario at_index at_k j =
    let updated = record a { request_metrics_index = r.metrics_index } in
    let first = kind_at-set_action scenario index (assertion updated) at_index in
    kind_at-set_action (set_action scenario index (assertion updated)) k
      (request (record r { assertions = r.assertions ++ updated ∷ [] })) (first k ∙ at_k) j
    ∙ first j

module _ (n : ℕ) (steps_by_id : Names) (dominators : List Row) (steps : List CompiledExecutionStep)
    (original : List CompiledStep) where
  -- Another step of the plan is a request, and dominates this one.
  pub record Follows (plan_index : ℕ) (request_id : String) : Type 0 where
    pub source : ℕ
    pub named : resolve_required_execution_target request_id steps_by_id ≡ ok source
    pub inside : source < n
    pub other : source ≢ plan_index
    pub dominates : has_execution_bit (row_of dominators plan_index) source ≡ true
    pub scenario_index : ℕ
    pub at : scenario_at steps source ≡ some scenario_index
    pub is_one : kind_at original scenario_index ≡ is_request

  -- The assertions among the steps from an index on.
  abbrev pub AllFollow : ℕ → List CompiledExecutionStep → List ExecutionPlanStep → Type 0
  AllFollow index rest definitions =
      (m j : ℕ) (s : CompiledExecutionStep) (d : ExecutionPlanStep) (k : ℕ)
      → m ≡ index + j
      → get_elem? rest j ≡ some s
      → get_elem? definitions j ≡ some d
      → scenario_of s.instruction ≡ some k
      → kind_at original k ≡ is_assertion
      → Follows m d.request_step_id

  AllFollow-more :
      (index : ℕ) (step : CompiledExecutionStep) (rest : List CompiledExecutionStep)
      (definition : ExecutionPlanStep) (definitions : List ExecutionPlanStep)
      → ((k : ℕ)
          → scenario_of step.instruction ≡ some k
          → kind_at original k ≡ is_assertion
          → Follows index definition.request_step_id)
      → AllFollow (index + 1) rest definitions
      → AllFollow index (step ∷ rest) (definition ∷ definitions)
  AllFollow-more index step rest definition definitions here later m zero s d k e at defined of
        kind =
      let same_step : step ≡ s = cc at in
      let same_definition : definition ≡ d = cc defined in
      let equal : m ≡ index = omega (arith, e) in
      rw (equal, ← same_definition) (here k (rw same_step of) kind)
  AllFollow-more index step rest definition definitions here later m (suc j) s d k e at defined of
        kind =
      later m j s d k (omega (arith, e)) at defined of kind

  module _ (below : NamesBelow n steps_by_id) where
    attach_action-Ensures :
        (plan_index : ℕ) (request_id : String) (index : ℕ) (action : Option CompiledAction)
        (scenario : List CompiledStep)
        → SameKinds scenario original
        → KindOf action (kind_at scenario index)
        → Ensures
            (λ next.
              SameKinds next original
              × (kind_at original index ≡ is_assertion → Follows plan_index request_id))
            (attach_action steps_by_id dominators steps plan_index request_id index action scenario)
    unfolding attach_action KindOf
    attach_action-Ensures plan_index request_id index none scenario same kind =
        returns (same, λ e. cc (e, kind, same index))
    attach_action-Ensures plan_index request_id index (some (request r)) scenario same kind =
        returns (same, λ e. cc (e, kind, same index))
    attach_action-Ensures plan_index request_id index (some (delay d)) scenario same kind =
        returns (same, λ e. cc (e, kind, same index))
    attach_action-Ensures plan_index request_id index (some (assertion a)) scenario same kind =
        after (resolve_required_execution_target request_id steps_by_id) _ (named request_id)
          (λ source (inside, name).
            let candidate = with_request scenario (scenario_at steps source) in
            after (or_error not_a_request candidate) _ (found not_a_request candidate refl)
              (λ target is_found.
                let (at, is_one) =
                  with_request-found scenario (scenario_at steps source) target.0 target.1
                    is_found in
                let bit = has_execution_bit (row_of dominators plan_index) source in
                checked (not (source == plan_index) && bit) request_not_on_every_path _ refl
                  (λ on_path. returns (
                    λ k. attach-SameKinds index a target.0 target.1 scenario kind is_one k ∙ same k,
                    λ e. record {
                      source = source;
                      named = name;
                      inside = inside;
                      other = ground (arith, on_path);
                      dominates = ground (arith, on_path);
                      scenario_index = target.0;
                      at = at;
                      is_one = sym (same target.0) ∙ is_one;
                    },
                  ))))
      where
        named :
            (id : String)
            → Ensures
                (λ source.
                  (source < n) × (resolve_required_execution_target id steps_by_id ≡ ok source))
                (resolve_required_execution_target id steps_by_id)
        named id =
            recall (resolve_required_execution_target id steps_by_id)
              (resolve_required-Ensures n id steps_by_id below)

    attach_instruction-Ensures :
        (plan_index : ℕ) (request_id : String) (o : Option ℕ) (scenario : List CompiledStep)
        → SameKinds scenario original
        → Ensures
            (λ next.
              SameKinds next original
              × ((k : ℕ)
                  → o ≡ some k
                  → kind_at original k ≡ is_assertion
                  → Follows plan_index request_id))
            (attach_instruction steps_by_id dominators steps plan_index request_id o scenario)
    attach_instruction-Ensures plan_index request_id none scenario same =
        returns (same, λ k e. cc e)
    attach_instruction-Ensures plan_index request_id (some index) scenario same =
        let action = Option.map (λ s. s.action) (get_elem? scenario index) in
        weaken
          (attach_action steps_by_id dominators steps plan_index request_id index action scenario)
          (attach_action-Ensures plan_index request_id index action scenario same
            (action-KindOf scenario index))
          (λ next (kinds, follows). (
            kinds,
            λ k e is_one.
                let equal : index ≡ k = cc e in follows (ap (kind_at original) equal ∙ is_one),
          ))

    attach_from-Ensures :
        (index : ℕ) (rest : List CompiledExecutionStep) (definitions : List ExecutionPlanStep)
        (scenario : List CompiledStep)
        → SameKinds scenario original
        → Ensures
            (λ next. SameKinds next original × AllFollow index rest definitions)
            (attach_from steps_by_id dominators steps index rest definitions scenario)
    unfolding attach_from
    attach_from-Ensures index [] definitions scenario same = returns (same, λ m j s d k e at. cc at)
    attach_from-Ensures index (step ∷ rest) [] scenario same =
        returns (same, λ m j s d k e at defined. cc defined)
    attach_from-Ensures index (step ∷ rest) (definition ∷ definitions) scenario same =
        let request_id = definition.request_step_id in
        let o = scenario_of step.instruction in
        after (attach_instruction steps_by_id dominators steps index request_id o scenario) _
          (attach_instruction-Ensures index request_id o scenario same)
          (λ next (kinds, here).
            weaken (attach_from steps_by_id dominators steps (index + 1) rest definitions next)
              (attach_from-Ensures (index + 1) rest definitions next kinds)
              (λ last (all_kinds, later).
                (all_kinds, AllFollow-more index step rest definition definitions here later)))

-- The assertions keep the kinds of the steps, and each of them follows its request.
pub attach_planned_assertions-Ensures :
    (n : ℕ) (steps_by_id : Names) (dominators : List Row) (steps : List CompiledExecutionStep)
    (scenario : List CompiledStep) (definitions : List ExecutionPlanStep)
    → NamesBelow n steps_by_id
    → Ensures
        (λ next.
          SameKinds next scenario
          × AllFollow n steps_by_id dominators steps scenario 0 steps definitions)
        (attach_planned_assertions steps scenario definitions steps_by_id dominators)
unfolding attach_planned_assertions
attach_planned_assertions-Ensures n steps_by_id dominators steps scenario definitions below =
    attach_from-Ensures n steps_by_id dominators steps scenario below 0 steps definitions scenario
      (λ k. refl)
