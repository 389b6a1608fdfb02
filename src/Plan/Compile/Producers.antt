-- ===== src/Plan/Compile/Producers.antt =====
-- internal/engine/execution_plan.go: the table of producers in `validatePlannedTemplates`.
use flow_routine.Prelude.{
  ℕ, suc, ◌+◌, ◌≡◌, refl, sym, ◌≢◌, ◌⊎◌, inl, inr, true, ◌&&◌, not, Option, none, some, List, [],
  ◌∷◌, ◌++◌, arith, ◌==◌, Bool-cases, get_elem?,
}
use Prim.Native.String.{String}
use flow_routine.Plan.{CompiledExecutionStep}
use flow_routine.Plan.Dominators.{Row, has_execution_bit, row_of}
use flow_routine.Plan.Targets.{Names, same_name}
use flow_routine.Plan.Scenario.{
  CompiledStep, CompiledRequestStep, CompiledVariableCapture, request_at,
}
use flow_routine.Plan.Requests.{
  scenario_of, scenario_at, capture_names, produced, produced_at, producers_from, is_available,
}

pub Listed : String → ℕ → Names → Type 0
Listed key source [] = ⊥
Listed key source ((k, s) ∷ rest) = ((k ≡ key) × (s ≡ source)) ⊎ Listed key source rest

Listed-append :
    (key : String) (source : ℕ) (xs ys : Names)
    → Listed key source (xs ++ ys)
    → Listed key source xs ⊎ Listed key source ys
unfolding Listed
Listed-append key source [] ys h = inr h
Listed-append key source ((k, s) ∷ xs) ys (inl e) = inl (inl e)
Listed-append key source ((k, s) ∷ xs) ys (inr h) = elim (Listed-append key source xs ys h) [
  | inl left ↦ inl (inr left)
  | inr right ↦ inr right
]

Listed-captures :
    (key : String) (source plan_index : ℕ) (captures : List CompiledVariableCapture)
    → Listed key source (capture_names plan_index captures)
    → (source ≡ plan_index)
      × ((j : ℕ) × (c : CompiledVariableCapture) × (get_elem? captures j ≡ some c) × (c.name ≡ key))
unfolding Listed
Listed-captures key source plan_index [] h = absurd h
Listed-captures key source plan_index (c ∷ captures) (inl (name, at)) = (sym at, (0, c, refl, name))
Listed-captures key source plan_index (c ∷ captures) (inr h) =
    let (at, (j, d, found, name)) = Listed-captures key source plan_index captures h in
    (at, (suc j, d, found, name))

-- A step of the plan is a request that captures the name.
pub record Captures (scenario : List CompiledStep) (steps : List CompiledExecutionStep) (source : ℕ)
    (key : String) : Type 0 where
  pub scenario_index : ℕ
  pub at : scenario_at steps source ≡ some scenario_index
  pub source_request : CompiledRequestStep
  pub is_one : request_at scenario scenario_index ≡ some source_request
  pub position : ℕ
  pub capture : CompiledVariableCapture
  pub captured : get_elem? source_request.captures position ≡ some capture
  pub name : capture.name ≡ key

CapturesOf : List CompiledStep → Option ℕ → String → Type 0
CapturesOf scenario o key =
    (k : ℕ) × (o ≡ some k)
    × ((r : CompiledRequestStep) × (request_at scenario k ≡ some r)
        × ((j : ℕ) × (c : CompiledVariableCapture) × (get_elem? r.captures j ≡ some c)
            × (c.name ≡ key)))

Listed-produced_at :
    (scenario : List CompiledStep) (key : String) (source plan_index : ℕ) (o : Option ℕ)
    → Listed key source (produced_at scenario plan_index o)
    → (source ≡ plan_index) × CapturesOf scenario o key
unfolding Listed produced CapturesOf
Listed-produced_at scenario key source plan_index none h = absurd h
Listed-produced_at scenario key source plan_index (some k) h = go (request_at scenario k) refl h
  where
    go :
        (o : Option CompiledRequestStep)
        → request_at scenario k ≡ o
        → Listed key source (produced plan_index o)
        → (source ≡ plan_index) × CapturesOf scenario (some k) key
    go none e i = absurd i
    go (some r) e i =
        let (at, which) = Listed-captures key source plan_index r.captures i in
        (at, (k, refl, (r, e, which)))

pub Listed-producers_from :
    (scenario : List CompiledStep) (key : String) (source index : ℕ)
    (steps : List CompiledExecutionStep)
    → Listed key source (producers_from scenario index steps)
    → (j : ℕ) × (source ≡ index + j) × Captures scenario steps j key
unfolding producers_from scenario_at Listed CapturesOf
Listed-producers_from scenario key source index [] h = absurd h
Listed-producers_from scenario key source index (step ∷ steps) h =
    let o = scenario_of step.instruction in
    elim (Listed-append key source (produced_at scenario index o)
      (producers_from scenario (index + 1) steps) h) [
        | inl here ↦
            let (at, (k, of, (r, is_one, (j, c, captured, name)))) =
              Listed-produced_at scenario key source index o here in
            (
              0,
              omega (arith, at),
              record {
                scenario_index = k;
                at = of;
                source_request = r;
                is_one = is_one;
                position = j;
                capture = c;
                captured = captured;
                name = name;
              },
            )
        | inr later ↦
            let (j, at, which) =
              Listed-producers_from scenario key source (index + 1) steps later in
            (
              suc j,
              omega (arith, at),
              record {
                scenario_index = which.scenario_index;
                at = which.at;
                source_request = which.source_request;
                is_one = which.is_one;
                position = which.position;
                capture = which.capture;
                captured = which.captured;
                name = which.name;
              },
            )
      ]

pub is_available_lem :
    (dominators : List Row) (plan_index : ℕ) (producers : Names) (name : String)
    → is_available dominators plan_index producers name ≡ true
    → (key : String) × (source : ℕ) × Listed key source producers
      × (same_name key name ≡ true)
      × (source ≢ plan_index)
      × (has_execution_bit (row_of dominators plan_index) source ≡ true)
unfolding is_available Listed
is_available_lem dominators plan_index [] name h = cc
is_available_lem dominators plan_index ((key, source) ∷ rest) name h =
    elim (Bool-cases (
      same_name key name
      && (not (source == plan_index) && has_execution_bit (row_of dominators plan_index) source))) [
        | inl here ↦ (
          key,
          source,
          inl (refl, refl),
          ground (arith, here),
          ground (arith, here),
          ground (arith, here),
        )
        | inr e ↦
            let (k, s, listed, same, differ, bit) =
              is_available_lem dominators plan_index rest name (ground (arith, h, e)) in
            (k, s, inr listed, same, differ, bit)
      ]
