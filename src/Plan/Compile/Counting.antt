-- ===== src/Plan/Compile/Counting.antt =====
-- internal/engine/execution_plan.go: how often `usedScenarioSteps` uses the steps of a scenario.
use flow_routine.Prelude.{
  ℕ, zero, suc, ◌+◌, ◌≤◌, ◌<◌, ◌≡◌, refl, ap, ◌∙◌, ◌⊎◌, inl, inr, true, false, some, List, [], ◌∷◌,
  arith, ◌==◌, ==_iff, Bool-cases, length,
}
use flow_routine.Plan.{Instruction, CompiledExecutionStep}
use flow_routine.Plan.Cycles.Counts.{bit}
use flow_routine.Plan.Requests.{scenario_of, scenario_at}
use flow_routine.Plan.Instructions.{has_index}
use flow_routine.Plan.Compile.Fits.{Sound, AllSound, Once, Unused, used_after, all_used}

-- How many of the first m numbers stand in a list.
present : ℕ → List ℕ → ℕ
present zero used = 0
present (suc m) used = bit (has_index used m) + present m used

present-le : (m : ℕ) (used : List ℕ) → present m used ≤ m
unfolding present
present-le zero used = omega arith
present-le (suc m) used = ground (arith, present-le m used)

present-full :
    (m : ℕ) (used : List ℕ) → present m used ≡ m → (i : ℕ) → i < m → has_index used i ≡ true
unfolding present
present-full zero used full i inside = absurd (omega (arith, inside))
present-full (suc m) used full i inside =
    let last : has_index used m ≡ true = ground (arith, full, present-le m used) in
    elim (Bool-cases (i == m)) [
      | inl e ↦ let same : i ≡ m = (==_iff i m).0 e in rw same last
      | inr e ↦ present-full m used (ground (arith, full, last)) i (ground (arith, inside, e))
    ]

present-above : (m : ℕ) (used : List ℕ) (x : ℕ) → m ≤ x → present m (x ∷ used) ≡ present m used
unfolding present has_index
present-above zero used x h = refl
present-above (suc m) used x h = ground (arith, present-above m used x (omega (arith, h)), h)

present-new :
    (m : ℕ) (used : List ℕ) (x : ℕ)
    → x < m
    → has_index used x ≡ false
    → present m (x ∷ used) ≡ suc (present m used)
unfolding present has_index
present-new zero used x inside fresh = absurd (omega (arith, inside))
present-new (suc m) used x inside fresh = elim (Bool-cases (x == m)) [
  | inl e ↦
      let same : x ≡ m = (==_iff x m).0 e in
      ground
        (arith, ap (has_index used) same, fresh, e, present-above m used x (omega (arith, same)))
  | inr e ↦ ground (arith, e, present-new m used x (ground (arith, inside, e)) fresh)
]

present-step :
    (n m : ℕ) (used : List ℕ) (i : Instruction)
    → present m used ≡ length used
    → Unused used i
    → Sound n m i
    → present m (used_after used i) ≡ length (used_after used i)
present-step n m used (Instruction.scenario k next) exact fresh inside =
    present-new m used k inside fresh ∙ ap suc exact
present-step n m used (Instruction.branch routes weight join) exact fresh sound = exact
present-step n m used (Instruction.join next) exact fresh sound = exact
present-step n m used (Instruction.loop body exit k) exact fresh sound = exact

present-all :
    (n m : ℕ) (used : List ℕ) (steps : List CompiledExecutionStep)
    → present m used ≡ length used
    → Once used steps
    → AllSound n m steps
    → present m (all_used used steps) ≡ length (all_used used steps)
present-all n m used [] exact once sound = exact
present-all n m used (s ∷ rest) exact (fresh, once) (here, sound) =
    present-all n m (used_after used s.instruction) rest
      (present-step n m used s.instruction exact fresh here) once sound

-- A number that is used in the end was used before, or by a step.
used_before :
    (used : List ℕ) (i : Instruction) (k : ℕ)
    → has_index (used_after used i) k ≡ true
    → (has_index used k ≡ true) ⊎ (scenario_of i ≡ some k)
unfolding has_index scenario_of
used_before used (Instruction.scenario j next) k h = elim (Bool-cases (j == k)) [
  | inl e ↦ inr (ap some ((==_iff j k).0 e))
  | inr e ↦ inl (ground (arith, h, e))
]
used_before used (Instruction.branch routes weight join) k h = inl h
used_before used (Instruction.join next) k h = inl h
used_before used (Instruction.loop body exit x) k h = inl h

user_of :
    (used : List ℕ) (steps : List CompiledExecutionStep) (k : ℕ)
    → has_index (all_used used steps) k ≡ true
    → (has_index used k ≡ true) ⊎ ((m : ℕ) × (scenario_at steps m ≡ some k))
unfolding scenario_at
user_of used [] k h = inl h
user_of used (s ∷ rest) k h = elim (user_of (used_after used s.instruction) rest k h) [
  | inl before ↦ elim (used_before used s.instruction k before) [
    | inl earlier ↦ inl earlier
    | inr here ↦ inr (0, here)
  ]
  | inr (m, at) ↦ inr (suc m, at)
]

present-empty : (m : ℕ) → present m [] ≡ 0
unfolding present has_index
present-empty zero = refl
present-empty (suc m) = omega (arith, present-empty m)

pub every_index_used :
    (n m : ℕ) (steps : List CompiledExecutionStep)
    → Once [] steps
    → AllSound n m steps
    → length (all_used [] steps) ≡ m
    → (k : ℕ) → k < m
    → (j : ℕ) × (scenario_at steps j ≡ some k)
unfolding has_index
every_index_used n m steps once sound full k inside =
    let exact = present-all n m [] steps (present-empty m) once sound in
    elim (user_of [] steps k (present-full m (all_used [] steps) (exact ∙ full) k inside)) [
      | inl h ↦ absurd (ground (arith, h))
      | inr at ↦ at
    ]
