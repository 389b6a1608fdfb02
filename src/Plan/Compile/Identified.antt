-- ===== src/Plan/Compile/Identified.antt =====
-- internal/engine/execution_plan.go: the names and indexes in `stepsByID`.
use flow_routine.Prelude.{
  ℕ, zero, suc, ◌+◌, ◌≡◌, refl, ap, subst, inl, inr, true, not, some, List, [], ◌∷◌, ◌++◌, arith,
  Bool-cases, length, get_elem?, length-append,
}
use Prim.Native.String.{String}
use flow_routine.Prelude.Text.{trim_space}
use flow_routine.Prelude.Result.{ok}
use flow_routine.Config.{ExecutionPlanStep}
use flow_routine.Plan.Targets.{
  Names, lookup, same_name, is_some, execution_plan_id, duplicate_step, missing_target, or_error,
  resolve_required_execution_target, id_required, outer_whitespace, validate_scenario_step_text,
}
use flow_routine.Plan.Instructions.{index_steps}
use flow_routine.Plan.Compile.Ensures.{Ensures, returns, after, checked, found, ensured, weaken}
use flow_routine.Plan.Compile.Below.{execution_plan_id-Ensures, validate_text-Ensures}

abbrev pub NamesAt : List String → Names → Type 0
NamesAt ids [] = Unit {0}
NamesAt ids ((name, index) ∷ rest) = (get_elem? ids index ≡ some name) × NamesAt ids rest

lookup-at :
    (ids : List String) (names : Names) (name : String) (index : ℕ)
    → NamesAt ids names
    → lookup names name ≡ some index
    → (key : String) × (get_elem? ids index ≡ some key) × (same_name key name ≡ true)
unfolding lookup
lookup-at ids [] name index all h = cc
lookup-at ids ((key, i) ∷ rest) name index (here, all) h = elim (Bool-cases (same_name key name)) [
  | inl e ↦
      let same : i ≡ index = ground (arith, h, e) in
      (key, subst (λ k. get_elem? ids k ≡ some key) same here, e)
  | inr e ↦ lookup-at ids rest name index all (ground (arith, h, e))
]

get_elem?-append :
    (xs ys : List String) (i : ℕ) (x : String)
    → get_elem? xs i ≡ some x
    → get_elem? (xs ++ ys) i ≡ some x
get_elem?-append [] ys i x h = cc
get_elem?-append (y ∷ xs) ys zero x h = h
get_elem?-append (y ∷ xs) ys (suc i) x h = get_elem?-append xs ys i x h

get_elem?-last :
    (xs ys : List String) (x : String) (i : ℕ) → length xs ≡ i → get_elem? (xs ++ x ∷ ys) i ≡ some x
get_elem?-last [] ys x zero size = refl
get_elem?-last [] ys x (suc i) size = absurd (omega (arith, size))
get_elem?-last (y ∷ xs) ys x zero size = absurd (omega (arith, size))
get_elem?-last (y ∷ xs) ys x (suc i) size = get_elem?-last xs ys x i (omega (arith, size))

NamesAt-append : (xs ys : List String) (names : Names) → NamesAt xs names → NamesAt (xs ++ ys) names
NamesAt-append xs ys [] all = _
NamesAt-append xs ys ((name, index) ∷ rest) (here, all) =
    (get_elem?-append xs ys index name here, NamesAt-append xs ys rest all)

append-one : (xs ys : List String) (x : String) → (xs ++ x ∷ []) ++ ys ≡ xs ++ x ∷ ys
append-one [] ys x = refl
append-one (y ∷ xs) ys x = ap (λ zs. y ∷ zs) (append-one xs ys x)

pub index_steps-NamesAt :
    (index : ℕ) (definitions : List ExecutionPlanStep) (known : Names) (before : List String)
    → length before ≡ index
    → NamesAt before known
    → Ensures (λ r. NamesAt (before ++ r.0) r.1) (index_steps index definitions known)
unfolding index_steps
index_steps-NamesAt index [] known before size all = returns (NamesAt-append before [] known all)
index_steps-NamesAt index (definition ∷ rest) known before size all =
    after (execution_plan_id definition.id) _ (execution_plan_id-Ensures definition.id) (λ id u.
      checked (not (is_some (lookup known id))) duplicate_step _ refl (λ fresh.
        let longer = before ++ id ∷ [] in
        after (index_steps (index + 1) rest ((id, index) ∷ known)) _
          (index_steps-NamesAt (index + 1) rest ((id, index) ∷ known) longer
            (omega (arith, length-append before (id ∷ []), size))
            (get_elem?-last before [] id index size, NamesAt-append before (id ∷ []) known all))
          (λ later names.
            returns (subst (λ ids. NamesAt ids later.1) (append-one before later.0 id) names))))

-- The trimmed name is the value itself.
execution_plan_id-same :
    (value : String) → Ensures (λ id. id ≡ trim_space value) (execution_plan_id value)
unfolding execution_plan_id
execution_plan_id-same value =
    let trimmed = trim_space value in
    checked (not (same_name trimmed "")) id_required _ refl (λ filled.
      checked (same_name trimmed value) outer_whitespace _ refl (λ whole.
        after (validate_scenario_step_text trimmed 128) _ (validate_text-Ensures trimmed 128)
          (λ valid u. returns refl)))

-- A target that was found is a step with the name that was asked for.
pub resolve_required-named :
    (ids : List String) (names : Names) (id : String) (index : ℕ)
    → NamesAt ids names
    → resolve_required_execution_target id names ≡ ok index
    → (key : String) × (get_elem? ids index ≡ some key) × (same_name key (trim_space id) ≡ true)
unfolding resolve_required_execution_target
resolve_required-named ids names id index all h =
    ensured (resolve_required_execution_target id names) index resolved h
  where
    resolved :
        Ensures
          (λ i.
            (key : String) × (get_elem? ids i ≡ some key) × (same_name key (trim_space id) ≡ true))
          (resolve_required_execution_target id names)
    resolved = after (execution_plan_id id) _ (execution_plan_id-same id) (λ trimmed same.
        weaken (or_error missing_target (lookup names trimmed))
          (found missing_target (lookup names trimmed) refl)
          (λ i at.
            let (key, here, equal) = lookup-at ids names trimmed i all at in
            (key, here, subst (λ t. same_name key t ≡ true) same equal)))
