-- ===== src/Plan/Routes/Chosen.antt =====
-- Each route is chosen for as many values of the selection as its weight.
use flow_routine.Prelude.{
  ◌==◌, false, ℕ, ◌+◌, ◌-◌, ◌%◌, ◌≤◌, ◌<◌, ◌≡◌, refl, ap, inl, inr, some, List, [], ◌∷◌, ◌++◌,
  arith, ltb, ltb→lt, Bool-cases,
}
use Prim.Native.String.{String}
use flow_routine.Plan.{CompiledExecutionRoute}
use flow_routine.Plan.Hash.{deterministic_execution_value}
use flow_routine.Plan.Routes.{pick_route, select_execution_route}

-- `totalWeight` of `compileExecutionPlan`.
abbrev pub total_weight : List CompiledExecutionRoute → ℕ
total_weight [] = 0
total_weight (route ∷ rest) = route.weight + total_weight rest

-- `route` stands in the list, and the selection falls into its part of the total weight.
pub record IsChosen (selection : ℕ) (routes : List CompiledExecutionRoute)
    (route : CompiledExecutionRoute) : Type 0 where
  pub before : List CompiledExecutionRoute
  pub after : List CompiledExecutionRoute
  pub split : routes ≡ before ++ route ∷ after
  pub from : total_weight before ≤ selection
  pub below : selection < total_weight before + route.weight

pick_route-IsChosen :
    (selection : ℕ) (routes : List CompiledExecutionRoute)
    → selection < total_weight routes
    → (route : CompiledExecutionRoute) × (pick_route selection routes ≡ some route)
      × IsChosen selection routes route
unfolding pick_route
pick_route-IsChosen selection [] h = absurd (omega (arith, h))
pick_route-IsChosen selection (first ∷ rest) h = elim (Bool-cases (ltb selection first.weight)) [
  | inl inside ↦ (
    first,
    rw inside refl,
    record {
      before = [];
      after = rest;
      split = refl;
      from = omega arith;
      below = omega (arith, ltb→lt selection first.weight inside);
    },
  )
  | inr outside ↦
      let passed : first.weight ≤ selection = ground (arith, outside) in
      let (route, picked, chosen) =
        pick_route-IsChosen (selection - first.weight) rest (omega (arith, h, passed)) in
      (
        route,
        rw outside picked,
        record {
          before = first ∷ chosen.before;
          after = chosen.after;
          split = ap (λ l. first ∷ l) chosen.split;
          from = omega (arith, passed, chosen.from);
          below = omega (arith, passed, chosen.below);
        },
      )
]

-- With the sum of the weights, which is positive, for the route weight, the branch takes the route
-- that the hash falls to if the routes share its values by their weights; the loop never runs past
-- the last route.
pub select_execution_route-IsChosen :
    (id : String) (routes : List CompiledExecutionRoute) (worker_index iteration_index : ℕ)
    → 0 < total_weight routes
    → (route : CompiledExecutionRoute) × (select_execution_route id routes
          (total_weight routes)
          worker_index
          iteration_index
        ≡ some route)
      × IsChosen
          (deterministic_execution_value worker_index iteration_index id % total_weight routes)
          routes
          route
unfolding select_execution_route
select_execution_route-IsChosen id routes worker_index iteration_index positive =
    let value = deterministic_execution_value worker_index iteration_index id in
    let (route, picked, chosen) =
      pick_route-IsChosen (value % total_weight routes) routes (omega (arith, positive)) in
    let weighty : (total_weight routes == 0) ≡ false = ground (arith, positive) in
    (route, rw weighty (rw picked refl), chosen)
