-- ===== src/Plan/Routes.antt =====
-- internal/engine/execution_runtime.go: the route that an iteration takes at a branch.
pub mod Chosen
mod Tests
use flow_routine.Prelude.{
  ℕ, zero, suc, ◌+◌, ◌-◌, ◌*◌, ◌/◌, ◌%◌, ◌^◌, ◌≤◌, ◌<◌, min, max, ◌≡◌, refl, sym, ap, ◌∙◌, subst,
  ◌≢◌, ◌↔◌, ◌⊎◌, inl, inr, Bool, true, false, ◌&&◌, ◌||◌, not, Option, none, some, List, [], ◌∷◌,
  ◌++◌, map, arith, ltb, leb, ◌==◌, if◌then◌else◌, ltb→lt, lt→ltb, leb→le, ==_iff, tests,
  Bool-cases, Option-cases, length, get_elem?, get_or, set, replicate, take, drop, length-append,
  length-set, length-replicate, length-map, get_or-set,
}
use Prim.Native.String.{String}
use flow_routine.Plan.{CompiledExecutionRoute}
use flow_routine.Plan.Hash.{deterministic_execution_value}

-- The loop; `none` if no weight is above what is left of the selection.
unfoldable pub pick_route : ℕ → List CompiledExecutionRoute → Option CompiledExecutionRoute
pick_route selection [] = none
pick_route selection (route ∷ rest) =
    let later = pick_route (selection - route.weight) rest in
    if ltb selection route.weight then some route else later

abbrev pub last_route : List CompiledExecutionRoute → Option CompiledExecutionRoute
last_route [] = none
last_route (route ∷ []) = some route
last_route (route ∷ next ∷ rest) = last_route (next ∷ rest)

abbrev pub or_else :
    Option CompiledExecutionRoute → Option CompiledExecutionRoute → Option CompiledExecutionRoute
or_else none other = other
or_else (some route) other = some route

-- `selectExecutionRoute` for a branch with this id, routes and total weight; `none` where Go panics,
-- as the weight is 0 or the branch has no route.
unfoldable pub select_execution_route :
    String → List CompiledExecutionRoute → ℕ → ℕ → ℕ → Option CompiledExecutionRoute
unfolding pick_route
select_execution_route id routes route_weight worker_index iteration_index =
    let value = deterministic_execution_value worker_index iteration_index id in
    if route_weight == 0
    then none
    else or_else (pick_route (value % route_weight) routes) (last_route routes)
