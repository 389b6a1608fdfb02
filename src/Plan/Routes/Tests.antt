-- ===== src/Plan/Routes/Tests.antt =====
-- A branch with two routes.
use flow_routine.Prelude.{◌%◌, ◌≡◌, refl, some, List, [], ◌∷◌, arith}
use flow_routine.Plan.{CompiledExecutionRoute}
use flow_routine.Plan.Hash.{deterministic_execution_value}
use flow_routine.Plan.Routes.{pick_route, select_execution_route}
use flow_routine.Plan.Routes.Chosen.{total_weight, IsChosen, select_execution_route-IsChosen}

abbrev heavy : CompiledExecutionRoute
heavy = record {
  id = "a";
  name = "a";
  target = 1;
  weight = 3;
  metrics_index = 0;
  scope_key = "b:a";
}

abbrev light : CompiledExecutionRoute
light = record {
  id = "c";
  name = "c";
  target = 2;
  weight = 1;
  metrics_index = 1;
  scope_key = "b:c";
}

abbrev routes : List CompiledExecutionRoute
routes = heavy ∷ light ∷ []

pick-bounds : (pick_route 2 routes ≡ some heavy) × (pick_route 3 routes ≡ some light)
unfolding pick_route
pick-bounds = (refl, refl)

select_execution_route-IsChosen_example :
    (route : CompiledExecutionRoute) × (select_execution_route "b" routes (total_weight routes) 0 5
      ≡ some route)
    × IsChosen (deterministic_execution_value 0 5 "b" % total_weight routes) routes route
select_execution_route-IsChosen_example =
    select_execution_route-IsChosen "b" routes 0 5 (omega arith)
