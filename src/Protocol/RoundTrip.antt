-- ===== src/Protocol/RoundTrip.antt =====
-- A configuration survives the way to a worker.
use flow_routine.Prelude.{◌≡◌, refl, ap, Option, none, some, List, [], ◌∷◌, map}
use Prim.Native.String.{String}
use mathlib.Core.Option
use mathlib.Core.Path.{ap₂}
use flow_routine.Config
use flow_routine.Config.{Config}
use flow_routine.Protocol.Convert.{
  from_engine_header, to_engine_header, from_engine_stage, to_engine_stage, from_engine_profile,
  to_engine_profile, from_engine_capture, to_engine_capture, from_engine_step, to_engine_step,
  from_engine_route, to_engine_route, from_engine_plan_step, to_engine_plan_step,
  from_engine_execution_plan, to_engine_execution_plan, new_plan_config, engine_config,
}

-- A list goes there and back if its items do.
map-map_id {ℓ κ} :
    {A : Type ℓ} {B : Type κ} (f : A → B) (g : B → A)
    → ((a : A) → g (f a) ≡ a)
    → (xs : List A) → map g (map f xs) ≡ xs
map-map_id f g h [] = refl
map-map_id f g h (x ∷ xs) = ap₂ ◌∷◌ (h x) (map-map_id f g h xs)

option_map_id {ℓ κ} :
    {A : Type ℓ} {B : Type κ} (f : A → B) (g : B → A)
    → ((a : A) → g (f a) ≡ a)
    → (o : Option A) → Option.map g (Option.map f o) ≡ o
option_map_id f g h none = refl
option_map_id f g h (some a) = ap some (h a)

headers_back : (hs : List Config.Header) → map to_engine_header (map from_engine_header hs) ≡ hs
unfolding to_engine_header from_engine_header
headers_back = map-map_id from_engine_header to_engine_header (λ h. refl)

profile_back : (p : Config.LoadProfile) → to_engine_profile (from_engine_profile p) ≡ p
unfolding to_engine_profile from_engine_profile
profile_back p =
    ap (λ stages. record p { stages = stages })
      (map-map_id from_engine_stage to_engine_stage (λ s. refl) p.stages)

step_back : (s : Config.ScenarioStep) → to_engine_step (from_engine_step s) ≡ s
unfolding to_engine_step from_engine_step
step_back s =
    ap₂ (λ headers captures. record s { headers = headers; captures = captures })
      (headers_back s.headers)
      (map-map_id from_engine_capture to_engine_capture (λ c. refl) s.captures)

plan_step_back : (s : Config.ExecutionPlanStep) → to_engine_plan_step (from_engine_plan_step s) ≡ s
unfolding to_engine_plan_step from_engine_plan_step
plan_step_back s =
    ap (λ routes. record s { routes = routes })
      (map-map_id from_engine_route to_engine_route (λ r. refl) s.routes)

execution_plan_back :
    (p : Config.ExecutionPlan) → to_engine_execution_plan (from_engine_execution_plan p) ≡ p
unfolding to_engine_execution_plan from_engine_execution_plan
execution_plan_back p =
    ap (λ steps. record p { steps = steps })
      (map-map_id from_engine_plan_step to_engine_plan_step plan_step_back p.steps)

-- What a worker makes of the plan that it is sent is the coordinator's configuration, with the
-- runtime bindings that came with the request.
pub engine_config-new_plan_config :
    (cfg : Config) (bindings : List (String × String))
    → engine_config (new_plan_config cfg) bindings
      ≡ record cfg { scenario = record cfg.scenario { runtime_variables = bindings } }
unfolding engine_config new_plan_config
engine_config-new_plan_config cfg bindings = λ i. record cfg {
  scenario = record cfg.scenario {
    headers = headers_back cfg.headers i;
    scenario_steps = map-map_id from_engine_step to_engine_step step_back cfg.scenario_steps i;
    execution_plan =
        option_map_id from_engine_execution_plan to_engine_execution_plan execution_plan_back
          cfg.execution_plan i;
    runtime_variables = bindings;
  };
  profile = option_map_id from_engine_profile to_engine_profile profile_back cfg.profile i;
}
