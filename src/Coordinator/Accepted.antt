-- ===== src/Coordinator/Accepted.antt =====
-- No worker refuses the plan that the coordinator makes for it.
use flow_routine.Prelude.{
  ℕ, zero, suc, ◌+◌, ◌≤◌, ◌<◌, ◌≡◌, refl, sym, ap, ◌∙◌, subst, Option, none, some, List, [], ◌∷◌,
  map, arith, length, length-map,
}
use Prim.Native.String.{String}
use flow_routine.Prelude.Int.{pos}
use flow_routine.Prelude.Result.{ok}
use flow_routine.Config
use flow_routine.Config.{Config}
use flow_routine.Validate.{ScenarioChecks, validate_config}
use flow_routine.Shard.{shard_config, shard_load}
use flow_routine.LoadProfile.{active_profile}
use flow_routine.Shard.Complete.{AllValid, shard_list, shard_configs_complete}
use flow_routine.Protocol.Wire
use flow_routine.Protocol.Convert.{engine_config, new_plan_config}
use flow_routine.Protocol.RoundTrip.{engine_config-new_plan_config}
use flow_routine.Protocol.Identifier.{validate_plan}
use flow_routine.Coordinator.{worker_plan, worker_plans}

shard_load-scenario :
    (i c : ℕ) (cfg : Config) (p : Option Config.LoadProfile)
    → (shard_load i c cfg p).scenario ≡ cfg.scenario
unfolding shard_load
shard_load-scenario i c cfg none = refl
shard_load-scenario i c cfg (some p) = refl

shard_config-scenario : (cfg : Config) (c i : ℕ) → (shard_config cfg c i).scenario ≡ cfg.scenario
unfolding shard_config
shard_config-scenario cfg c i = shard_load-scenario i c cfg (active_profile cfg)

-- A worker validates each plan in the list, with these bindings, without an error.
abbrev pub AllAccepted : ScenarioChecks → List (String × String) → List Wire.ExecutionPlan → Type 0
AllAccepted checks bindings [] = Unit {0}
AllAccepted checks bindings (plan ∷ rest) =
    (validate_plan checks plan bindings ≡ ok tt) × AllAccepted checks bindings rest

module _ (checks : ScenarioChecks) (plan : Wire.ExecutionPlan) (bindings : List (String × String))
    (v : validate_plan checks plan bindings ≡ ok tt) where
  abbrev Run : Config
  Run = engine_config plan.config bindings

  Run-valid : validate_config checks Run ≡ ok tt
  unfolding validate_plan
  Run-valid = ground (arith, v)

  -- A worker reads its shard as the coordinator made it, the bindings included.
  shard-same :
      (shard : Config)
      → shard.scenario ≡ Run.scenario
      → engine_config (new_plan_config shard) bindings ≡ shard
  unfolding engine_config
  shard-same shard e =
      engine_config-new_plan_config shard bindings
      ∙ ap (λ s. record shard { scenario = record s { runtime_variables = bindings } }) e
      ∙ sym (ap (λ s. record shard { scenario = s }) e)

  worker_plan-validates :
      (shard : Config)
      → shard.scenario ≡ Run.scenario
      → validate_config checks shard ≡ ok tt
      → validate_plan checks (worker_plan plan shard) bindings ≡ ok tt
  unfolding validate_plan worker_plan
  worker_plan-validates shard e h =
      let w : validate_config checks (engine_config (new_plan_config shard) bindings) ≡ ok tt =
        ap (validate_config checks) (shard-same shard e) ∙ h in
      ground (arith, v, w)

  shard_list-AllAccepted :
      (c i left : ℕ)
      → AllValid checks (shard_list Run c i left)
      → AllAccepted checks bindings (map (worker_plan plan) (shard_list Run c i left))
  unfolding shard_list
  shard_list-AllAccepted c i zero h = tt
  shard_list-AllAccepted c i (suc left) h = (
    worker_plan-validates (shard_config Run c i) (shard_config-scenario Run c i) h.0,
    shard_list-AllAccepted c (i + 1) left h.1,
  )

-- A coordinator with at least one client splits every plan that passes the validation: each of its
-- first clients, at least one, gets a plan, and the worker that validates it, with the same bindings,
-- finds no error.
pub worker_plans-AllAccepted :
    (checks : ScenarioChecks) (clients : ℕ) (plan : Wire.ExecutionPlan)
    (bindings : List (String × String))
    → validate_plan checks plan bindings ≡ ok tt
    → 0 < clients
    → (plans : List Wire.ExecutionPlan) × (worker_plans checks clients plan bindings ≡ ok plans)
      × (0 < length plans)
      × (length plans ≤ clients)
      × AllAccepted checks bindings plans
unfolding worker_plans
worker_plans-AllAccepted checks clients plan bindings v some_client =
    let run = engine_config plan.config bindings in
    let (c, shards, made, split) =
      shard_configs_complete checks run (pos clients) (Run-valid checks plan bindings v)
        (omega arith) in
    let accepted =
      shard_list-AllAccepted checks plan bindings v c 0 c
        (subst (AllValid checks) split.listed split.valid) in
    let counted = length-map shards (worker_plan plan) ∙ split.counted in
    (
      map (worker_plan plan) shards,
      ground (arith, v, made),
      subst (λ n. 0 < n) (sym counted) split.some_worker,
      omega (arith, counted, split.enough_workers),
      subst (λ l. AllAccepted checks bindings (map (worker_plan plan) l)) (sym split.listed)
          accepted,
    )
