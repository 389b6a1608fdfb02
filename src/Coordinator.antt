-- ===== src/Coordinator.antt =====
-- internal/distributed/coordinator.go: the plans that `Coordinator.Start` makes for its workers.
pub mod Accepted
pub mod Tests
use flow_routine.Prelude.{
  ℕ, zero, suc, ◌+◌, ◌-◌, ◌*◌, ◌/◌, ◌%◌, ◌^◌, ◌≤◌, ◌<◌, min, max, ◌≡◌, refl, sym, ap, ◌∙◌, subst,
  ◌≢◌, ◌↔◌, ◌⊎◌, inl, inr, Bool, true, false, ◌&&◌, ◌||◌, not, Option, none, some, List, [], ◌∷◌,
  ◌++◌, map, arith, ltb, leb, ◌==◌, if◌then◌else◌, ltb→lt, lt→ltb, leb→le, ==_iff, tests,
  Bool-cases, Option-cases, length, get_elem?, get_or, set, replicate, take, drop, length-append,
  length-set, length-replicate, length-map, get_or-set,
}
use Prim.Native.String.{String}
use flow_routine.Prelude.Int.{ℤ, pos}
use flow_routine.Prelude.Result.{Result, ok, err, ◌>>=◌, ◌>>◌}
use flow_routine.Config.{Config}
use flow_routine.Validate.{ScenarioChecks}
use flow_routine.Shard.{ShardError, shard_configs}
use flow_routine.Protocol.Wire
use flow_routine.Protocol.Convert.{engine_config, new_plan_config}
use flow_routine.Protocol.Identifier.{PlanError, validate_plan}

pub data StartError : Type 0 where
  bad_plan : PlanError → StartError
  bad_shards : ShardError → StartError

abbrev pub or_bad_plan : Result PlanError (Unit {0}) → Result StartError (Unit {0})
or_bad_plan (ok a) = ok a
or_bad_plan (err e) = err (bad_plan e)

abbrev pub or_bad_shards : Result ShardError (List Config) → Result StartError (List Config)
or_bad_shards (ok a) = ok a
or_bad_shards (err e) = err (bad_shards e)

-- `workerPlan`: the plan with the shard of one worker for its configuration.
unfoldable pub worker_plan : Wire.ExecutionPlan → Config → Wire.ExecutionPlan
worker_plan plan shard = record plan { config = new_plan_config shard }

-- The part of `Start` before the workers are called, and the plan each of them is sent.
unfoldable pub worker_plans :
    ScenarioChecks
    → ℕ
    → Wire.ExecutionPlan
    → List (String × String)
    → Result StartError (List Wire.ExecutionPlan)
unfolding worker_plan
worker_plans checks clients plan runtime_bindings = do
  or_bad_plan (validate_plan checks plan runtime_bindings)
  shards ←
      or_bad_shards
        (shard_configs checks (engine_config plan.config runtime_bindings) (pos clients))
  ok (map (worker_plan plan) shards)
