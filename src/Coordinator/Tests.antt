-- ===== src/Coordinator/Tests.antt =====
-- A plan for two workers.
use flow_routine.Prelude.{◌≤◌, ◌<◌, ◌≡◌, refl, List, [], arith, length}
use flow_routine.Prelude.Result.{ok}
use flow_routine.Validate.Tests.{lenient, arriving}
use flow_routine.Protocol.Wire
use flow_routine.Protocol.Convert.{engine_config, new_execution_plan}
use flow_routine.Protocol.Identifier.{validate_plan}
use flow_routine.Coordinator.{worker_plans}
use flow_routine.Coordinator.Accepted.{AllAccepted, worker_plans-AllAccepted}
use flow_routine.LoadProfile.{
  start_totals, scan_stages, is_unset, in_force, compile_profile, compile_mode,
  compile_load_profile, compile_arrival,
}
use flow_routine.Prelude.Int.{◌-ℤ◌, ◌+ℤ◌, max_ℤ}
use flow_routine.Validate.{validate_config, compile_config, check_numbers}

abbrev pub plan : Wire.ExecutionPlan
plan = new_execution_plan "checkout" 3 arriving

pub plan-valid : validate_plan lenient plan [] ≡ ok tt
unfolding validate_plan new_execution_plan validate_config compile_config check_numbers
    engine_config compile_load_profile in_force is_unset compile_profile scan_stages start_totals
    ◌-ℤ◌ ◌+ℤ◌ compile_mode compile_arrival max_ℤ
plan-valid = refl

worker_plans-AllAccepted_example :
    (plans : List Wire.ExecutionPlan) × (worker_plans lenient 2 plan [] ≡ ok plans)
    × (0 < length plans)
    × (length plans ≤ 2)
    × AllAccepted lenient [] plans
worker_plans-AllAccepted_example =
    worker_plans-AllAccepted lenient 2 plan [] plan-valid (omega arith)
