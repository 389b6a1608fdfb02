-- ===== src/Validate/Tests.antt =====
-- Configurations that the validation is tried on.
use flow_routine.Prelude.{◌≡◌, refl, none, some}
use flow_routine.Prelude.Int.{◌-ℤ◌, ◌+ℤ◌, max_ℤ, pos, negsuc}
use flow_routine.Prelude.Result.{ok, err}
use flow_routine.Config.{Config}
use flow_routine.LoadProfile.{
  start_totals, scan_stages, is_unset, in_force, compile_profile, compile_mode,
  compile_load_profile, compile_arrival, negative_start_target,
}
use flow_routine.LoadProfile.Tests.{config, climbing}
use flow_routine.Validate.{
  compile_config, check_numbers, ScenarioChecks, rate_limit_range, profile, validate_config,
}
use flow_routine.Validate.Accepts.{IsAcceptable, validate_config_sound, validate_config_complete}

-- Scenario checks that let every scenario pass.
abbrev pub lenient : ScenarioChecks
lenient = record { check_target = λ s. none; check_variables = λ s. none; check_steps = λ s. none }

abbrev pub arriving : Config
arriving = record config { profile = some climbing; max_conns_per_host = pos 12 }

pub validate-arriving : validate_config lenient arriving ≡ ok tt
unfolding validate_config compile_config check_numbers compile_load_profile in_force is_unset
    compile_profile scan_stages start_totals ◌-ℤ◌ ◌+ℤ◌ compile_mode compile_arrival max_ℤ
validate-arriving = refl

validate-over_limit :
    validate_config lenient (record config { rate_limit_rps = pos 10_000_001 })
    ≡ err rate_limit_range
unfolding validate_config compile_config check_numbers
validate-over_limit = refl

validate-negative_start :
    validate_config lenient
      (record config { profile = some (record climbing { start_target = negsuc 4 }) })
    ≡ err (profile negative_start_target)
unfolding validate_config compile_config check_numbers compile_load_profile in_force is_unset
    compile_profile scan_stages start_totals ◌-ℤ◌ ◌+ℤ◌
validate-negative_start = refl

validate_config_sound_example : IsAcceptable lenient arriving
validate_config_sound_example = validate_config_sound lenient arriving validate-arriving

arriving-IsAcceptable : IsAcceptable lenient arriving
arriving-IsAcceptable = validate_config_sound lenient arriving validate-arriving

validate_config_complete_example : validate_config lenient arriving ≡ ok tt
validate_config_complete_example = validate_config_complete lenient arriving arriving-IsAcceptable
