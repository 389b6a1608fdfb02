-- ===== src/Validate/Accepts.antt =====
-- What `ValidateConfig` accepts.
use flow_routine.Prelude.{◌≡◌, inl, inr, none, arith}
use flow_routine.Prelude.Int.{pos, ◌≤ℤ◌}
use flow_routine.Prelude.Result.{ok, Result-cases}
use flow_routine.Config.{Config}
use flow_routine.LoadProfile.{active_profile, compile_load_profile, max_rate_limit_rps}
use flow_routine.LoadProfile.Accepted.{
  ProfileFits, compile_load_profile_sound, compile_load_profile_complete,
}
use flow_routine.Validate.{
  ScenarioChecks, or_default, default_virtual_users, default_request_timeout, check_numbers,
  compile_config, validate_config,
}

pub record NumbersFit (cfg : Config) : Type 0 where
  pub virtual_users : pos 0 ≤ℤ cfg.virtual_users
  pub max_conns : pos 0 ≤ℤ cfg.max_conns_per_host
  pub timeout : pos 0 ≤ℤ cfg.request_timeout
  pub duration : pos 0 ≤ℤ cfg.duration
  pub ramp_up : pos 0 ≤ℤ cfg.ramp_up
  pub sample_rate : pos 0 ≤ℤ cfg.latency_sample_rate
  pub rate_limit : pos 0 ≤ℤ cfg.rate_limit_rps
  pub rate_bounded : cfg.rate_limit_rps ≤ℤ max_rate_limit_rps

pub record IsAcceptable (checks : ScenarioChecks) (cfg : Config) : Type 0 where
  pub target : checks.check_target cfg.scenario ≡ none
  pub numbers : NumbersFit cfg
  pub variables : checks.check_variables cfg.scenario ≡ none
  pub profile_fits : ProfileFits cfg (active_profile cfg)
  pub steps : checks.check_steps cfg.scenario ≡ none

check_numbers_sound : (cfg : Config) → check_numbers cfg ≡ ok tt → NumbersFit cfg
unfolding check_numbers
check_numbers_sound cfg h = ground arith

check_numbers_complete : (cfg : Config) → NumbersFit cfg → check_numbers cfg ≡ ok tt
unfolding check_numbers
check_numbers_complete cfg v = ground arith

-- `ValidateConfig` accepts exactly the configurations whose numbers are in range, whose profile is
-- accepted, and whose scenario passes its checks.
pub validate_config_sound :
    (checks : ScenarioChecks) (cfg : Config)
    → validate_config checks cfg ≡ ok tt
    → IsAcceptable checks cfg
unfolding validate_config compile_config
validate_config_sound checks cfg h =
    let users = or_default cfg.virtual_users default_virtual_users in
    let timeout = or_default cfg.request_timeout default_request_timeout in
    elim (Result-cases (check_numbers cfg)) [
      | inl (tt, numbers) ↦ elim (Result-cases (compile_load_profile cfg users timeout)) [
        | inl (c, e) ↦ ground (
          arith,
          numbers,
          check_numbers_sound cfg,
          e,
          compile_load_profile_sound cfg users timeout c,
        )
        | inr (x, e) ↦ ground (arith, numbers, e)
      ]
      | inr (x, e) ↦ ground (arith, e)
    ]

pub validate_config_complete :
    (checks : ScenarioChecks) (cfg : Config)
    → IsAcceptable checks cfg
    → validate_config checks cfg ≡ ok tt
unfolding validate_config compile_config
validate_config_complete checks cfg v =
    let users = or_default cfg.virtual_users default_virtual_users in
    let timeout = or_default cfg.request_timeout default_request_timeout in
    let (c, e) = compile_load_profile_complete cfg users timeout v.profile_fits in
    ground (arith, check_numbers_complete cfg v.numbers, e)
