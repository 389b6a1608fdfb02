-- ===== src/LoadProfile/Tests.antt =====
-- The profiles that the theorems are tried on.
use flow_routine.Prelude.{◌≡◌, refl, none, [], ◌∷◌}
use flow_routine.Prelude.Int.{◌-ℤ◌, ◌+ℤ◌, max_ℤ, pos, negsuc}
use flow_routine.Prelude.Result.{ok, err}
use flow_routine.Config.{LoadMode, LoadProfile, Config}
use flow_routine.LoadProfile.{
  start_totals, compile_mode, compile_arrival, scan_stages, compile_profile, negative_start_target,
  unsupported_mode,
}
use flow_routine.LoadProfile.Stages.{peak, total_from}
use flow_routine.LoadProfile.Accepted.{
  IsAccepted, compiled_of, compile_profile_sound, compile_profile_complete,
}

abbrev pub config : Config
config = record {
  scenario = record {
    url = "http://localhost/";
    method = "";
    headers = [];
    body = [];
    scenario_steps = [];
    execution_plan = none;
    runtime_variables = [];
  };
  virtual_users = pos 0;
  duration = pos 0;
  request_timeout = pos 0;
  max_conns_per_host = pos 0;
  read_buffer_size = pos 0;
  write_buffer_size = pos 0;
  max_response_bytes = pos 0;
  latency_sample_rate = pos 0;
  rate_limit_rps = pos 0;
  ramp_up = pos 0;
  profile = none;
}

abbrev pub climbing : LoadProfile
climbing = record {
  mode = LoadMode.ramping_arrival;
  start_target = pos 10;
  stages =
      record { duration = pos 1000; target = pos 50 }
      ∷ record { duration = pos 500; target = pos 20 }
      ∷ [];
  pre_allocated_vus = pos 4;
  max_vus = pos 9;
  graceful_stop = pos 0;
}

compile-climbing : compile_profile config climbing (pos 7) ≡ ok (compiled_of climbing (pos 7))
unfolding compile_profile peak total_from scan_stages start_totals ◌-ℤ◌ ◌+ℤ◌ compile_mode
    compile_arrival max_ℤ
compile-climbing = refl

compile-negative_start :
    compile_profile config (record climbing { start_target = negsuc 0 }) (pos 7)
    ≡ err negative_start_target
unfolding compile_profile scan_stages start_totals ◌-ℤ◌ ◌+ℤ◌
compile-negative_start = refl

compile-unknown_mode :
    compile_profile config (record climbing { mode = LoadMode.unknown "steady" }) (pos 7)
    ≡ err unsupported_mode
unfolding compile_profile scan_stages start_totals ◌-ℤ◌ ◌+ℤ◌ compile_mode
compile-unknown_mode = refl

climbing-IsAccepted : IsAccepted config climbing
climbing-IsAccepted = (compile_profile_sound config climbing (pos 7) _ compile-climbing).0

compile_profile_sound_example :
    IsAccepted config climbing × (compiled_of climbing (pos 7) ≡ compiled_of climbing (pos 7))
compile_profile_sound_example =
    compile_profile_sound config climbing (pos 7) (compiled_of climbing (pos 7)) compile-climbing

compile_profile_complete_example :
    compile_profile config climbing (pos 7) ≡ ok (compiled_of climbing (pos 7))
compile_profile_complete_example =
    compile_profile_complete config climbing (pos 7) climbing-IsAccepted
