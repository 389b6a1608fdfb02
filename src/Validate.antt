-- ===== src/Validate.antt =====
-- internal/engine/config.go: `compileConfig` and `ValidateConfig`, the part that is about the load.
-- The checks of the URL, the runtime variables and the scenario steps read the fields of `Scenario`
-- alone; they are a parameter here, `ScenarioChecks`, and the theorems hold whatever they accept.
pub mod Accepts
pub mod Tests
use flow_routine.Prelude.{
  ℕ, zero, suc, ◌+◌, ◌-◌, ◌*◌, ◌/◌, ◌%◌, ◌^◌, ◌≤◌, ◌<◌, min, max, ◌≡◌, refl, sym, ap, ◌∙◌, subst,
  ◌≢◌, ◌↔◌, ◌⊎◌, inl, inr, Bool, true, false, ◌&&◌, ◌||◌, not, Option, none, some, List, [], ◌∷◌,
  ◌++◌, map, arith, ltb, leb, ◌==◌, if◌then◌else◌, ltb→lt, lt→ltb, leb→le, ==_iff, tests,
  Bool-cases, Option-cases, length, get_elem?, get_or, set, replicate, take, drop, length-append,
  length-set, length-replicate, length-map,
}
use Prim.Native.String.{String}
use flow_routine.Prelude.Int.{ℤ, pos, leb_ℤ, ltb_ℤ, eqb_ℤ}
use flow_routine.Prelude.Result.{Result, ok, err, ◌>>=◌, ◌>>◌, guard}
use flow_routine.Config.{Scenario, Config}
use flow_routine.LoadProfile.{
  CompiledLoadProfile, ProfileError, compile_load_profile, max_rate_limit_rps,
}

-- `none`, or the message of the error.
pub record ScenarioChecks : Type 0 where
  pub check_target : Scenario → Option String
  pub check_variables : Scenario → Option String
  pub check_steps : Scenario → Option String

-- One constructor for each error of `compileConfig`.
pub data ConfigError : Type 0 where
  scenario : String → ConfigError
  negative_virtual_users negative_max_conns negative_request_timeout : ConfigError
  negative_duration negative_ramp_up negative_latency_sample_rate rate_limit_range : ConfigError
  profile : ProfileError → ConfigError

-- The fields of `compiledConfig` that are about the load.
pub record CompiledLoad : Type 0 where
  pub request_timeout : ℤ
  pub max_conns_per_host : ℤ
  pub read_buffer_size : ℤ
  pub write_buffer_size : ℤ
  pub max_response_bytes : ℤ
  pub latency_sample_rate : ℤ
  pub rate_limit_rps : ℤ
  pub load_profile : CompiledLoadProfile

abbrev pub default_virtual_users : ℤ
default_virtual_users = pos 1

abbrev pub default_request_timeout : ℤ
default_request_timeout = pos 5_000_000_000

abbrev pub default_max_conns_per_host : ℤ
default_max_conns_per_host = pos 10_000

abbrev pub default_latency_sample_rate : ℤ
default_latency_sample_rate = pos 1

-- `if x == 0 { x = fallback }`.
abbrev pub or_default : ℤ → ℤ → ℤ
or_default x fallback = if eqb_ℤ x (pos 0) then fallback else x

abbrev pub check : Option String → Result ConfigError (Unit {0})
check none = ok tt
check (some message) = err (scenario message)

abbrev pub with_profile_error :
    Result ProfileError CompiledLoadProfile → Result ConfigError CompiledLoadProfile
with_profile_error (ok p) = ok p
with_profile_error (err e) = err (profile e)

-- The guards on the numbers, in the order of the source.
unfoldable pub check_numbers : Config → Result ConfigError (Unit {0})
check_numbers cfg = do
  guard (leb_ℤ (pos 0) cfg.virtual_users) negative_virtual_users
  guard (leb_ℤ (pos 0) cfg.max_conns_per_host) negative_max_conns
  guard (leb_ℤ (pos 0) cfg.request_timeout) negative_request_timeout
  guard (leb_ℤ (pos 0) cfg.duration) negative_duration
  guard (leb_ℤ (pos 0) cfg.ramp_up) negative_ramp_up
  guard (leb_ℤ (pos 0) cfg.latency_sample_rate) negative_latency_sample_rate
  guard (leb_ℤ (pos 0) cfg.rate_limit_rps && leb_ℤ cfg.rate_limit_rps max_rate_limit_rps)
      rate_limit_range

unfoldable pub compile_config : ScenarioChecks → Config → Result ConfigError CompiledLoad
compile_config checks cfg = do
  check (checks.check_target cfg.scenario)
  check_numbers cfg
  check (checks.check_variables cfg.scenario)
  let request_timeout = or_default cfg.request_timeout default_request_timeout
  load_profile ← with_profile_error (
      compile_load_profile cfg (or_default cfg.virtual_users default_virtual_users) request_timeout)
  check (checks.check_steps cfg.scenario)
  ok (record {
    request_timeout = request_timeout;
    max_conns_per_host = or_default cfg.max_conns_per_host default_max_conns_per_host;
    read_buffer_size = cfg.read_buffer_size;
    write_buffer_size = cfg.write_buffer_size;
    max_response_bytes = cfg.max_response_bytes;
    latency_sample_rate = or_default cfg.latency_sample_rate default_latency_sample_rate;
    rate_limit_rps = cfg.rate_limit_rps;
    load_profile = load_profile;
  })

unfoldable pub validate_config : ScenarioChecks → Config → Result ConfigError (Unit {0})
validate_config checks cfg = do compiled ← compile_config checks cfg; ok tt
