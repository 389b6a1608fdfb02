-- ===== src/LoadProfile.antt =====
-- internal/engine/profile.go: the load profile of a run, checked and compiled.
pub mod Stages
pub mod Accepted
pub mod Tests
use flow_routine.Prelude.{
  ℕ, zero, suc, ◌+◌, ◌-◌, ◌*◌, ◌/◌, ◌%◌, ◌^◌, ◌≤◌, ◌<◌, min, max, ◌≡◌, refl, sym, ap, ◌∙◌, subst,
  ◌≢◌, ◌↔◌, ◌⊎◌, inl, inr, Bool, true, false, ◌&&◌, ◌||◌, not, Option, none, some, List, [], ◌∷◌,
  ◌++◌, map, arith, ltb, leb, ◌==◌, if◌then◌else◌, ltb→lt, lt→ltb, leb→le, ==_iff, tests,
  Bool-cases, Option-cases, length, get_elem?, get_or, set, replicate, take, drop, length-append,
  length-set, length-replicate, length-map,
}
use Prim.Native.String.{String}
use flow_routine.Prelude.Int.{ℤ, pos, negsuc, ◌+ℤ◌, ◌-ℤ◌, leb_ℤ, ltb_ℤ, eqb_ℤ, max_ℤ}
use flow_routine.Prelude.Result.{Result, ok, err, ◌>>=◌, ◌>>◌, guard}
use flow_routine.Config.{LoadMode, LoadStage, LoadProfile, Config}

pub record CompiledLoadProfile : Type 0 where
  pub mode : LoadMode
  pub start_target : ℤ
  pub stages : List LoadStage
  pub duration : ℤ
  pub pre_allocated_vus : ℤ
  pub max_workers : ℤ
  pub graceful_stop : ℤ

-- One constructor for each error of `compileLoadProfile`, with what its message tells.
pub data ProfileError : Type 0 where
  negative_graceful_stop stage_count profile_too_long : ProfileError
  stage_duration stage_target : ℕ → ProfileError
  negative_start_target no_positive_target : ProfileError
  constant_vus_shape constant_arrival_shape too_many_vus too_high_rate : ProfileError
  bad_pre_allocated bad_max_vus rate_limit_with_arrival unsupported_mode : ProfileError

abbrev pub max_load_stages : ℕ
max_load_stages = 64

abbrev pub max_load_profile_virtual_users : ℤ
max_load_profile_virtual_users = pos 100_000

abbrev pub max_rate_limit_rps : ℤ
max_rate_limit_rps = pos 10_000_000

abbrev pub max_int64 : ℤ
max_int64 = pos 9_223_372_036_854_775_807

-- `mode == ""`.
unfoldable pub is_unset : LoadMode → Bool
is_unset LoadMode.unset = true
is_unset _ = false

-- `cfg.Profile == nil || cfg.Profile.Mode == ""`, the other way round: the profile that is in force.
unfoldable pub in_force : Option LoadProfile → Option LoadProfile
in_force none = none
in_force (some p) = if is_unset p.mode then none else some p

abbrev pub active_profile : Config → Option LoadProfile
active_profile cfg = in_force cfg.profile

unfoldable pub compile_legacy_load_profile : Config → ℤ → CompiledLoadProfile
compile_legacy_load_profile cfg virtual_users =
    if ltb_ℤ (pos 0) cfg.ramp_up && ltb_ℤ (pos 1) virtual_users
    then record {
      mode = LoadMode.ramping_vus;
      start_target = pos 1;
      stages = record { duration = cfg.ramp_up; target = virtual_users } ∷ [];
      duration = cfg.duration;
      pre_allocated_vus = pos 0;
      max_workers = virtual_users;
      graceful_stop = pos 0;
    }
    else record {
      mode = LoadMode.constant_vus;
      start_target = virtual_users;
      stages = [];
      duration = cfg.duration;
      pre_allocated_vus = pos 0;
      max_workers = virtual_users;
      graceful_stop = pos 0;
    }

-- The variables of the loop over the stages.
pub record StageTotals : Type 0 where
  pub total_duration : ℤ
  pub max_target : ℤ
  pub positive_target : Bool

-- The loop over the stages, counting from `index`.
unfoldable pub scan_stages : ℕ → List LoadStage → StageTotals → Result ProfileError StageTotals
scan_stages index [] t = ok t
scan_stages index (stage ∷ rest) t = do
  guard (ltb_ℤ (pos 0) stage.duration) (stage_duration (index + 1))
  guard (leb_ℤ (pos 0) stage.target) (stage_target (index + 1))
  guard (leb_ℤ t.total_duration (max_int64 -ℤ stage.duration)) profile_too_long
  scan_stages (index + 1) rest (record {
    total_duration = t.total_duration +ℤ stage.duration;
    max_target = max_ℤ t.max_target stage.target;
    positive_target = t.positive_target || ltb_ℤ (pos 0) stage.target;
  })

unfoldable pub validate_arrival_workers : LoadProfile → Result ProfileError (Unit {0})
validate_arrival_workers p = do
  guard
      (leb_ℤ (pos 1) p.pre_allocated_vus
        && leb_ℤ p.pre_allocated_vus max_load_profile_virtual_users)
      bad_pre_allocated
  guard (leb_ℤ p.pre_allocated_vus p.max_vus && leb_ℤ p.max_vus max_load_profile_virtual_users)
      bad_max_vus

-- `StartTarget >= 1 && len(Stages) == 1 && Stages[0].Target == StartTarget`.
unfoldable pub constant_shape : ℤ → List LoadStage → Bool
constant_shape start [] = false
constant_shape start (stage ∷ []) = leb_ℤ (pos 1) start && eqb_ℤ stage.target start
constant_shape start (stage ∷ _ ∷ _) = false

-- The two `case`s for virtual users, and the two for arrival rates, after the shape test.
unfoldable pub compile_vus :
    CompiledLoadProfile → StageTotals → Result ProfileError CompiledLoadProfile
compile_vus compiled t = do
  guard (leb_ℤ t.max_target max_load_profile_virtual_users) too_many_vus
  ok (record compiled { max_workers = t.max_target })

unfoldable pub compile_arrival :
    Config
    → LoadProfile
    → CompiledLoadProfile
    → StageTotals
    → Result ProfileError CompiledLoadProfile
unfolding validate_arrival_workers
compile_arrival cfg p compiled t = do
  guard (leb_ℤ t.max_target max_rate_limit_rps) too_high_rate
  validate_arrival_workers p
  guard (eqb_ℤ cfg.rate_limit_rps (pos 0)) rate_limit_with_arrival
  ok (record compiled { pre_allocated_vus = p.pre_allocated_vus; max_workers = p.max_vus })

-- `switch profile.Mode`.
unfoldable pub compile_mode :
    LoadMode
    → Config
    → LoadProfile
    → CompiledLoadProfile
    → StageTotals
    → Result ProfileError CompiledLoadProfile
compile_mode LoadMode.constant_vus cfg p compiled t = do
  guard (constant_shape p.start_target p.stages) constant_vus_shape
  compile_vus compiled t
compile_mode LoadMode.ramping_vus cfg p compiled t = compile_vus compiled t
compile_mode LoadMode.constant_arrival cfg p compiled t = do
  guard (constant_shape p.start_target p.stages) constant_arrival_shape
  compile_arrival cfg p compiled t
compile_mode LoadMode.ramping_arrival cfg p compiled t = compile_arrival cfg p compiled t
compile_mode LoadMode.unset cfg p compiled t = err unsupported_mode
compile_mode (LoadMode.unknown s) cfg p compiled t = err unsupported_mode

unfoldable pub start_totals : LoadProfile → StageTotals
start_totals p = record {
  total_duration = pos 0;
  max_target = p.start_target;
  positive_target = ltb_ℤ (pos 0) p.start_target;
}

-- `compileLoadProfile` on a profile that is there and has a mode.
unfoldable pub compile_profile : Config → LoadProfile → ℤ → Result ProfileError CompiledLoadProfile
compile_profile cfg p request_timeout = do
  guard (leb_ℤ (pos 0) p.graceful_stop) negative_graceful_stop
  let graceful_stop = if eqb_ℤ p.graceful_stop (pos 0) then request_timeout else p.graceful_stop
  guard (ltb 0 (length p.stages) && leb (length p.stages) max_load_stages) stage_count
  t ← scan_stages 0 p.stages (start_totals p)
  guard (leb_ℤ (pos 0) p.start_target) negative_start_target
  guard t.positive_target no_positive_target
  let compiled : CompiledLoadProfile = record {
    mode = p.mode;
    start_target = p.start_target;
    stages = p.stages;
    duration = t.total_duration;
    pre_allocated_vus = pos 0;
    max_workers = pos 0;
    graceful_stop = graceful_stop;
  }
  compile_mode p.mode cfg p compiled t

-- The two ways of `compileLoadProfile`, by the profile that is in force.
unfoldable pub compile_active :
    Config → Option LoadProfile → ℤ → ℤ → Result ProfileError CompiledLoadProfile
compile_active cfg none virtual_users request_timeout =
    ok (compile_legacy_load_profile cfg virtual_users)
compile_active cfg (some p) virtual_users request_timeout = compile_profile cfg p request_timeout

unfoldable pub compile_load_profile : Config → ℤ → ℤ → Result ProfileError CompiledLoadProfile
unfolding compile_active
compile_load_profile cfg virtual_users request_timeout =
    compile_active cfg (active_profile cfg) virtual_users request_timeout
