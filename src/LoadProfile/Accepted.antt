-- ===== src/LoadProfile/Accepted.antt =====
-- What `compileLoadProfile` accepts and what it makes of it, against the code.
use flow_routine.Prelude.{
  ◌≤◌, ◌<◌, ◌≡◌, refl, inl, inr, true, Option, none, some, List, [], ◌∷◌, arith, if◌then◌else◌,
  length,
}
use flow_routine.Prelude.Int.{ℤ, pos, ◌≤ℤ◌, ◌<ℤ◌, ltb_ℤ, eqb_ℤ, eq_of_parts}
use flow_routine.Prelude.Result.{ok, Result-cases}
use flow_routine.Config.{LoadMode, LoadStage, LoadProfile, Config}
use flow_routine.LoadProfile.{
  CompiledLoadProfile, StageTotals, scan_stages, start_totals, compile_profile, compile_mode,
  constant_shape, max_load_profile_virtual_users, max_rate_limit_rps, compile_vus, compile_arrival,
  compile_active, compile_load_profile, active_profile, max_load_stages,
}
use flow_routine.LoadProfile.Stages.{
  StagesFit, peak, total_from, scan_stages_sound, scan_stages_complete,
}

abbrev pub ConstantShape : ℤ → List LoadStage → Type 0
ConstantShape start [] = ⊥
ConstantShape start (s ∷ []) = (pos 1 ≤ℤ start) × (s.target ≡ start)
ConstantShape start (s ∷ _ ∷ _) = ⊥

pub record FitsVus (top : ℤ) : Type 0 where
  pub vus_bounded : top ≤ℤ max_load_profile_virtual_users

pub record FitsArrival (cfg : Config) (p : LoadProfile) (top : ℤ) : Type 0 where
  pub rate_bounded : top ≤ℤ max_rate_limit_rps
  pub some_allocated : pos 1 ≤ℤ p.pre_allocated_vus
  pub allocated_bounded : p.pre_allocated_vus ≤ℤ max_load_profile_virtual_users
  pub room : p.pre_allocated_vus ≤ℤ p.max_vus
  pub max_bounded : p.max_vus ≤ℤ max_load_profile_virtual_users
  pub unlimited : cfg.rate_limit_rps ≡ pos 0

-- What each mode asks for beyond the common checks, where the greatest target is `top`.
abbrev pub FitsMode : LoadMode → Config → LoadProfile → ℤ → Type 0
FitsMode LoadMode.constant_vus cfg p top = ConstantShape p.start_target p.stages × FitsVus top
FitsMode LoadMode.ramping_vus cfg p top = FitsVus top
FitsMode LoadMode.constant_arrival cfg p top =
    ConstantShape p.start_target p.stages × FitsArrival cfg p top
FitsMode LoadMode.ramping_arrival cfg p top = FitsArrival cfg p top
FitsMode LoadMode.unset cfg p top = ⊥
FitsMode (LoadMode.unknown s) cfg p top = ⊥

pub record IsAccepted (cfg : Config) (p : LoadProfile) : Type 0 where
  pub graceful : pos 0 ≤ℤ p.graceful_stop
  pub some_stage : 0 < length p.stages
  pub few_stages : length p.stages ≤ max_load_stages
  pub stages_fit : StagesFit (pos 0) p.stages
  pub start : pos 0 ≤ℤ p.start_target
  pub positive : pos 0 <ℤ peak p.start_target p.stages
  pub mode_fits : FitsMode p.mode cfg p (peak p.start_target p.stages)

constant_shape_sound :
    (start : ℤ) (stages : List LoadStage)
    → constant_shape start stages ≡ true
    → ConstantShape start stages
unfolding constant_shape
constant_shape_sound start [] h = cc
constant_shape_sound start (s ∷ []) h = ground (arith, eq_of_parts s.target start)
constant_shape_sound start (s ∷ _ ∷ _) h = cc

constant_shape_complete :
    (start : ℤ) (stages : List LoadStage)
    → ConstantShape start stages
    → constant_shape start stages ≡ true
unfolding constant_shape
constant_shape_complete start [] h = absurd h
constant_shape_complete start (s ∷ []) h = ground arith
constant_shape_complete start (s ∷ _ ∷ _) h = absurd h

-- What the compiled profile holds in either case.
abbrev pub pre_allocated_of : LoadMode → LoadProfile → ℤ
pre_allocated_of LoadMode.constant_arrival p = p.pre_allocated_vus
pre_allocated_of LoadMode.ramping_arrival p = p.pre_allocated_vus
pre_allocated_of _ p = pos 0

abbrev pub max_workers_of : LoadMode → LoadProfile → ℤ → ℤ
max_workers_of LoadMode.constant_arrival p top = p.max_vus
max_workers_of LoadMode.ramping_arrival p top = p.max_vus
max_workers_of _ p top = top

abbrev pub compiled_of : LoadProfile → ℤ → CompiledLoadProfile
compiled_of p request_timeout = record {
  mode = p.mode;
  start_target = p.start_target;
  stages = p.stages;
  duration = total_from (pos 0) p.stages;
  pre_allocated_vus = pre_allocated_of p.mode p;
  max_workers = max_workers_of p.mode p (peak p.start_target p.stages);
  graceful_stop = if eqb_ℤ p.graceful_stop (pos 0) then request_timeout else p.graceful_stop;
}

module _ (cfg : Config) (p : LoadProfile) (base : CompiledLoadProfile) (t : StageTotals) where
  compile_vus_sound :
      (c : CompiledLoadProfile)
      → compile_vus base t ≡ ok c
      → FitsVus t.max_target × (c ≡ record base { max_workers = t.max_target })
  unfolding compile_vus
  compile_vus_sound c h = ground arith

  compile_vus_complete :
      FitsVus t.max_target → compile_vus base t ≡ ok (record base { max_workers = t.max_target })
  unfolding compile_vus
  compile_vus_complete f = ground arith

  compile_arrival_sound :
      (c : CompiledLoadProfile)
      → compile_arrival cfg p base t ≡ ok c
      → FitsArrival cfg p t.max_target
        × (c ≡ record base { pre_allocated_vus = p.pre_allocated_vus; max_workers = p.max_vus })
  unfolding compile_arrival
  compile_arrival_sound c h = ground (arith, eq_of_parts cfg.rate_limit_rps (pos 0))

  compile_arrival_complete :
      FitsArrival cfg p t.max_target
      → compile_arrival cfg p base t
        ≡ ok (record base { pre_allocated_vus = p.pre_allocated_vus; max_workers = p.max_vus })
  unfolding compile_arrival
  compile_arrival_complete f = ground arith

  compile_mode_sound :
      (m : LoadMode) (c : CompiledLoadProfile)
      → compile_mode m cfg p base t ≡ ok c
      → base.pre_allocated_vus ≡ pos 0
      → FitsMode m cfg p t.max_target
        × (c ≡ record base {
          pre_allocated_vus = pre_allocated_of m p;
          max_workers = max_workers_of m p t.max_target;
        })
  unfolding compile_mode
  compile_mode_sound LoadMode.constant_vus c h e =
      ground (arith, constant_shape_sound p.start_target p.stages, compile_vus_sound c)
  compile_mode_sound LoadMode.ramping_vus c h e = ground (arith, compile_vus_sound c)
  compile_mode_sound LoadMode.constant_arrival c h e =
      ground (arith, constant_shape_sound p.start_target p.stages, compile_arrival_sound c)
  compile_mode_sound LoadMode.ramping_arrival c h e = ground (arith, compile_arrival_sound c)
  compile_mode_sound LoadMode.unset c h e = cc
  compile_mode_sound (LoadMode.unknown s) c h e = cc

  compile_mode_complete :
      (m : LoadMode)
      → FitsMode m cfg p t.max_target
      → base.pre_allocated_vus ≡ pos 0
      → compile_mode m cfg p base t
        ≡ ok (record base {
          pre_allocated_vus = pre_allocated_of m p;
          max_workers = max_workers_of m p t.max_target;
        })
  unfolding compile_mode
  compile_mode_complete LoadMode.constant_vus f e =
      ground (arith, constant_shape_complete p.start_target p.stages f.0, compile_vus_complete f.1)
  compile_mode_complete LoadMode.ramping_vus f e = ground (arith, compile_vus_complete f)
  compile_mode_complete LoadMode.constant_arrival f e =
      ground
        (arith, constant_shape_complete p.start_target p.stages f.0, compile_arrival_complete f.1)
  compile_mode_complete LoadMode.ramping_arrival f e = ground (arith, compile_arrival_complete f)
  compile_mode_complete LoadMode.unset f e = absurd f
  compile_mode_complete (LoadMode.unknown s) f e = absurd f

abbrev totals_of : LoadProfile → StageTotals
totals_of p = record {
  total_duration = total_from (pos 0) p.stages;
  max_target = peak p.start_target p.stages;
  positive_target = ltb_ℤ (pos 0) (peak p.start_target p.stages);
}

abbrev base_of : LoadProfile → ℤ → StageTotals → CompiledLoadProfile
base_of p request_timeout t = record {
  mode = p.mode;
  start_target = p.start_target;
  stages = p.stages;
  duration = t.total_duration;
  pre_allocated_vus = pos 0;
  max_workers = pos 0;
  graceful_stop = if eqb_ℤ p.graceful_stop (pos 0) then request_timeout else p.graceful_stop;
}

-- A profile that compiles meets every documented restriction, and the compiled profile holds its
-- targets and stages, the sum of its durations, and the workers of its mode.
pub compile_profile_sound :
    (cfg : Config) (p : LoadProfile) (request_timeout : ℤ) (c : CompiledLoadProfile)
    → compile_profile cfg p request_timeout ≡ ok c
    → IsAccepted cfg p × (c ≡ compiled_of p request_timeout)
unfolding compile_profile start_totals
compile_profile_sound cfg p request_timeout c h =
    elim (Result-cases (scan_stages 0 p.stages (start_totals p))) [
      | inl (t, e) ↦
          let (fits, duration, top, positive) =
            scan_stages_sound 0 p.stages (start_totals p) t e refl in
          ground (
            arith,
            e,
            fits,
            duration,
            top,
            positive,
            compile_mode_sound cfg p (base_of p request_timeout t) t p.mode c,
          )
      | inr (e, failed) ↦ ground (arith, failed)
    ]

-- A profile that meets the restrictions compiles, to that profile.
pub compile_profile_complete :
    (cfg : Config) (p : LoadProfile) (request_timeout : ℤ)
    → IsAccepted cfg p
    → compile_profile cfg p request_timeout ≡ ok (compiled_of p request_timeout)
unfolding compile_profile start_totals
compile_profile_complete cfg p request_timeout v =
    let t = totals_of p in
    ground (
      arith,
      scan_stages_complete 0 p.stages (start_totals p) v.stages_fit refl,
      compile_mode_complete cfg p (base_of p request_timeout t) t p.mode v.mode_fits refl,
    )

-- The profile in force, if there is one, is accepted.
abbrev pub ProfileFits : Config → Option LoadProfile → Type 0
ProfileFits cfg none = Unit {0}
ProfileFits cfg (some p) = IsAccepted cfg p

compile_active_sound :
    (cfg : Config) (o : Option LoadProfile) (users timeout : ℤ) (c : CompiledLoadProfile)
    → compile_active cfg o users timeout ≡ ok c
    → ProfileFits cfg o
unfolding compile_active
compile_active_sound cfg none users timeout c h = tt
compile_active_sound cfg (some p) users timeout c h = (compile_profile_sound cfg p timeout c h).0

compile_active_complete :
    (cfg : Config) (o : Option LoadProfile) (users timeout : ℤ)
    → ProfileFits cfg o
    → (c : CompiledLoadProfile) × (compile_active cfg o users timeout ≡ ok c)
unfolding compile_active
compile_active_complete cfg none users timeout v = (_, refl)
compile_active_complete cfg (some p) users timeout v = (_, compile_profile_complete cfg p timeout v)

pub compile_load_profile_sound :
    (cfg : Config) (users timeout : ℤ) (c : CompiledLoadProfile)
    → compile_load_profile cfg users timeout ≡ ok c
    → ProfileFits cfg (active_profile cfg)
unfolding compile_load_profile
compile_load_profile_sound cfg users timeout c h =
    compile_active_sound cfg (active_profile cfg) users timeout c h

pub compile_load_profile_complete :
    (cfg : Config) (users timeout : ℤ)
    → ProfileFits cfg (active_profile cfg)
    → (c : CompiledLoadProfile) × (compile_load_profile cfg users timeout ≡ ok c)
unfolding compile_load_profile
compile_load_profile_complete cfg users timeout v =
    compile_active_complete cfg (active_profile cfg) users timeout v
