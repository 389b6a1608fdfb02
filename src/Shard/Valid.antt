-- ===== src/Shard/Valid.antt =====
-- A shard of a valid configuration is valid.
use flow_routine.Prelude.{
  ℕ, ◌<◌, ◌≡◌, refl, sym, ap, subst, ◌⊎◌, true, false, Option, none, some, List, [], ◌∷◌, arith,
}
use flow_routine.Prelude.Int.{ℤ, pos, ◌≤ℤ◌, max_ℤ}
use mathlib.Core.Option
use flow_routine.Config.{LoadMode, LoadStage, LoadProfile, Config}
use flow_routine.LoadProfile.{is_unset, in_force, active_profile}
use flow_routine.LoadProfile.Stages.{peak}
use flow_routine.LoadProfile.Accepted.{
  ConstantShape, FitsVus, FitsArrival, FitsMode, IsAccepted, ProfileFits,
}
use flow_routine.Validate.{ScenarioChecks}
use flow_routine.Validate.Accepts.{NumbersFit, IsAcceptable}
use flow_routine.Shard.{
  split_integer, arrival_mode, shard_stages, shard_profile, shard_load, shard_config,
  effective_users, effective_connections,
}
use flow_routine.Shard.Bounds.{
  split_integer-nonneg, split_integer-le, split_integer-pos, split_integer-mono,
}
use flow_routine.Shard.Shares.{
  length-shard_stages, shard_stages-StagesFit, peak-shard_stages, shard_stages-ConstantShape,
  LoadCapacity, Capacity,
}

peak_constant :
    (start : ℤ) (stages : List LoadStage) → ConstantShape start stages → peak start stages ≡ start
unfolding peak max_ℤ
peak_constant start [] f = absurd f
peak_constant start (s ∷ []) f = ground arith
peak_constant start (s ∷ _ ∷ _) f = absurd f

module _ (i c : ℕ) (inside : i < c) where
  -- `q` has the shares of `p`, its workers being split where it has them.
  pub record HasShares (p q : LoadProfile) : Type 0 where
    pub same_mode : q.mode ≡ p.mode
    pub start_share : q.start_target ≡ split_integer p.start_target i c
    pub stage_shares : q.stages ≡ shard_stages i c p.stages
    pub same_graceful : q.graceful_stop ≡ p.graceful_stop
    pub workers :
        (arrival_mode p.mode ≡ false)
        ⊎ (q.pre_allocated_vus ≡ split_integer p.pre_allocated_vus i c)
          × (q.max_vus ≡ split_integer p.max_vus i c)

  pub shard_profile-HasShares : (p : LoadProfile) → HasShares p (shard_profile i c p)
  unfolding shard_profile
  shard_profile-HasShares p = ground arith

  share-FitsVus : (top : ℤ) → pos 0 ≤ℤ top → FitsVus top → FitsVus (split_integer top i c)
  share-FitsVus top h f = record {
    vus_bounded = omega (arith, split_integer-le top i c inside h, f.vus_bounded);
  }

  module _ (cfg cfg' : Config) (p q : LoadProfile) where
    share-FitsArrival :
        (top : ℤ)
        → pos 0 ≤ℤ top
        → FitsArrival cfg p top
        → pos c ≤ℤ p.pre_allocated_vus
        → q.pre_allocated_vus ≡ split_integer p.pre_allocated_vus i c
        → q.max_vus ≡ split_integer p.max_vus i c
        → (cfg.rate_limit_rps ≡ pos 0 → cfg'.rate_limit_rps ≡ pos 0)
        → FitsArrival cfg' q (split_integer top i c)
    share-FitsArrival top h f room e d z = ground (
      arith,
      f.unlimited,
      split_integer-le top i c inside h,
      split_integer-pos p.pre_allocated_vus i c inside room,
      split_integer-le p.pre_allocated_vus i c inside,
      split_integer-mono p.pre_allocated_vus p.max_vus i c inside,
      split_integer-le p.max_vus i c inside,
    )

    constant_lem :
        (top : ℤ)
        → ConstantShape p.start_target p.stages
        → HasShares p q
        → pos c ≤ℤ top
        → (ConstantShape p.start_target p.stages → top ≡ p.start_target)
        → ConstantShape q.start_target q.stages
    constant_lem top f s k same =
        rw (s.start_share, s.stage_shares)
          (shard_stages-ConstantShape i c inside p.start_target p.stages
            (subst (λ t. pos c ≤ℤ t) (same f) k) f)

    arrival_lem :
        (top : ℤ)
        → FitsArrival cfg p top
        → HasShares p q
        → arrival_mode p.mode ≡ true
        → pos c ≤ℤ top
        → (arrival_mode p.mode ≡ false) ⊎ (pos c ≤ℤ p.pre_allocated_vus) × (pos c ≤ℤ p.max_vus)
        → (cfg.rate_limit_rps ≡ pos 0 → cfg'.rate_limit_rps ≡ pos 0)
        → FitsArrival cfg' q (split_integer top i c)
    arrival_lem top f s m k room z =
        ground (arith, s.workers, room, share-FitsArrival top (omega arith) f, z f.unlimited)

    share-FitsMode :
        (m : LoadMode) (top : ℤ)
        → FitsMode m cfg p top
        → HasShares p q
        → p.mode ≡ m
        → pos c ≤ℤ top
        → (ConstantShape p.start_target p.stages → top ≡ p.start_target)
        → (arrival_mode p.mode ≡ false) ⊎ (pos c ≤ℤ p.pre_allocated_vus) × (pos c ≤ℤ p.max_vus)
        → (cfg.rate_limit_rps ≡ pos 0 → cfg'.rate_limit_rps ≡ pos 0)
        → FitsMode m cfg' q (split_integer top i c)
    unfolding arrival_mode
    share-FitsMode LoadMode.constant_vus top f s e k same room z =
        (constant_lem top f.0 s k same, share-FitsVus top (omega arith) f.1)
    share-FitsMode LoadMode.ramping_vus top f s e k same room z = share-FitsVus top (omega arith) f
    share-FitsMode LoadMode.constant_arrival top f s e k same room z =
        (constant_lem top f.0 s k same, arrival_lem top f.1 s (ap arrival_mode e) k room z)
    share-FitsMode LoadMode.ramping_arrival top f s e k same room z =
        arrival_lem top f s (ap arrival_mode e) k room z
    share-FitsMode LoadMode.unset top f s e k same room z = absurd f
    share-FitsMode (LoadMode.unknown u) top f s e k same room z = absurd f

    -- A profile that is accepted has accepted shares.
    shares-IsAccepted :
        IsAccepted cfg p
        → HasShares p q
        → LoadCapacity cfg (some p) c
        → (cfg.rate_limit_rps ≡ pos 0 → cfg'.rate_limit_rps ≡ pos 0)
        → IsAccepted cfg' q
    shares-IsAccepted v s room z = record {
      graceful = rw s.same_graceful v.graceful;
      some_stage = rw (s.stage_shares, length-shard_stages i c p.stages) v.some_stage;
      few_stages = rw (s.stage_shares, length-shard_stages i c p.stages) v.few_stages;
      stages_fit =
          rw s.stage_shares (shard_stages-StagesFit i c inside (pos 0) p.stages v.stages_fit);
      start = rw s.start_share (split_integer-nonneg p.start_target i c v.start);
      positive =
          rw same_peak
            (omega (arith, split_integer-pos (peak p.start_target p.stages) i c inside room.0));
      mode_fits =
          subst (λ m. FitsMode m cfg' q (peak q.start_target q.stages)) (sym s.same_mode)
            (rw same_peak (
              share-FitsMode p.mode (peak p.start_target p.stages) v.mode_fits s refl room.0
                (peak_constant p.start_target p.stages) room.1 z));
    }
      where
        same_peak : peak q.start_target q.stages ≡ split_integer (peak p.start_target p.stages) i c
        same_peak =
            rw (s.start_share, s.stage_shares)
              (peak-shard_stages i c inside (pos 0) p.start_target p.stages v.stages_fit v.start)

some_mode :
    (o : Option LoadProfile) (p : LoadProfile) → in_force o ≡ some p → is_unset p.mode ≡ false
unfolding in_force
some_mode none p h = cc
some_mode (some q) p h = ground arith

-- The profile in force of a shard is the shard's share of the profile in force.
pub shard_load-in_force :
    (i c : ℕ) (inside : i < c) (cfg : Config) (o : Option LoadProfile)
    → in_force cfg.profile ≡ o
    → in_force (shard_load i c cfg o).profile ≡ Option.map (shard_profile i c) o
unfolding shard_load in_force
shard_load-in_force i c inside cfg none h = h
shard_load-in_force i c inside cfg (some p) h =
    ground (arith, (shard_profile-HasShares i c inside p).same_mode, some_mode cfg.profile p h)

module _ (cfg : Config) (c i : ℕ) (inside : i < c) (room : Capacity cfg c) where
  load-NumbersFit :
      (o : Option LoadProfile)
      → LoadCapacity cfg o c
      → NumbersFit cfg
      → NumbersFit (shard_load i c cfg o)
  unfolding shard_load
  load-NumbersFit none k v =
      ground (arith, split_integer-nonneg (effective_users cfg) i c (omega arith))
  load-NumbersFit (some p) k v = ground arith

  shard_config-NumbersFit : NumbersFit cfg → NumbersFit (shard_config cfg c i)
  unfolding shard_config
  shard_config-NumbersFit v =
      let loaded = load-NumbersFit (active_profile cfg) room.load v in
      ground (
        arith,
        loaded,
        split_integer-nonneg (effective_connections cfg) i c (omega (arith, room.connections)),
        split_integer-nonneg cfg.rate_limit_rps i c v.rate_limit,
        split_integer-le cfg.rate_limit_rps i c inside v.rate_limit,
      )

  shard_config-rate : cfg.rate_limit_rps ≡ pos 0 → (shard_config cfg c i).rate_limit_rps ≡ pos 0
  unfolding shard_config
  shard_config-rate e = ground arith

  load-ProfileFits :
      (cfg' : Config) (o : Option LoadProfile)
      → ProfileFits cfg o
      → LoadCapacity cfg o c
      → (cfg.rate_limit_rps ≡ pos 0 → cfg'.rate_limit_rps ≡ pos 0)
      → ProfileFits cfg' (Option.map (shard_profile i c) o)
  load-ProfileFits cfg' none f k z = tt
  load-ProfileFits cfg' (some p) f k z =
      shares-IsAccepted i c inside cfg cfg' p (shard_profile i c p) f
        (shard_profile-HasShares i c inside p) k z

  shard_config-ProfileFits :
      ProfileFits cfg (active_profile cfg)
      → ProfileFits (shard_config cfg c i) (active_profile (shard_config cfg c i))
  unfolding shard_config
  shard_config-ProfileFits v =
      rw (shard_load-in_force i c inside cfg (active_profile cfg) refl)
        (load-ProfileFits (shard_config cfg c i) (active_profile cfg) v room.load shard_config-rate)

  load-scenario : (o : Option LoadProfile) → (shard_load i c cfg o).scenario ≡ cfg.scenario
  unfolding shard_load
  load-scenario none = refl
  load-scenario (some p) = refl

  shard_config-scenario : (shard_config cfg c i).scenario ≡ cfg.scenario
  unfolding shard_config
  shard_config-scenario = load-scenario (active_profile cfg)

  pub shard_config-IsAcceptable :
      (checks : ScenarioChecks)
      → IsAcceptable checks cfg
      → IsAcceptable checks (shard_config cfg c i)
  shard_config-IsAcceptable checks v = record {
    target = rw shard_config-scenario v.target;
    numbers = shard_config-NumbersFit v.numbers;
    variables = rw shard_config-scenario v.variables;
    profile_fits = shard_config-ProfileFits v.profile_fits;
    steps = rw shard_config-scenario v.steps;
  }
