-- ===== src/Shard/Conserved.antt =====
-- What is split among the shards adds up to what the configuration asks for.
use flow_routine.Prelude.{
  ℕ, ◌<◌, ◌≡◌, refl, sym, subst, ◌⊎◌, inl, inr, false, Option, none, some, List, arith, Bool-cases,
}
use flow_routine.Prelude.Int.{ℤ, pos, ◌≤ℤ◌}
use flow_routine.Prelude.Result.{ok}
use flow_routine.Config.{LoadProfile, Config}
use flow_routine.LoadProfile.{active_profile}
use flow_routine.LoadProfile.Stages.{peak}
use flow_routine.LoadProfile.Accepted.{IsAccepted, ProfileFits}
use flow_routine.Validate.{ScenarioChecks}
use flow_routine.Validate.Accepts.{validate_config_sound}
use flow_routine.Shard.{arrival_mode, effective_users, effective_connections, shard_configs}
use flow_routine.Shard.Shares.{arrival-positive}
use flow_routine.Shard.Complete.{shard_list, shard_configs_sound}
use flow_routine.Shard.Totals.{
  sum_of, start_of, stage_target, target_of, allocated_of, max_vus_of, stage_target-nonneg,
  sum_of-all, connections-split, rate-split, users-split, start-split, target-split,
  allocated-split,
}

-- What the profile in force asks for, or the virtual users where there is none, is shared out whole:
-- the start, the target of every stage, and the workers of an arrival-rate profile.
abbrev pub LoadConserved : Config → Option LoadProfile → List Config → Type 0
LoadConserved cfg none shards = sum_of (λ s. s.virtual_users) shards ≡ effective_users cfg
LoadConserved cfg (some p) shards =
    (sum_of (λ s. start_of (active_profile s)) shards ≡ p.start_target)
    × ((k : ℕ) → sum_of (λ s. target_of k (active_profile s)) shards ≡ stage_target k p.stages)
    × ((arrival_mode p.mode ≡ false)
        ⊎ (sum_of (λ s. allocated_of (active_profile s)) shards ≡ p.pre_allocated_vus)
          × (sum_of (λ s. max_vus_of (active_profile s)) shards ≡ p.max_vus))

pub record IsConserved (cfg : Config) (shards : List Config) : Type 0 where
  pub connections : sum_of (λ s. s.max_conns_per_host) shards ≡ effective_connections cfg
  pub rate : sum_of (λ s. s.rate_limit_rps) shards ≡ cfg.rate_limit_rps
  pub load : LoadConserved cfg (active_profile cfg) shards

module _ (cfg : Config) (c : ℕ) (some_worker : 0 < c) where
  arrival-conserved :
      (p : LoadProfile)
      → IsAccepted cfg p
      → active_profile cfg ≡ some p
      → (arrival_mode p.mode ≡ false)
        ⊎ (sum_of (λ s. allocated_of (active_profile s)) (shard_list cfg c 0 c)
            ≡ p.pre_allocated_vus)
          × (sum_of (λ s. max_vus_of (active_profile s)) (shard_list cfg c 0 c) ≡ p.max_vus)
  arrival-conserved p f h = elim (Bool-cases (arrival_mode p.mode)) [
    | inr e ↦ inl e
    | inl e ↦ elim (arrival-positive p.mode cfg p (peak p.start_target p.stages) f.mode_fits) [
      | inl e' ↦ inl e'
      | inr (pre, top) ↦ inr (
        sum_of-all cfg c some_worker _ p.pre_allocated_vus (omega (arith, pre))
            (λ i inside. (allocated-split cfg c some_worker p h i inside e).0),
        sum_of-all cfg c some_worker _ p.max_vus (omega (arith, top))
            (λ i inside. (allocated-split cfg c some_worker p h i inside e).1),
      )
    ]
  ]

  load-conserved :
      (o : Option LoadProfile)
      → active_profile cfg ≡ o
      → ProfileFits cfg o
      → pos 0 ≤ℤ effective_users cfg
      → LoadConserved cfg o (shard_list cfg c 0 c)
  load-conserved none h f u =
      sum_of-all cfg c some_worker _ (effective_users cfg) u
        (λ i inside. users-split cfg c some_worker i h)
  load-conserved (some p) h f u = (
    sum_of-all cfg c some_worker _ p.start_target f.start (start-split cfg c some_worker p h),
    λ k.
        sum_of-all cfg c some_worker _ (stage_target k p.stages)
          (stage_target-nonneg (pos 0) k p.stages f.stages_fit)
          (target-split cfg c some_worker p h k),
    arrival-conserved p f h,
  )

defaults-nonneg :
    (cfg : Config)
    → pos 0 ≤ℤ cfg.virtual_users
    → pos 0 ≤ℤ cfg.max_conns_per_host
    → (pos 0 ≤ℤ effective_users cfg) × (pos 0 ≤ℤ effective_connections cfg)
unfolding effective_users effective_connections
defaults-nonneg cfg u m = ground arith

-- The shards of a distributed run together have the connections, the rate limit and the load that
-- the configuration asks for.
pub shard_configs-IsConserved :
    (checks : ScenarioChecks) (cfg : Config) (worker_count : ℤ) (shards : List Config)
    → shard_configs checks cfg worker_count ≡ ok shards
    → IsConserved cfg shards
shard_configs-IsConserved checks cfg worker_count shards h =
    let (valid, (c, split)) = shard_configs_sound checks cfg worker_count shards h in
    let v = validate_config_sound checks cfg valid in
    let (users, connections) = defaults-nonneg cfg v.numbers.virtual_users v.numbers.max_conns in
    subst (IsConserved cfg) (sym split.listed) (record {
      connections =
          sum_of-all cfg c split.some_worker _ (effective_connections cfg) connections
            (λ i inside. connections-split cfg c split.some_worker i);
      rate =
          sum_of-all cfg c split.some_worker _ cfg.rate_limit_rps v.numbers.rate_limit
            (λ i inside. rate-split cfg c split.some_worker i v.numbers.rate_limit);
      load = load-conserved cfg c split.some_worker (active_profile cfg) refl v.profile_fits users;
    })
