-- ===== src/Shard/Totals.antt =====
-- The numbers of the shards, each as the share of a number of the configuration, and their sums.
use flow_routine.Prelude.{
  ℕ, zero, suc, ◌+◌, ◌≤◌, ◌<◌, ◌≡◌, refl, sym, ap, ◌∙◌, true, Option, none, some, List, [], ◌∷◌,
  arith,
}
use mathlib.Core.Option
use mathlib.Core.Path.{ap₂}
use flow_routine.Prelude.Int.{ℤ, pos, negsuc, ◌≤ℤ◌, ◌+ℤ◌, eq_of_parts}
use flow_routine.Config.{LoadStage, LoadProfile, Config}
use flow_routine.LoadProfile.{in_force, active_profile}
use flow_routine.LoadProfile.Stages.{StagesFit}
use flow_routine.Shard.{
  split_integer, arrival_mode, shard_stages, shard_profile, shard_load, shard_config,
  effective_users, effective_connections,
}
use flow_routine.Shard.Split.{sum_range, sum-split_integer}
use flow_routine.Shard.Valid.{shard_profile-HasShares, shard_load-in_force}
use flow_routine.Shard.Complete.{shard_list}

-- The sum of a number that each configuration has.
pub sum_of : (Config → ℤ) → List Config → ℤ
sum_of f [] = pos 0
sum_of f (cfg ∷ rest) = f cfg +ℤ sum_of f rest

-- What a configuration's profile in force, if there is one, starts at, and its target at stage `k`.
pub start_of : Option LoadProfile → ℤ
start_of none = pos 0
start_of (some p) = p.start_target

pub stage_target : ℕ → List LoadStage → ℤ
stage_target k [] = pos 0
stage_target zero (s ∷ rest) = s.target
stage_target (suc k) (s ∷ rest) = stage_target k rest

pub target_of : ℕ → Option LoadProfile → ℤ
unfolding stage_target
target_of k none = pos 0
target_of k (some p) = stage_target k p.stages

pub allocated_of : Option LoadProfile → ℤ
allocated_of none = pos 0
allocated_of (some p) = p.pre_allocated_vus

pub max_vus_of : Option LoadProfile → ℤ
max_vus_of none = pos 0
max_vus_of (some p) = p.max_vus

split_zero : (i c : ℕ) → 0 < c → split_integer (pos 0) i c ≡ pos 0
unfolding split_integer
split_zero i c h = ground arith

stage_target-shard :
    (i c k : ℕ) (stages : List LoadStage)
    → 0 < c
    → stage_target k (shard_stages i c stages) ≡ split_integer (stage_target k stages) i c
unfolding stage_target shard_stages
stage_target-shard i c k [] h = sym (split_zero i c h)
stage_target-shard i c zero (s ∷ rest) h = refl
stage_target-shard i c (suc k) (s ∷ rest) h = stage_target-shard i c k rest h

pub stage_target-nonneg :
    (total : ℤ) (k : ℕ) (stages : List LoadStage)
    → StagesFit total stages
    → pos 0 ≤ℤ stage_target k stages
unfolding stage_target
stage_target-nonneg total k [] f = omega arith
stage_target-nonneg total zero (s ∷ rest) f = f.1
stage_target-nonneg total (suc k) (s ∷ rest) f =
    stage_target-nonneg (total +ℤ s.duration) k rest f.3

module _ (cfg : Config) (c : ℕ) (some_worker : 0 < c) where
  sum_of-shards :
      (f : Config → ℤ) (total : ℤ)
      → ((i : ℕ) → i < c → f (shard_config cfg c i) ≡ split_integer total i c)
      → (i left : ℕ) → i + left ≤ c
      → sum_of f (shard_list cfg c i left) ≡ sum_range (λ j. split_integer total j c) i left
  unfolding sum_of sum_range shard_list
  sum_of-shards f total h i zero k = refl
  sum_of-shards f total h i (suc left) k =
      ap₂ ◌+ℤ◌ (h i (omega arith)) (sum_of-shards f total h (i + 1) left (omega arith))

  pub sum_of-all :
      (f : Config → ℤ) (total : ℤ)
      → pos 0 ≤ℤ total
      → ((i : ℕ) → i < c → f (shard_config cfg c i) ≡ split_integer total i c)
      → sum_of f (shard_list cfg c 0 c) ≡ total
  sum_of-all f (pos n) k h =
      sum_of-shards f (pos n) h 0 c (omega arith) ∙ sum-split_integer n c some_worker
  sum_of-all f (negsuc n) k h = absurd (omega arith)

  pub connections-split :
      (i : ℕ)
      → (shard_config cfg c i).max_conns_per_host ≡ split_integer (effective_connections cfg) i c
  unfolding shard_config
  connections-split i = refl

  pub rate-split :
      (i : ℕ)
      → pos 0 ≤ℤ cfg.rate_limit_rps
      → (shard_config cfg c i).rate_limit_rps ≡ split_integer cfg.rate_limit_rps i c
  unfolding shard_config
  rate-split i h =
      ground (arith, split_zero i c some_worker, eq_of_parts cfg.rate_limit_rps (pos 0))

  profile-split :
      (i : ℕ)
      → i < c
      → in_force (shard_config cfg c i).profile
        ≡ Option.map (shard_profile i c) (active_profile cfg)
  unfolding shard_config
  profile-split i inside = shard_load-in_force i c inside cfg (active_profile cfg) refl

  module _ (p : LoadProfile) (h : active_profile cfg ≡ some p) where
    share_of : (i : ℕ) → i < c → active_profile (shard_config cfg c i) ≡ some (shard_profile i c p)
    share_of i inside = profile-split i inside ∙ ap (Option.map (shard_profile i c)) h

    pub start-split :
        (i : ℕ)
        → i < c
        → start_of (active_profile (shard_config cfg c i)) ≡ split_integer p.start_target i c
    unfolding start_of
    start-split i inside = rw (share_of i inside) (shard_profile-HasShares i c inside p).start_share

    pub target-split :
        (k i : ℕ)
        → i < c
        → target_of k (active_profile (shard_config cfg c i))
          ≡ split_integer (stage_target k p.stages) i c
    unfolding target_of
    target-split k i inside =
        rw (share_of i inside, (shard_profile-HasShares i c inside p).stage_shares)
          (stage_target-shard i c k p.stages some_worker)

    pub allocated-split :
        (i : ℕ)
        → i < c
        → arrival_mode p.mode ≡ true
        → (allocated_of (active_profile (shard_config cfg c i))
            ≡ split_integer p.pre_allocated_vus i c)
          × (max_vus_of (active_profile (shard_config cfg c i)) ≡ split_integer p.max_vus i c)
    unfolding allocated_of max_vus_of
    allocated-split i inside a =
        ground (arith, share_of i inside, (shard_profile-HasShares i c inside p).workers)

  pub users-split :
      (i : ℕ)
      → active_profile cfg ≡ none
      → (shard_config cfg c i).virtual_users ≡ split_integer (effective_users cfg) i c
  unfolding shard_config shard_load
  users-split i h = ground arith
