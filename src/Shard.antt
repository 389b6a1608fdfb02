-- ===== src/Shard.antt =====
-- internal/distributed/shard.go: a configuration split among the workers of a distributed run.
-- Values are immutable here, so `cloneEngineConfig`, which keeps the shards from sharing memory with
-- the configuration, has no counterpart.
pub mod Split
pub mod Bounds
pub mod Shares
pub mod Valid
pub mod Complete
pub mod Totals
pub mod Conserved
mod Tests
use flow_routine.Prelude.{
  ℕ, zero, suc, ◌+◌, ◌-◌, ◌*◌, ◌/◌, ◌%◌, ◌^◌, ◌≤◌, ◌<◌, min, max, ◌≡◌, refl, sym, ap, ◌∙◌, subst,
  ◌≢◌, ◌↔◌, ◌⊎◌, inl, inr, Bool, true, false, ◌&&◌, ◌||◌, not, Option, none, some, List, [], ◌∷◌,
  ◌++◌, map, arith, ltb, leb, ◌==◌, if◌then◌else◌, ltb→lt, lt→ltb, leb→le, ==_iff, tests,
  Bool-cases, Option-cases, length, get_elem?, get_or, set, replicate, take, drop, length-append,
  length-set, length-replicate, length-map,
}
use flow_routine.Prelude.Int.{ℤ, pos, negsuc, leb_ℤ, ltb_ℤ, min_ℤ, max_ℤ}
use flow_routine.Prelude.Result.{Result, ok, err, ◌>>=◌, ◌>>◌, guard}
use flow_routine.Config.{LoadMode, LoadStage, LoadProfile, Config}
use flow_routine.LoadProfile.{active_profile}
use flow_routine.Validate.{
  ScenarioChecks, ConfigError, or_default, default_virtual_users, default_max_conns_per_host,
  validate_config,
}

pub data ShardError : Type 0 where
  too_few_workers no_capacity : ShardError
  invalid_config : ConfigError → ShardError
  invalid_shard : ℕ → ConfigError → ShardError

-- Go divides towards zero, and a remainder has the sign of the dividend: of a negative total no
-- worker gets one more.
unfoldable pub split_integer : ℤ → ℕ → ℕ → ℤ
split_integer (pos n) index count =
    if ltb index (n % count) then pos (n / count + 1) else pos (n / count)
split_integer (negsuc n) index count =
    if suc n / count == 0 then pos 0 else negsuc (suc n / count - 1)

unfoldable pub arrival_mode : LoadMode → Bool
arrival_mode LoadMode.constant_arrival = true
arrival_mode LoadMode.ramping_arrival = true
arrival_mode _ = false

-- `for _, stage := range cfg.Profile.Stages { peakTarget = max(peakTarget, stage.Target) }`.
unfoldable pub peak_target : ℤ → List LoadStage → ℤ
peak_target top [] = top
peak_target top (stage ∷ rest) = peak_target (max_ℤ top stage.target) rest

unfoldable pub effective_connections : Config → ℤ
effective_connections cfg = or_default cfg.max_conns_per_host default_max_conns_per_host

unfoldable pub effective_users : Config → ℤ
effective_users cfg = or_default cfg.virtual_users default_virtual_users

-- What the load, by its profile in force, leaves of the workers.
unfoldable pub cap_by_load : Config → Option LoadProfile → ℤ → ℤ
unfolding effective_users
cap_by_load cfg none active = min_ℤ active (effective_users cfg)
cap_by_load cfg (some p) active =
    let capped = min_ℤ active (peak_target p.start_target p.stages) in
    if arrival_mode p.mode then min_ℤ (min_ℤ capped p.pre_allocated_vus) p.max_vus else capped

-- `active`, the number of workers that get a shard.
unfoldable pub active_workers : Config → ℤ → ℤ
unfolding effective_connections
active_workers cfg worker_count =
    let connected = min_ℤ worker_count (effective_connections cfg) in
    let limited =
      if ltb_ℤ (pos 0) cfg.rate_limit_rps then min_ℤ connected cfg.rate_limit_rps else connected in
    cap_by_load cfg (active_profile cfg) limited

unfoldable pub shard_stages : ℕ → ℕ → List LoadStage → List LoadStage
shard_stages index active [] = []
shard_stages index active (stage ∷ rest) =
    record stage { target = split_integer stage.target index active }
    ∷ shard_stages index active rest

unfoldable pub shard_profile : ℕ → ℕ → LoadProfile → LoadProfile
unfolding shard_stages
shard_profile index active p =
    let targets = record p {
      start_target = split_integer p.start_target index active;
      stages = shard_stages index active p.stages;
    } in
    if arrival_mode p.mode
    then record targets {
      pre_allocated_vus = split_integer p.pre_allocated_vus index active;
      max_vus = split_integer p.max_vus index active;
    }
    else targets

-- What the shard's load is, by the profile in force.
unfoldable pub shard_load : ℕ → ℕ → Config → Option LoadProfile → Config
unfolding shard_profile effective_users
shard_load index active cfg none = record cfg {
  virtual_users = split_integer (effective_users cfg) index active;
}
shard_load index active cfg (some p) = record cfg { profile = some (shard_profile index active p) }

-- The body of the loop over the shards, before it validates.
unfoldable pub shard_config : Config → ℕ → ℕ → Config
unfolding shard_load effective_connections
shard_config cfg active index =
    let loaded = shard_load index active cfg (active_profile cfg) in
    record loaded {
      max_conns_per_host = split_integer (effective_connections cfg) index active;
      rate_limit_rps =
          if ltb_ℤ (pos 0) cfg.rate_limit_rps
          then split_integer cfg.rate_limit_rps index active
          else cfg.rate_limit_rps;
    }

abbrev pub or_invalid_shard : ℕ → Result ConfigError (Unit {0}) → Result ShardError (Unit {0})
or_invalid_shard index (ok u) = ok u
or_invalid_shard index (err e) = err (invalid_shard (index + 1) e)

abbrev pub or_invalid_config : Result ConfigError (Unit {0}) → Result ShardError (Unit {0})
or_invalid_config (ok u) = ok u
or_invalid_config (err e) = err (invalid_config e)

-- The loop over the shards, from `index`, with `left` shards to make.
unfoldable pub shards_from : ScenarioChecks → Config → ℕ → ℕ → ℕ → Result ShardError (List Config)
shards_from checks cfg active index zero = ok []
shards_from checks cfg active index (suc left) = do
  let shard = shard_config cfg active index
  or_invalid_shard index (validate_config checks shard)
  rest ← shards_from checks cfg active (index + 1) left
  ok (shard ∷ rest)

-- `if active < 1`, and the loop for a positive number of shards.
unfoldable pub make_shards : ScenarioChecks → Config → ℤ → Result ShardError (List Config)
unfolding shards_from
make_shards checks cfg (pos n) = if ltb n 1 then err no_capacity else shards_from checks cfg n 0 n
make_shards checks cfg (negsuc n) = err no_capacity

unfoldable pub shard_configs : ScenarioChecks → Config → ℤ → Result ShardError (List Config)
shard_configs checks cfg worker_count = do
  guard (leb_ℤ (pos 1) worker_count) too_few_workers
  or_invalid_config (validate_config checks cfg)
  make_shards checks cfg (active_workers cfg worker_count)
