-- ===== src/Shard/Complete.antt =====
-- A valid configuration is always split.
use flow_routine.Prelude.{
  ℕ, zero, suc, ◌+◌, ◌≤◌, ◌<◌, ◌≡◌, refl, ap, subst, List, [], ◌∷◌, arith, length,
}
use flow_routine.Prelude.Int.{ℤ, pos, negsuc, ◌≤ℤ◌}
use flow_routine.Prelude.Result.{ok}
use flow_routine.Config.{Config}
use flow_routine.Validate.{ScenarioChecks, validate_config}
use flow_routine.Validate.Accepts.{IsAcceptable, validate_config_sound, validate_config_complete}
use flow_routine.Shard.{shard_config, active_workers, shards_from, make_shards, shard_configs}
use flow_routine.Shard.Shares.{Capacity, active_workers-Capacity, active_workers-pos}
use flow_routine.Shard.Valid.{shard_config-IsAcceptable}

-- The shards from index `i`, `left` of them.
unfoldable pub shard_list : Config → ℕ → ℕ → ℕ → List Config
shard_list cfg c i zero = []
shard_list cfg c i (suc left) = shard_config cfg c i ∷ shard_list cfg c (i + 1) left

-- Every configuration in the list passes the validation of the engine.
abbrev pub AllValid : ScenarioChecks → List Config → Type 0
AllValid checks [] = Unit {0}
AllValid checks (cfg ∷ rest) = (validate_config checks cfg ≡ ok tt) × AllValid checks rest

module _ (checks : ScenarioChecks) (cfg : Config) (c : ℕ) (room : Capacity cfg c)
    (v : IsAcceptable checks cfg) where
  shard_config-valid : (i : ℕ) → i < c → validate_config checks (shard_config cfg c i) ≡ ok tt
  shard_config-valid i inside =
      validate_config_complete checks (shard_config cfg c i)
        (shard_config-IsAcceptable cfg c i inside room checks v)

  shards_from-ok :
      (i left : ℕ) → i + left ≤ c → shards_from checks cfg c i left ≡ ok (shard_list cfg c i left)
  unfolding shards_from shard_list
  shards_from-ok i zero h = refl
  shards_from-ok i (suc left) h =
      ground (arith, shard_config-valid i (omega arith), shards_from-ok (i + 1) left (omega arith))

  shard_list-AllValid : (i left : ℕ) → i + left ≤ c → AllValid checks (shard_list cfg c i left)
  unfolding shard_list
  shard_list-AllValid i zero h = tt
  shard_list-AllValid i (suc left) h =
      (shard_config-valid i (omega arith), shard_list-AllValid (i + 1) left (omega arith))

-- What a split must be: some workers, at most as many as there are, with a valid shard each.
pub record IsSplit (checks : ScenarioChecks) (cfg : Config) (worker_count : ℤ) (c : ℕ)
    (shards : List Config) : Type 0 where
  pub active : active_workers cfg worker_count ≡ pos c
  pub some_worker : 0 < c
  pub enough_workers : pos c ≤ℤ worker_count
  pub listed : shards ≡ shard_list cfg c 0 c
  pub counted : length shards ≡ c
  pub valid : AllValid checks shards

length-shard_list : (cfg : Config) (c i left : ℕ) → length (shard_list cfg c i left) ≡ left
unfolding shard_list
length-shard_list cfg c i zero = refl
length-shard_list cfg c i (suc left) = ap suc (length-shard_list cfg c (i + 1) left)

pos_of_le : (a : ℤ) → pos 1 ≤ℤ a → (n : ℕ) × (a ≡ pos n) × (0 < n)
pos_of_le (pos n) h = (n, refl, omega arith)
pos_of_le (negsuc n) h = absurd (omega arith)

-- A valid configuration and a positive number of workers are always split: neither the error for
-- lack of capacity nor the one for an invalid shard can come up.
pub shard_configs_complete :
    (checks : ScenarioChecks) (cfg : Config) (worker_count : ℤ)
    → validate_config checks cfg ≡ ok tt
    → pos 1 ≤ℤ worker_count
    → (c : ℕ) × (shards : List Config) × (shard_configs checks cfg worker_count ≡ ok shards)
      × IsSplit checks cfg worker_count c shards
unfolding shard_configs make_shards
shard_configs_complete checks cfg worker_count h w =
    let v = validate_config_sound checks cfg h in
    let (c, active, positive) = pos_of_le (active_workers cfg worker_count) (
      active_workers-pos cfg worker_count v.profile_fits v.numbers.virtual_users v.numbers.max_conns
        w) in
    let (room, enough) = active_workers-Capacity cfg worker_count c active in
    (
      c,
      shard_list cfg c 0 c,
      ground (arith, active, h, shards_from-ok checks cfg c room v 0 c (omega arith)),
      record {
        active = active;
        some_worker = positive;
        enough_workers = enough;
        listed = refl;
        counted = length-shard_list cfg c 0 c;
        valid = shard_list-AllValid checks cfg c room v 0 c (omega arith);
      },
    )

shard_configs-accepted :
    (checks : ScenarioChecks) (cfg : Config) (worker_count : ℤ) (shards : List Config)
    → shard_configs checks cfg worker_count ≡ ok shards
    → (validate_config checks cfg ≡ ok tt) × (pos 1 ≤ℤ worker_count)
unfolding shard_configs
shard_configs-accepted checks cfg worker_count shards h = ground arith

-- Whatever `ShardConfigs` returns without an error is a split of a valid configuration.
pub shard_configs_sound :
    (checks : ScenarioChecks) (cfg : Config) (worker_count : ℤ) (shards : List Config)
    → shard_configs checks cfg worker_count ≡ ok shards
    → (validate_config checks cfg ≡ ok tt) × ((c : ℕ) × IsSplit checks cfg worker_count c shards)
shard_configs_sound checks cfg worker_count shards h =
    let (valid, positive) = shard_configs-accepted checks cfg worker_count shards h in
    let (c, made, e, split) = shard_configs_complete checks cfg worker_count valid positive in
    let same : made ≡ shards = ground (arith, e) in
    (valid, (c, subst (IsSplit checks cfg worker_count c) same split))
