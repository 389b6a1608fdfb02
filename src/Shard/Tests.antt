-- ===== src/Shard/Tests.antt =====
-- Splits at small inputs.
use flow_routine.Prelude.{ℕ, ◌≡◌, refl, List, arith}
use flow_routine.Prelude.Int.{min_ℤ, max_ℤ, pos, negsuc, ◌≤ℤ◌, ◌+ℤ◌, ◌-ℤ◌}
use flow_routine.Prelude.Result.{ok, err}
use flow_routine.Config.{Config}
use flow_routine.Validate.{validate_config, compile_config, check_numbers}
use flow_routine.Validate.Tests.{lenient, arriving, validate-arriving}
use flow_routine.Shard.{
  peak_target, cap_by_load, arrival_mode, too_few_workers, split_integer, active_workers,
  shard_configs, shard_config, make_shards, effective_connections, effective_users, shard_load,
  shard_profile, shard_stages, shards_from,
}
use flow_routine.LoadProfile.{
  compile_load_profile, in_force, is_unset, compile_profile, scan_stages, start_totals,
  compile_mode, compile_arrival, compile_active, validate_arrival_workers,
}
use flow_routine.Shard.Split.{sum_range, sum-split_integer, split_integer_even}
use flow_routine.Shard.Complete.{IsSplit, shard_list, shard_configs_complete, shard_configs_sound}
use flow_routine.Shard.Conserved.{IsConserved, shard_configs-IsConserved}

abbrev split_arriving : List Config
split_arriving = shard_list arriving 3 0 3

shard-arriving : shard_configs lenient arriving (pos 3) ≡ ok split_arriving
unfolding shard_configs validate_config compile_config check_numbers compile_load_profile in_force
    is_unset compile_profile scan_stages start_totals ◌-ℤ◌ ◌+ℤ◌ compile_mode compile_arrival max_ℤ
    make_shards active_workers cap_by_load compile_active validate_arrival_workers min_ℤ
    arrival_mode effective_connections effective_users peak_target shard_config shard_load
    shard_profile shard_stages shards_from split_integer shard_list
shard-arriving = refl

shard-no_workers : shard_configs lenient arriving (pos 0) ≡ err too_few_workers
unfolding shard_configs
shard-no_workers = refl

-- Four workers are allocated, so nine cannot all be used.
active-arriving : active_workers arriving (pos 9) ≡ pos 4
unfolding active_workers cap_by_load in_force is_unset arrival_mode min_ℤ peak_target max_ℤ
active-arriving = refl

split-parts :
    (split_integer (pos 10) 0 4 ≡ pos 3)
    × (split_integer (pos 10) 3 4 ≡ pos 2)
    × (split_integer (negsuc 9) 0 4 ≡ negsuc 1)
unfolding split_integer
split-parts = (refl, refl, refl)

sum-split_integer_example : sum_range (λ i. split_integer (pos 10) i 4) 0 4 ≡ pos 10
sum-split_integer_example = sum-split_integer 10 4 (omega arith)

split_integer_even_example :
    (split_integer (pos 10) 3 4 ≤ℤ split_integer (pos 10) 1 4)
    × (split_integer (pos 10) 1 4 ≤ℤ split_integer (pos 10) 3 4 +ℤ pos 1)
split_integer_even_example = split_integer_even 10 1 3 4 (omega arith)

shard_configs_complete_example :
    (c : ℕ) × (shards : List Config) × (shard_configs lenient arriving (pos 3) ≡ ok shards)
    × IsSplit lenient arriving (pos 3) c shards
shard_configs_complete_example =
    shard_configs_complete lenient arriving (pos 3) validate-arriving (omega arith)

shard_configs_sound_example :
    (validate_config lenient arriving ≡ ok tt)
    × ((c : ℕ) × IsSplit lenient arriving (pos 3) c split_arriving)
shard_configs_sound_example =
    shard_configs_sound lenient arriving (pos 3) split_arriving shard-arriving

shard_configs-IsConserved_example : IsConserved arriving split_arriving
shard_configs-IsConserved_example =
    shard_configs-IsConserved lenient arriving (pos 3) split_arriving shard-arriving
