-- ===== src/Shard/Shares.antt =====
-- The stages and the profile of a shard.
use flow_routine.Prelude.{
  ℕ, suc, ◌<◌, ◌≡◌, refl, ap, ◌∙◌, ◌⊎◌, inl, false, Option, none, some, List, [], ◌∷◌, arith,
  if◌then◌else◌, length,
}
use flow_routine.Prelude.Int.{ℤ, pos, ◌≤ℤ◌, ◌+ℤ◌, max_ℤ, min_ℤ, ltb_ℤ}
use flow_routine.Config.{LoadMode, LoadStage, LoadProfile, Config}
use flow_routine.LoadProfile.{active_profile}
use flow_routine.LoadProfile.Stages.{StagesFit, peak}
use flow_routine.LoadProfile.Accepted.{ConstantShape, FitsMode, ProfileFits}
use flow_routine.Shard.{
  split_integer, arrival_mode, peak_target, shard_stages, cap_by_load, active_workers,
  effective_users, effective_connections,
}
use flow_routine.Shard.Bounds.{split_integer-nonneg, split_integer-pos, split_integer-max}

pub peak_target-peak :
    (top : ℤ) (stages : List LoadStage) → peak_target top stages ≡ peak top stages
unfolding peak_target peak
peak_target-peak top [] = refl
peak_target-peak top (s ∷ rest) = peak_target-peak (max_ℤ top s.target) rest

max-nonneg : (a b : ℤ) → pos 0 ≤ℤ a → pos 0 ≤ℤ max_ℤ a b
unfolding max_ℤ
max-nonneg a b h = ground arith

pub length-shard_stages :
    (i c : ℕ) (stages : List LoadStage) → length (shard_stages i c stages) ≡ length stages
unfolding shard_stages
length-shard_stages i c [] = refl
length-shard_stages i c (s ∷ rest) = ap suc (length-shard_stages i c rest)

module _ (i c : ℕ) (inside : i < c) where
  pub shard_stages-StagesFit :
      (total : ℤ) (stages : List LoadStage)
      → StagesFit total stages
      → StagesFit total (shard_stages i c stages)
  unfolding shard_stages
  shard_stages-StagesFit total [] f = tt
  shard_stages-StagesFit total (s ∷ rest) f = (
    f.0,
    split_integer-nonneg s.target i c f.1,
    f.2,
    shard_stages-StagesFit (total +ℤ s.duration) rest f.3,
  )

  -- The peak of the shares is the share of the peak.
  pub peak-shard_stages :
      (total top : ℤ) (stages : List LoadStage)
      → StagesFit total stages
      → pos 0 ≤ℤ top
      → peak (split_integer top i c) (shard_stages i c stages) ≡ split_integer (peak top stages) i c
  unfolding peak shard_stages
  peak-shard_stages total top [] f h = refl
  peak-shard_stages total top (s ∷ rest) f h =
      ap (λ t. peak t (shard_stages i c rest)) (split_integer-max top s.target i c inside h f.1)
      ∙ peak-shard_stages (total +ℤ s.duration) (max_ℤ top s.target) rest f.3
          (max-nonneg top s.target h)

  pub shard_stages-ConstantShape :
      (start : ℤ) (stages : List LoadStage)
      → pos c ≤ℤ start
      → ConstantShape start stages
      → ConstantShape (split_integer start i c) (shard_stages i c stages)
  unfolding shard_stages
  shard_stages-ConstantShape start [] h f = absurd f
  shard_stages-ConstantShape start (s ∷ []) h f =
      (split_integer-pos start i c inside h, ap (λ t. split_integer t i c) f.1)
  shard_stages-ConstantShape start (s ∷ _ ∷ _) h f = absurd f

-- What the number of workers leaves to each of them: at least one of everything that is split.
abbrev pub LoadCapacity : Config → Option LoadProfile → ℕ → Type 0
LoadCapacity cfg none c = pos c ≤ℤ effective_users cfg
LoadCapacity cfg (some p) c =
    (pos c ≤ℤ peak p.start_target p.stages)
    × ((arrival_mode p.mode ≡ false) ⊎ (pos c ≤ℤ p.pre_allocated_vus) × (pos c ≤ℤ p.max_vus))

pub record Capacity (cfg : Config) (c : ℕ) : Type 0 where
  pub connections : pos c ≤ℤ effective_connections cfg
  pub rate : (cfg.rate_limit_rps ≤ℤ pos 0) ⊎ (pos c ≤ℤ cfg.rate_limit_rps)
  pub load : LoadCapacity cfg (active_profile cfg) c

cap_by_load-LoadCapacity :
    (cfg : Config) (o : Option LoadProfile) (limit : ℤ) (c : ℕ)
    → cap_by_load cfg o limit ≡ pos c
    → LoadCapacity cfg o c × (pos c ≤ℤ limit)
unfolding cap_by_load min_ℤ
cap_by_load-LoadCapacity cfg none limit c h = ground arith
cap_by_load-LoadCapacity cfg (some p) limit c h =
    ground (arith, peak_target-peak p.start_target p.stages)

-- The number of shards is at most the number of workers, and leaves each shard some capacity.
pub active_workers-Capacity :
    (cfg : Config) (worker_count : ℤ) (c : ℕ)
    → active_workers cfg worker_count ≡ pos c
    → Capacity cfg c × (pos c ≤ℤ worker_count)
unfolding active_workers min_ℤ
active_workers-Capacity cfg worker_count c h =
    let connected = min_ℤ worker_count (effective_connections cfg) in
    let limited =
      if ltb_ℤ (pos 0) cfg.rate_limit_rps then min_ℤ connected cfg.rate_limit_rps else connected in
    ground (arith, cap_by_load-LoadCapacity cfg (active_profile cfg) limited c)

pub arrival-positive :
    (m : LoadMode) (cfg : Config) (p : LoadProfile) (top : ℤ)
    → FitsMode m cfg p top
    → (arrival_mode m ≡ false) ⊎ (pos 1 ≤ℤ p.pre_allocated_vus) × (pos 1 ≤ℤ p.max_vus)
unfolding arrival_mode
arrival-positive LoadMode.constant_arrival cfg p top f = ground arith
arrival-positive LoadMode.ramping_arrival cfg p top f = ground arith
arrival-positive m cfg p top f = inl refl

cap_by_load-pos :
    (cfg : Config) (o : Option LoadProfile) (limit : ℤ)
    → ProfileFits cfg o
    → pos 0 ≤ℤ cfg.virtual_users
    → pos 1 ≤ℤ limit
    → pos 1 ≤ℤ cap_by_load cfg o limit
unfolding cap_by_load min_ℤ
cap_by_load-pos cfg none limit f u h = ground arith
cap_by_load-pos cfg (some p) limit f u h = ground (
  arith,
  f.positive,
  arrival-positive p.mode cfg p (peak p.start_target p.stages) f.mode_fits,
  peak_target-peak p.start_target p.stages,
)

-- A configuration that is valid leaves at least one worker something to do.
pub active_workers-pos :
    (cfg : Config) (worker_count : ℤ)
    → ProfileFits cfg (active_profile cfg)
    → pos 0 ≤ℤ cfg.virtual_users
    → pos 0 ≤ℤ cfg.max_conns_per_host
    → pos 1 ≤ℤ worker_count
    → pos 1 ≤ℤ active_workers cfg worker_count
unfolding active_workers min_ℤ
active_workers-pos cfg worker_count f u m h =
    let connected = min_ℤ worker_count (effective_connections cfg) in
    let limited =
      if ltb_ℤ (pos 0) cfg.rate_limit_rps then min_ℤ connected cfg.rate_limit_rps else connected in
    cap_by_load-pos cfg (active_profile cfg) limited f u (ground arith)
