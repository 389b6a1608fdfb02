-- ===== src/LoadProfile/Stages.antt =====
-- The loop of `compileLoadProfile` over the stages, against a description of what it accepts.
use flow_routine.Prelude.{ℕ, ◌+◌, ◌≡◌, ◌||◌, List, [], ◌∷◌, arith}
use flow_routine.Prelude.Int.{ℤ, pos, ◌+ℤ◌, ◌≤ℤ◌, ◌<ℤ◌, ltb_ℤ, max_ℤ, +ℤ_parts, -ℤ_parts}
use flow_routine.Prelude.Result.{ok}
use flow_routine.Config.{LoadStage}
use flow_routine.LoadProfile.{StageTotals, scan_stages, max_int64}

-- Every stage lasts and has a target that is not negative, and no sum of durations exceeds an int64.
abbrev pub StagesFit : ℤ → List LoadStage → Type 0
StagesFit total [] = Unit {0}
StagesFit total (s ∷ rest) =
    (pos 0 <ℤ s.duration)
    × (pos 0 ≤ℤ s.target)
    × (total +ℤ s.duration ≤ℤ max_int64)
    × StagesFit (total +ℤ s.duration) rest

-- The greatest of a value and the targets.
unfoldable pub peak : ℤ → List LoadStage → ℤ
peak top [] = top
peak top (s ∷ rest) = peak (max_ℤ top s.target) rest

unfoldable pub total_from : ℤ → List LoadStage → ℤ
total_from total [] = total
total_from total (s ∷ rest) = total_from (total +ℤ s.duration) rest

positive-max : (a b : ℤ) → (ltb_ℤ (pos 0) a || ltb_ℤ (pos 0) b) ≡ ltb_ℤ (pos 0) (max_ℤ a b)
unfolding max_ℤ
positive-max a b = ground arith

-- The loop succeeds exactly on stages that fit, with the sum of the durations, the peak and whether
-- the peak is positive.
pub scan_stages_sound :
    (i : ℕ) (stages : List LoadStage) (t u : StageTotals)
    → scan_stages i stages t ≡ ok u
    → t.positive_target ≡ ltb_ℤ (pos 0) t.max_target
    → StagesFit t.total_duration stages
      × (u.total_duration ≡ total_from t.total_duration stages)
      × (u.max_target ≡ peak t.max_target stages)
      × (u.positive_target ≡ ltb_ℤ (pos 0) (peak t.max_target stages))
unfolding scan_stages total_from peak
scan_stages_sound i [] t u h e = ground arith
scan_stages_sound i (s ∷ rest) t u h e =
    let next : StageTotals = record {
      total_duration = t.total_duration +ℤ s.duration;
      max_target = max_ℤ t.max_target s.target;
      positive_target = t.positive_target || ltb_ℤ (pos 0) s.target;
    } in
    ground (
      arith,
      -ℤ_parts max_int64 s.duration,
      +ℤ_parts t.total_duration s.duration,
      positive-max t.max_target s.target,
      scan_stages_sound (i + 1) rest next u,
    )

pub scan_stages_complete :
    (i : ℕ) (stages : List LoadStage) (t : StageTotals)
    → StagesFit t.total_duration stages
    → t.positive_target ≡ ltb_ℤ (pos 0) t.max_target
    → scan_stages i stages t
      ≡ ok (record {
        total_duration = total_from t.total_duration stages;
        max_target = peak t.max_target stages;
        positive_target = ltb_ℤ (pos 0) (peak t.max_target stages);
      })
unfolding scan_stages total_from peak
scan_stages_complete i [] t f e = ground arith
scan_stages_complete i (s ∷ rest) t f e =
    let next : StageTotals = record {
      total_duration = t.total_duration +ℤ s.duration;
      max_target = max_ℤ t.max_target s.target;
      positive_target = t.positive_target || ltb_ℤ (pos 0) s.target;
    } in
    ground (
      arith,
      -ℤ_parts max_int64 s.duration,
      +ℤ_parts t.total_duration s.duration,
      positive-max t.max_target s.target,
      scan_stages_complete (i + 1) rest next f.3,
    )
