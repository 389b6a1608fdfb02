-- ===== src/Plan/Forward/Tests.antt =====
-- The region between a branch and its join.
use flow_routine.Prelude.{ℕ, ◌≡◌, refl, ◌↔◌, Bool, true, false, some, List, [], ◌∷◌, arith, length}
use flow_routine.Plan.Graph.Paths.{Avoiding}
use flow_routine.Plan.Graph.Visit.{Marked}
use flow_routine.Plan.Graph.Tests.{diamond, diamond-InRange}
use flow_routine.Plan.Forward.{forward_until}
use flow_routine.Plan.Forward.Exact.{forward_until_correct}

route_region : forward_until 1 3 diamond ≡ some (false ∷ true ∷ false ∷ false ∷ [])
unfolding forward_until
route_region = refl

forward_until_correct_example :
    (v : List Bool) × (forward_until 1 3 diamond ≡ some v)
    × (length v ≡ 4)
    × ((m : ℕ) → Marked v m ↔ Avoiding diamond 3 1 m)
forward_until_correct_example = forward_until_correct diamond 1 3 diamond-InRange (omega arith)
