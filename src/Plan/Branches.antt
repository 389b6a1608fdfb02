-- ===== src/Plan/Branches.antt =====
-- internal/engine/execution_plan.go: `validateStructuredBranches`. As for the loops, the order in which Go
-- ranges over a region decides only which error is reported.
use flow_routine.Prelude.{ℕ, ◌+◌, Bool, true, false, ◌&&◌, ◌||◌, not, List, [], ◌∷◌, ◌==◌}
use flow_routine.Prelude.Result.{Result, ok, ◌>>=◌, ◌>>◌, guard}
use flow_routine.Plan.{Instruction, CompiledExecutionRoute, CompiledExecutionStep}
use flow_routine.Plan.Graph.{execution_predecessors, reverse_reachable}
use flow_routine.Plan.Forward.{forward_until}
use flow_routine.Plan.Targets.{
  CompileError, shared_join, route_without_join, route_bypass, routes_merge, nested_branch,
  unowned_join, unfinished, or_error,
}
use flow_routine.Plan.Loops.{is_marked}

-- `!canReachJoin[node]` for no node of the region.
unfoldable pub covered : List Bool → List Bool → Bool
covered [] can_reach = true
covered (b ∷ region) [] = not b && covered region []
covered (b ∷ region) (c ∷ can_reach) = (not b || c) && covered region can_reach

-- The loop over the routes: their regions.
unfoldable pub route_regions :
    List Bool
    → List (List ℕ)
    → ℕ
    → List CompiledExecutionRoute
    → Result CompileError (List (List Bool))
unfolding covered
route_regions can_reach acyclic join [] = ok []
route_regions can_reach acyclic join (route ∷ rest) = do
  guard (is_marked can_reach route.target) route_without_join
  region ← or_error unfinished (forward_until route.target join acyclic)
  guard (covered region can_reach) route_bypass
  later ← route_regions can_reach acyclic join rest
  ok (region ∷ later)

unfoldable pub overlap : List Bool → List Bool → Bool
overlap [] right = false
overlap (b ∷ left) [] = false
overlap (b ∷ left) (c ∷ right) = b && c || overlap left right

unfoldable pub overlaps_any : List Bool → List (List Bool) → Bool
unfolding overlap
overlaps_any left [] = false
overlaps_any left (right ∷ rest) = overlap left right || overlaps_any left rest

-- The loops over `left` and `right`.
unfoldable pub some_overlap : List (List Bool) → Bool
unfolding overlaps_any
some_overlap [] = false
some_overlap (left ∷ rest) = overlaps_any left rest || some_overlap rest

unfoldable pub join_inside : List Bool → Instruction → Bool
join_inside region (Instruction.branch routes weight join) = is_marked region join
join_inside region _ = true

-- The branches inside a region join inside it; `inside` is the part of the region from a step on.
unfoldable pub nested_joined : List Bool → List Bool → List CompiledExecutionStep → Bool
unfolding join_inside
nested_joined region inside [] = true
nested_joined region [] (step ∷ rest) = true
nested_joined region (b ∷ inside) (step ∷ rest) =
    (not b || join_inside region step.instruction) && nested_joined region inside rest

unfoldable pub all_nested_joined : List CompiledExecutionStep → List (List Bool) → Bool
unfolding nested_joined
all_nested_joined steps [] = true
all_nested_joined steps (region ∷ rest) =
    nested_joined region region steps && all_nested_joined steps rest

-- `joinOwners`, the newest first.
unfoldable pub has_owner : List (ℕ × ℕ) → ℕ → Bool
has_owner [] join = false
has_owner ((owned, branch_index) ∷ rest) join = owned == join || has_owner rest join

-- The body of the loop over the steps, on `joinOwners`.
unfoldable pub check_branch :
    List CompiledExecutionStep
    → List (List ℕ)
    → List (ℕ × ℕ)
    → ℕ
    → Instruction
    → Result CompileError (List (ℕ × ℕ))
unfolding has_owner route_regions some_overlap all_nested_joined
check_branch steps acyclic owners branch_index (Instruction.branch routes weight join) = do
  guard (not (has_owner owners join)) shared_join
  can_reach ← or_error unfinished (reverse_reachable join (execution_predecessors acyclic))
  regions ← route_regions can_reach acyclic join routes
  guard (not (some_overlap regions)) routes_merge
  guard (all_nested_joined steps regions) nested_branch
  ok ((join, branch_index) ∷ owners)
check_branch steps acyclic owners branch_index _ = ok owners

unfoldable pub check_branches :
    List CompiledExecutionStep
    → List (List ℕ)
    → List (ℕ × ℕ)
    → ℕ
    → List CompiledExecutionStep
    → Result CompileError (List (ℕ × ℕ))
unfolding check_branch
check_branches steps acyclic owners index [] = ok owners
check_branches steps acyclic owners index (step ∷ rest) = do
  next ← check_branch steps acyclic owners index step.instruction
  check_branches steps acyclic next (index + 1) rest

unfoldable pub is_join : Instruction → Bool
is_join (Instruction.join next) = true
is_join _ = false

-- The last loop: every join is assigned to a branch.
unfoldable pub joins_owned : List (ℕ × ℕ) → ℕ → List CompiledExecutionStep → Bool
unfolding has_owner is_join
joins_owned owners index [] = true
joins_owned owners index (step ∷ rest) =
    (not (is_join step.instruction) || has_owner owners index)
    && joins_owned owners (index + 1) rest

-- `validateStructuredBranches`.
unfoldable pub validate_structured_branches :
    List CompiledExecutionStep → List (List ℕ) → Result CompileError (Unit {0})
unfolding check_branches joins_owned
validate_structured_branches steps acyclic = do
  owners ← check_branches steps acyclic [] 0 steps
  guard (joins_owned owners 0 steps) unowned_join
