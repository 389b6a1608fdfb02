-- ===== src/Plan/Compile/Owners.antt =====
-- internal/engine/execution_plan.go: the branches and `joinOwners` of `validateStructuredBranches`.
use flow_routine.Prelude.{
  ℕ, zero, suc, ◌+◌, ◌≤◌, ◌≡◌, refl, ap, inl, inr, Bool, true, false, not, some, List, [], ◌∷◌,
  arith, ◌==◌, ==_iff, Bool-cases, length, get_elem?,
}
use flow_routine.Prelude.Result.{guard}
use flow_routine.Plan.{
  Instruction, CompiledExecutionRoute, CompiledExecutionStep, execution_adjacency,
}
use flow_routine.Plan.Graph.{execution_predecessors, reverse_reachable}
use flow_routine.Plan.Iteration.Safe.{InstructionFits, StepsFit}
use flow_routine.Plan.Targets.{
  shared_join, routes_merge, nested_branch, unowned_join, unfinished, or_error,
}
use flow_routine.Plan.Loops.{is_marked}
use flow_routine.Plan.Cycles.Counts.{bit}
use flow_routine.Plan.Branches.{
  route_regions, some_overlap, join_inside, all_nested_joined, has_owner, check_branch,
  check_branches, is_join, joins_owned, validate_structured_branches,
}
use flow_routine.Plan.Compile.Ensures.{Ensures, returns, after, checked, tested, weaken}
use flow_routine.Plan.Compile.Fits.{Sound, AllSound}
use flow_routine.Plan.Compile.Regions.{back_found}
use flow_routine.Plan.Compile.Joined.{
  BranchJoined, overlap_lem, some_overlap_lem, nested_joined_lem, all_nested_joined_lem, Regions,
  region_at, route_regions-Ensures,
}

-- How many branches have a step as their join.
abbrev pub owned : ℕ → Instruction → ℕ
owned index (Instruction.branch routes weight join) = bit (join == index)
owned index _ = 0

abbrev pub owners_of : ℕ → List CompiledExecutionStep → ℕ
owners_of index [] = 0
owners_of index (s ∷ rest) = owned index s.instruction + owners_of index rest

module _ (steps : List CompiledExecutionStep) (fits : StepsFit (length steps) steps) where
  abbrev without_bodies : List (List ℕ)
  without_bodies = execution_adjacency steps true

  abbrev pub Joined : Instruction → Type 0
  Joined (Instruction.branch routes weight join) = BranchJoined steps routes join
  Joined _ = Unit {0}

  joined_of_Regions :
      (routes : List CompiledExecutionRoute) (join : ℕ) (regions : List (List Bool))
      → Regions steps fits join routes regions
      → some_overlap regions ≡ false
      → all_nested_joined steps regions ≡ true
      → BranchJoined steps routes join
  unfolding join_inside
  joined_of_Regions routes join regions all no_overlap nested = record {
    reaches = λ k r at.
        let (v, found, region) = region_at steps fits join routes regions all k r at in
        region.reached;
    inside_reaches = λ k r m at path.
        let (v, found, region) = region_at steps fits join routes regions all k r at in
        region.back m ((region.exact m).1 path);
    apart = λ k l r r' m before at at' path path'.
        let (v, found, region) = region_at steps fits join routes regions all k r at in
        let (v', found', region') = region_at steps fits join routes regions all l r' at' in
        overlap_lem v v' (some_overlap_lem regions no_overlap k l v v' before found found') m
          ((region.exact m).1 path) ((region'.exact m).1 path');
    nested = λ k r m s inner weight inner_join at path step_at kind.
        let (v, found, region) = region_at steps fits join routes regions all k r at in
        let inside =
          nested_joined_lem v v steps (all_nested_joined_lem steps regions nested k v found) m s
            ((region.exact m).1 path) step_at in
        (region.exact inner_join).0 (is_inside v s.instruction inner weight inner_join kind inside);
  }
    where
      is_inside :
          (v : List Bool) (i : Instruction) (inner : List CompiledExecutionRoute)
          (weight inner_join : ℕ)
          → i ≡ Instruction.branch inner weight inner_join
          → join_inside v i ≡ true
          → is_marked v inner_join ≡ true
      is_inside v i inner weight inner_join kind inside = rw kind at inside

  -- A branch becomes the owner of its join, which had none.
  check_branch-Ensures :
      (owners : List (ℕ × ℕ)) (index : ℕ) (i : Instruction) (m : ℕ)
      → InstructionFits (length steps) i
      → Sound (length steps) m i
      → Ensures
          (λ r. Joined i × ((j : ℕ) → bit (has_owner r j) ≡ bit (has_owner owners j) + owned j i))
          (check_branch steps without_bodies owners index i)
  unfolding check_branch has_owner
  check_branch-Ensures owners index (Instruction.scenario s next) m fit sound =
      returns (_, λ j. omega arith)
  check_branch-Ensures owners index (Instruction.join next) m fit sound =
      returns (_, λ j. omega arith)
  check_branch-Ensures owners index (Instruction.loop body exit k) m fit sound =
      returns (_, λ j. omega arith)
  check_branch-Ensures owners index (Instruction.branch routes weight join) m (heavy, many, fit)
        (sum, inside) =
      checked (not (has_owner owners join)) shared_join _ refl (λ fresh.
        after (or_error unfinished (reverse_reachable join (execution_predecessors without_bodies)))
          _ (back_found steps fits join inside)
          (λ can_reach reached.
            after (route_regions can_reach without_bodies join routes) _
              (route_regions-Ensures steps fits join can_reach routes reached fit)
              (λ regions all.
                checked (not (some_overlap regions)) routes_merge _ refl (λ no_overlap.
                  checked (all_nested_joined steps regions) nested_branch _ refl (λ nested.
                    returns (
                      joined_of_Regions routes join regions all (ground (arith, no_overlap)) nested,
                      λ j. elim (Bool-cases (join == j)) [
                        | inl same ↦
                            let equal : join ≡ j = (==_iff join j).0 same in
                            ground (arith, ap (has_owner owners) equal, fresh, same)
                        | inr other ↦ ground (arith, other)
                      ],
                    ))))))

  abbrev pub AllJoined : List CompiledExecutionStep → Type 0
  AllJoined [] = Unit {0}
  AllJoined (s ∷ rest) = Joined s.instruction × AllJoined rest

  check_branches-Ensures :
      (owners : List (ℕ × ℕ)) (index : ℕ) (rest : List CompiledExecutionStep) (m : ℕ)
      → StepsFit (length steps) rest
      → AllSound (length steps) m rest
      → Ensures
          (λ r.
            AllJoined rest
            × ((j : ℕ) → bit (has_owner r j) ≡ bit (has_owner owners j) + owners_of j rest))
          (check_branches steps without_bodies owners index rest)
  unfolding check_branches
  check_branches-Ensures owners index [] m fit sound = returns (_, λ j. omega arith)
  check_branches-Ensures owners index (s ∷ rest) m (here_fits, fit) (here_sound, sound) =
      after (check_branch steps without_bodies owners index s.instruction) _
        (check_branch-Ensures owners index s.instruction m here_fits here_sound)
        (λ next (joined, here).
          weaken (check_branches steps without_bodies next (index + 1) rest)
            (check_branches-Ensures next (index + 1) rest m fit sound)
            (λ r (all, later). ((joined, all), λ j. omega (arith, here j, later j))))

  joins_owned_lem :
      (owners : List (ℕ × ℕ)) (index : ℕ) (rest : List CompiledExecutionStep)
      → joins_owned owners index rest ≡ true
      → (m j : ℕ) (s : CompiledExecutionStep) → m ≡ index + j
      → get_elem? rest j ≡ some s
      → is_join s.instruction ≡ true
      → has_owner owners m ≡ true
  unfolding joins_owned
  joins_owned_lem owners index [] h m j s e at kind = cc
  joins_owned_lem owners index (step ∷ rest) h m zero s e at kind =
      let same : step ≡ s = cc at in
      let here : m ≡ index = omega (arith, e) in
      let test : is_join step.instruction ≡ true = rw same kind in rw here (ground (arith, h, test))
  joins_owned_lem owners index (step ∷ rest) h m (suc j) s e at kind =
      joins_owned_lem owners (index + 1) rest (ground (arith, h)) m j s (omega (arith, e)) at kind

  -- Every branch is well structured, a join has one branch, and no step has two.
  pub record Structured : Type 0 where
    pub joined : AllJoined steps
    pub single : (j : ℕ) → owners_of j steps ≤ 1
    pub owner :
        (j : ℕ) (s : CompiledExecutionStep)
        → get_elem? steps j ≡ some s
        → is_join s.instruction ≡ true
        → owners_of j steps ≡ 1

  pub validate_structured_branches-Ensures :
      (m : ℕ)
      → AllSound (length steps) m steps
      → Ensures (λ u. Structured) (validate_structured_branches steps without_bodies)
  unfolding validate_structured_branches has_owner
  validate_structured_branches-Ensures m sound =
      after (check_branches steps without_bodies [] 0 steps) _
        (check_branches-Ensures [] 0 steps m fits sound)
        (λ owners (all, exact).
          weaken (guard (joins_owned owners 0 steps) unowned_join)
            (tested (joins_owned owners 0 steps) unowned_join refl)
            (λ u owned_all. record {
              joined = all;
              single = λ j. ground (arith, exact j);
              owner = λ j s at kind. ground (
                arith,
                exact j,
                joins_owned_lem owners 0 steps owned_all j j s (omega arith) at kind,
              );
            }))
