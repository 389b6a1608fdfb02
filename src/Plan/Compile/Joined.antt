-- ===== src/Plan/Compile/Joined.antt =====
-- internal/engine/execution_plan.go: the routes that `validateStructuredBranches` looks at.
use flow_routine.Prelude.{
  ℕ, zero, suc, ◌<◌, ◌≡◌, refl, subst, ◌↔◌, Bool, true, false, some, List, [], ◌∷◌, arith, length,
  get_elem?,
}
use flow_routine.Plan.{
  Instruction, CompiledExecutionRoute, CompiledExecutionStep, execution_adjacency,
}
use flow_routine.Plan.Graph.Paths.{Reach, Avoiding}
use flow_routine.Plan.Graph.Visit.{Marked}
use flow_routine.Plan.Forward.{forward_until}
use flow_routine.Plan.Iteration.Safe.{AllFit, StepsFit}
use flow_routine.Plan.Targets.{route_without_join, route_bypass, unfinished, or_error}
use flow_routine.Plan.Loops.{is_marked}
use flow_routine.Plan.Branches.{
  covered, route_regions, overlap, overlaps_any, some_overlap, join_inside, nested_joined,
  all_nested_joined,
}
use flow_routine.Plan.Compile.Ensures.{Ensures, returns, after, checked}
use flow_routine.Plan.Compile.Regions.{region_found}

covered_lem :
    (region can_reach : List Bool)
    → covered region can_reach ≡ true
    → (m : ℕ) → Marked region m
    → Marked can_reach m
unfolding covered
covered_lem [] can_reach h m marked = cc
covered_lem (b ∷ region) [] h zero marked = ground (arith, h, marked)
covered_lem (b ∷ region) [] h (suc m) marked =
    absurd (let wrong = covered_lem region [] (ground (arith, h)) m marked in cc)
covered_lem (b ∷ region) (c ∷ can_reach) h zero marked = ground (arith, h, marked)
covered_lem (b ∷ region) (c ∷ can_reach) h (suc m) marked =
    covered_lem region can_reach (ground (arith, h)) m marked

pub overlap_lem :
    (left right : List Bool)
    → overlap left right ≡ false
    → (m : ℕ) → Marked left m
    → ¬ (Marked right m)
unfolding overlap
overlap_lem [] right h m marked other = cc
overlap_lem (b ∷ left) [] h m marked other = cc
overlap_lem (b ∷ left) (c ∷ right) h zero marked other = absurd (ground (arith, h, marked, other))
overlap_lem (b ∷ left) (c ∷ right) h (suc m) marked other =
    overlap_lem left right (ground (arith, h)) m marked other

overlaps_any_lem :
    (left : List Bool) (rest : List (List Bool))
    → overlaps_any left rest ≡ false
    → (k : ℕ) (right : List Bool) → get_elem? rest k ≡ some right
    → overlap left right ≡ false
unfolding overlaps_any
overlaps_any_lem left [] h k right at = cc
overlaps_any_lem left (v ∷ rest) h zero right at =
    let same : v ≡ right = cc at in rw (← same) (ground (arith, h))
overlaps_any_lem left (v ∷ rest) h (suc k) right at =
    overlaps_any_lem left rest (ground (arith, h)) k right at

pub some_overlap_lem :
    (regions : List (List Bool))
    → some_overlap regions ≡ false
    → (k l : ℕ) (left right : List Bool) → k < l
    → get_elem? regions k ≡ some left
    → get_elem? regions l ≡ some right
    → overlap left right ≡ false
unfolding some_overlap
some_overlap_lem [] h k l left right before at_k at_l = cc
some_overlap_lem (v ∷ rest) h k zero left right before at_k at_l = absurd (omega (arith, before))
some_overlap_lem (v ∷ rest) h zero (suc l) left right before at_k at_l =
    let same : v ≡ left = cc at_k in
    rw (← same) (overlaps_any_lem v rest (ground (arith, h)) l right at_l)
some_overlap_lem (v ∷ rest) h (suc k) (suc l) left right before at_k at_l =
    some_overlap_lem rest (ground (arith, h)) k l left right (omega (arith, before)) at_k at_l

pub nested_joined_lem :
    (region inside : List Bool) (steps : List CompiledExecutionStep)
    → nested_joined region inside steps ≡ true
    → (m : ℕ) (s : CompiledExecutionStep) → Marked inside m
    → get_elem? steps m ≡ some s
    → join_inside region s.instruction ≡ true
unfolding nested_joined
nested_joined_lem region inside [] h m s marked at = cc
nested_joined_lem region [] (step ∷ steps) h m s marked at = cc
nested_joined_lem region (b ∷ inside) (step ∷ steps) h zero s marked at =
    let same : step ≡ s = cc at in rw (← same) (ground (arith, h, marked))
nested_joined_lem region (b ∷ inside) (step ∷ steps) h (suc m) s marked at =
    nested_joined_lem region inside steps (ground (arith, h)) m s marked at

pub all_nested_joined_lem :
    (steps : List CompiledExecutionStep) (regions : List (List Bool))
    → all_nested_joined steps regions ≡ true
    → (k : ℕ) (region : List Bool) → get_elem? regions k ≡ some region
    → nested_joined region region steps ≡ true
unfolding all_nested_joined
all_nested_joined_lem steps [] h k region at = cc
all_nested_joined_lem steps (v ∷ rest) h zero region at =
    let same : v ≡ region = cc at in rw (← same) (ground (arith, h))
all_nested_joined_lem steps (v ∷ rest) h (suc k) region at =
    all_nested_joined_lem steps rest (ground (arith, h)) k region at

-- A branch of the plan: each of its routes leads to its join, whatever can be reached from a route
-- without the join leads there too, two routes meet only at the join, and a branch on a route joins
-- before it.
pub record BranchJoined (steps : List CompiledExecutionStep) (routes : List CompiledExecutionRoute)
    (join : ℕ) : Type 0 where
  pub reaches :
      (k : ℕ) (r : CompiledExecutionRoute)
      → get_elem? routes k ≡ some r
      → Reach (execution_adjacency steps true) r.target join
  pub inside_reaches :
      (k : ℕ) (r : CompiledExecutionRoute) (m : ℕ)
      → get_elem? routes k ≡ some r
      → Avoiding (execution_adjacency steps true) join r.target m
      → Reach (execution_adjacency steps true) m join
  pub apart :
      (k l : ℕ) (r r' : CompiledExecutionRoute) (m : ℕ)
      → k < l
      → get_elem? routes k ≡ some r
      → get_elem? routes l ≡ some r'
      → Avoiding (execution_adjacency steps true) join r.target m
      → ¬ (Avoiding (execution_adjacency steps true) join r'.target m)
  pub nested :
      (k : ℕ) (r : CompiledExecutionRoute) (m : ℕ) (s : CompiledExecutionStep)
      (inner : List CompiledExecutionRoute) (weight inner_join : ℕ)
      → get_elem? routes k ≡ some r
      → Avoiding (execution_adjacency steps true) join r.target m
      → get_elem? steps m ≡ some s
      → s.instruction ≡ Instruction.branch inner weight inner_join
      → Avoiding (execution_adjacency steps true) join r.target inner_join

module _ (steps : List CompiledExecutionStep) (fits : StepsFit (length steps) steps) where
  abbrev without_bodies : List (List ℕ)
  without_bodies = execution_adjacency steps true

  pub record RouteRegion (join : ℕ) (r : CompiledExecutionRoute) (v : List Bool) : Type 0 where
    pub exact : (m : ℕ) → Marked v m ↔ Avoiding without_bodies join r.target m
    pub reached : Reach without_bodies r.target join
    pub back : (m : ℕ) → Marked v m → Reach without_bodies m join

  abbrev pub Regions : ℕ → List CompiledExecutionRoute → List (List Bool) → Type 0
  Regions join [] regions = Unit {0}
  Regions join (r ∷ routes) [] = ⊥
  Regions join (r ∷ routes) (v ∷ regions) = RouteRegion join r v × Regions join routes regions

  pub region_at :
      (join : ℕ) (routes : List CompiledExecutionRoute) (regions : List (List Bool))
      → Regions join routes regions
      → (k : ℕ) (r : CompiledExecutionRoute) → get_elem? routes k ≡ some r
      → (v : List Bool) × (get_elem? regions k ≡ some v) × RouteRegion join r v
  region_at join [] regions all k r at = cc
  region_at join (x ∷ routes) [] all k r at = absurd all
  region_at join (x ∷ routes) (v ∷ regions) (here, all) zero r at =
      let same : x ≡ r = cc at in (v, refl, subst (λ y. RouteRegion join y v) same here)
  region_at join (x ∷ routes) (v ∷ regions) (here, all) (suc k) r at =
      region_at join routes regions all k r at

  pub route_regions-Ensures :
      (join : ℕ) (can_reach : List Bool) (routes : List CompiledExecutionRoute)
      → ((m : ℕ) → Marked can_reach m ↔ Reach without_bodies m join)
      → AllFit (length steps) routes
      → Ensures (Regions join routes) (route_regions can_reach without_bodies join routes)
  unfolding route_regions
  route_regions-Ensures join can_reach [] reached fit = returns _
  route_regions-Ensures join can_reach (r ∷ routes) reached (inside, fit) =
      checked (is_marked can_reach r.target) route_without_join _ refl (λ leads.
        after (or_error unfinished (forward_until r.target join without_bodies)) _
          (region_found steps fits r.target join inside)
          (λ v (size, exact). checked (covered v can_reach) route_bypass _ refl (λ inside_back.
            after (route_regions can_reach without_bodies join routes) _
              (route_regions-Ensures join can_reach routes reached fit)
              (λ regions all. returns (
                record {
                  exact = exact;
                  reached = (reached r.target).0 leads;
                  back = λ m marked. (reached m).0 (covered_lem v can_reach inside_back m marked);
                },
                all,
              )))))
