-- ===== src/Plan/Compile/Regions.antt =====
-- internal/engine/execution_plan.go: the regions that `validateBoundedExecutionLoops` looks at.
use flow_routine.Prelude.{
  ℕ, zero, suc, ◌+◌, ◌<◌, ◌≡◌, refl, ap, ◌≢◌, ◌↔◌, ◌⊎◌, inl, inr, Bool, true, false, ◌||◌, not,
  Option, none, some, List, [], ◌∷◌, map, arith, ◌==◌, length, get_elem?,
}
use flow_routine.Plan.{
  Instruction, CompiledExecutionRoute, CompiledExecutionStep, optional_target, successors,
  execution_adjacency,
}
use flow_routine.Plan.Graph.{execution_predecessors, reverse_reachable}
use flow_routine.Plan.Graph.Paths.{In, Edge, InRange, Reach, Avoiding}
use flow_routine.Plan.Graph.Visit.{Marked}
use flow_routine.Plan.Graph.Reverse.{reverse_reachable_correct}
use flow_routine.Plan.Forward.{forward_until}
use flow_routine.Plan.Forward.Exact.{forward_until_correct}
use flow_routine.Plan.Cycles.{execution_cycle_node}
use flow_routine.Plan.Cycles.Ordered.{Ordered, execution_cycle_node_correct}
use flow_routine.Plan.Iteration.Safe.{Fits, AllFit, InstructionFits, StepsFit}
use flow_routine.Plan.Targets.{
  loop_without_return, loop_escape, nested_loop, loop_exit_inside, unbounded_cycle, unfinished,
  or_error, is_some,
}
use flow_routine.Plan.Loops.{
  is_marked, is_loop, check_region, exit_outside, check_loop, check_loops,
  validate_bounded_execution_loops,
}
use flow_routine.Plan.Compile.Ensures.{Ensures, returns, after, checked, finished, weaken}

optional_target-below :
    (n : ℕ) (target : Option ℕ) (b : ℕ) → Fits n target → In b (optional_target target) → b < n
optional_target-below n none b fits i = absurd i
optional_target-below n (some t) b fits (inl e) = omega (arith, e, fits)
optional_target-below n (some t) b fits (inr i) = absurd i

routes-below :
    (n : ℕ) (routes : List CompiledExecutionRoute) (b : ℕ)
    → AllFit n routes
    → In b (map (λ r. r.target) routes)
    → b < n
routes-below n [] b fits i = absurd i
routes-below n (r ∷ routes) b (inside, fits) (inl e) = omega (arith, e, inside)
routes-below n (r ∷ routes) b (inside, fits) (inr i) = routes-below n routes b fits i

successors-below :
    (n : ℕ) (remove : Bool) (i : Instruction) (b : ℕ)
    → InstructionFits n i
    → In b (successors remove i)
    → b < n
unfolding successors
successors-below n remove (Instruction.scenario index next) b fits i =
    optional_target-below n next b fits i
successors-below n remove (Instruction.branch routes weight join) b (heavy, many, fits) i =
    routes-below n routes b fits i
successors-below n remove (Instruction.join next) b fits i = optional_target-below n next b fits i
successors-below n true (Instruction.loop body exit k) b (inside, fits) i =
    optional_target-below n exit b fits i
successors-below n false (Instruction.loop body exit k) b (inside, fits) (inl e) =
    omega (arith, e, inside)
successors-below n false (Instruction.loop body exit k) b (inside, fits) (inr i) =
    optional_target-below n exit b fits i

edges-below :
    (n : ℕ) (remove : Bool) (steps : List CompiledExecutionStep) (a b : ℕ)
    → StepsFit n steps
    → Edge (execution_adjacency steps remove) a b
    → b < n
unfolding execution_adjacency
edges-below n remove [] a b fits edge = absurd edge
edges-below n remove (s ∷ steps) zero b (here, later) edge =
    successors-below n remove s.instruction b here edge
edges-below n remove (s ∷ steps) (suc a) b (here, later) edge =
    edges-below n remove steps a b later edge

pub length-execution_adjacency :
    (steps : List CompiledExecutionStep) (remove : Bool)
    → length (execution_adjacency steps remove) ≡ length steps
unfolding execution_adjacency
length-execution_adjacency [] remove = refl
length-execution_adjacency (s ∷ steps) remove = ap suc (length-execution_adjacency steps remove)

pub execution_adjacency-InRange :
    (steps : List CompiledExecutionStep) (remove : Bool)
    → StepsFit (length steps) steps
    → InRange (execution_adjacency steps remove)
execution_adjacency-InRange steps remove fits a b edge =
    rw (length-execution_adjacency steps remove)
      (edges-below (length steps) remove steps a b fits edge)

-- Every node of the region, from a node on, can come back, and is no loop but the one it belongs to.
abbrev Returning : ℕ → List Bool → ℕ → List CompiledExecutionStep → List Bool → Type 0
Returning loop_index can_reach node rest region =
    (m j : ℕ)
    → m ≡ node + j
    → is_marked region j ≡ true
    → (is_marked can_reach m ≡ true)
      × ((s : CompiledExecutionStep)
          → get_elem? rest j ≡ some s
          → (m ≡ loop_index) ⊎ (is_loop s.instruction ≡ false))

Returning-more :
    (loop_index : ℕ) (can_reach : List Bool) (node : ℕ) (step : CompiledExecutionStep)
    (rest : List CompiledExecutionStep) (inside : Bool) (region : List Bool)
    → not inside || is_marked can_reach node ≡ true
    → not inside || node == loop_index || not (is_loop step.instruction) ≡ true
    → Returning loop_index can_reach (node + 1) rest region
    → Returning loop_index can_reach node (step ∷ rest) (inside ∷ region)
Returning-more loop_index can_reach node step rest inside region back flat later m zero e marked =
    let same : m ≡ node = omega (arith, e) in
    (
      rw same (ground (arith, back, marked)),
      λ s at. let equal : step ≡ s = cc at in rw (same, ← equal) (ground (arith, flat, marked)),
    )
Returning-more loop_index can_reach node step rest inside region back flat later m (suc j) e
      marked =
    later m j (omega (arith, e)) marked

check_region-Ensures :
    (loop_index : ℕ) (can_reach : List Bool) (node : ℕ) (rest : List CompiledExecutionStep)
    (region : List Bool)
    → length region ≡ length rest
    → Ensures
        (λ u. Returning loop_index can_reach node rest region)
        (check_region loop_index can_reach node rest region)
unfolding check_region
check_region-Ensures loop_index can_reach node [] [] size =
    returns (λ m j e marked. absurd (ground (arith, marked)))
check_region-Ensures loop_index can_reach node [] (b ∷ region) size = absurd (omega (arith, size))
check_region-Ensures loop_index can_reach node (step ∷ rest) [] size = absurd (omega (arith, size))
check_region-Ensures loop_index can_reach node (step ∷ rest) (inside ∷ region) size =
    checked (not inside || is_marked can_reach node) loop_escape _ refl (λ back.
      checked (not inside || node == loop_index || not (is_loop step.instruction)) nested_loop _
        refl
        (λ flat.
          weaken (check_region loop_index can_reach (node + 1) rest region)
            (check_region-Ensures loop_index can_reach (node + 1) rest region (omega (arith, size)))
            (λ u. Returning-more loop_index can_reach node step rest inside region back flat)))

-- The loop at an index of the plan: its body leads back to it, whatever can be reached from the body
-- without the loop leads back too and is no other loop, and its exit is outside.
pub record LoopClosed (steps : List CompiledExecutionStep) (loop_index body : ℕ) (exit : Option ℕ)
    : Type 0 where
  pub back : Reach (execution_adjacency steps true) body loop_index
  pub inside_back :
      (m : ℕ)
      → Avoiding (execution_adjacency steps true) loop_index body m
      → Reach (execution_adjacency steps true) m loop_index
  pub flat :
      (m : ℕ) (s : CompiledExecutionStep)
      → Avoiding (execution_adjacency steps true) loop_index body m
      → get_elem? steps m ≡ some s
      → (m ≡ loop_index) ⊎ (is_loop s.instruction ≡ false)
  pub outside :
      (e : ℕ)
      → exit ≡ some e
      → (e ≢ loop_index) × ¬ (Avoiding (execution_adjacency steps true) loop_index body e)

abbrev pub Closed : List CompiledExecutionStep → ℕ → Instruction → Type 0
Closed steps index (Instruction.loop body exit max_iterations) = LoopClosed steps index body exit
Closed steps index _ = Unit {0}

absent : (o : Option ℕ) → not (is_some o) ≡ true → o ≡ none
unfolding is_some
absent none h = refl
absent (some x) h = absurd (ground (arith, h))

outside-exit :
    (loop_index : ℕ) (region : List Bool) (exit : Option ℕ)
    → exit_outside loop_index region exit ≡ true
    → (e : ℕ) → exit ≡ some e
    → (e ≢ loop_index) × (is_marked region e ≡ false)
unfolding exit_outside
outside-exit loop_index region none h e at = cc at
outside-exit loop_index region (some x) h e at =
    let same : x ≡ e = cc at in rw (← same) (ground (arith, h), ground (arith, h))

module _ (steps : List CompiledExecutionStep) (fits : StepsFit (length steps) steps) where
  abbrev without_bodies : List (List ℕ)
  without_bodies = execution_adjacency steps true

  -- The two searches end, with the nodes that they look for.
  pub back_found :
      (target : ℕ)
      → target < length steps
      → Ensures
          (λ v. (m : ℕ) → Marked v m ↔ Reach without_bodies m target)
          (or_error unfinished (reverse_reachable target (execution_predecessors without_bodies)))
  back_found target inside =
      finished _ (reverse_reachable target (execution_predecessors without_bodies)) (
        reverse_reachable_correct without_bodies (execution_adjacency-InRange steps true fits)
          target (omega (arith, length-execution_adjacency steps true, inside)))

  pub region_found :
      (body stop : ℕ)
      → body < length steps
      → Ensures
          (λ v.
            (length v ≡ length without_bodies)
            × ((m : ℕ) → Marked v m ↔ Avoiding without_bodies stop body m))
          (or_error unfinished (forward_until body stop without_bodies))
  region_found body stop inside =
      let (v, e, size, exact) =
        forward_until_correct without_bodies body stop (execution_adjacency-InRange steps true fits)
          (omega (arith, length-execution_adjacency steps true, inside)) in
      finished _ (forward_until body stop without_bodies) (v, e, (size, exact))

  check_loop-Ensures :
      (index : ℕ) (i : Instruction)
      → index < length steps
      → InstructionFits (length steps) i
      → Ensures (λ r. Closed steps index i) (check_loop steps without_bodies index i)
  unfolding check_loop
  check_loop-Ensures index (Instruction.scenario s next) inside fit = returns _
  check_loop-Ensures index (Instruction.branch routes weight join) inside fit = returns _
  check_loop-Ensures index (Instruction.join next) inside fit = returns _
  check_loop-Ensures index (Instruction.loop body exit k) inside (body_inside, exit_fits) =
      let size = length-execution_adjacency steps true in
      after (or_error unfinished (reverse_reachable index (execution_predecessors without_bodies)))
        _ (back_found index inside)
        (λ can_reach reached. checked (is_marked can_reach body) loop_without_return _ refl (λ back.
          after (or_error unfinished (forward_until body index without_bodies)) _
            (region_found body index body_inside)
            (λ region (region_size, found).
              after (check_region index can_reach 0 steps region) _
                (check_region-Ensures index can_reach 0 steps region
                  (omega (arith, region_size, size)))
                (λ u returning.
                  checked (exit_outside index region exit) loop_exit_inside _ refl (λ outside.
                    returns (record {
                      back = (reached body).0 back;
                      inside_back = λ m path.
                          (reached m).0 (returning m m (omega arith) ((found m).1 path)).0;
                      flat = λ m s path at. (returning m m (omega arith) ((found m).1 path)).1 s at;
                      outside = λ e at.
                          let (differ, unmarked) = outside-exit index region exit outside e at in
                          (differ, λ path. cc ((found e).1 path, unmarked));
                    }))))))

  -- The steps from an index on.
  abbrev pub AllClosed : ℕ → List CompiledExecutionStep → Type 0
  AllClosed index [] = Unit {0}
  AllClosed index (s ∷ rest) = Closed steps index s.instruction × AllClosed (index + 1) rest

  check_loops-Ensures :
      (index : ℕ) (rest : List CompiledExecutionStep)
      → index + length rest ≡ length steps
      → StepsFit (length steps) rest
      → Ensures (λ r. AllClosed index rest) (check_loops steps without_bodies index rest)
  unfolding check_loops
  check_loops-Ensures index [] size fit = returns _
  check_loops-Ensures index (s ∷ rest) size (here_fits, rest_fits) =
      after (check_loop steps without_bodies index s.instruction) _
        (check_loop-Ensures index s.instruction (omega (arith, size)) here_fits)
        (λ here closed.
          after (check_loops steps without_bodies (index + 1) rest) _
            (check_loops-Ensures (index + 1) rest (omega (arith, size)) rest_fits)
            (λ later all. returns (closed, all)))

  pub validate_bounded_execution_loops-Ensures :
      Ensures
        (λ r. Ordered without_bodies × AllClosed 0 steps × (r.1 ≡ without_bodies))
        (validate_bounded_execution_loops steps)
  unfolding validate_bounded_execution_loops
  validate_bounded_execution_loops-Ensures =
      after (or_error unfinished (execution_cycle_node without_bodies)) _
        (finished (λ answer. answer ≡ none ↔ Ordered without_bodies)
          (execution_cycle_node without_bodies)
          (execution_cycle_node_correct without_bodies
            (execution_adjacency-InRange steps true fits)))
        (λ cycle exact. checked (not (is_some cycle)) unbounded_cycle _ refl (λ acyclic.
          after (check_loops steps without_bodies 0 steps) _
            (check_loops-Ensures 0 steps (omega arith) fits)
            (λ bodies closed. returns (exact.0 (absent cycle acyclic), closed, refl))))
