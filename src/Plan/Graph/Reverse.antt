-- ===== src/Plan/Graph/Reverse.antt =====
-- `reverseReachable` over the predecessors finds what reaches its target.
use flow_routine.Prelude.{
  ℕ, zero, suc, ◌<◌, ◌≡◌, ◌↔◌, Bool, some, List, [], ◌∷◌, arith, length, get_or,
}
use flow_routine.Plan.Graph.{execution_predecessors, reverse_reachable}
use flow_routine.Plan.Graph.Paths.{In, Edge, Reach, here, step, InRange}
use flow_routine.Plan.Graph.Visit.{Marked}
use flow_routine.Plan.Graph.Search.{search_from_correct}
use flow_routine.Plan.Graph.Predecessors.{
  length-execution_predecessors, Edge-execution_predecessors,
}

Reach-cons :
    {adjacency : List (List ℕ)} {a b c : ℕ}
    → Edge adjacency a b
    → Reach adjacency b c
    → Reach adjacency a c
Reach-cons e here = step here e
Reach-cons e (step r e') = step (Reach-cons e r) e'

get_or-lt : (lists : List (List ℕ)) (a b : ℕ) → In b (get_or lists a []) → a < length lists
get_or-lt [] a b i = absurd i
get_or-lt (ts ∷ lists) zero b i = omega arith
get_or-lt (ts ∷ lists) (suc a) b i = omega (arith, get_or-lt lists a b i)

module _ (adjacency : List (List ℕ)) (range : InRange adjacency) where
  Reach-reverse : {a b : ℕ} → Reach (execution_predecessors adjacency) a b → Reach adjacency b a
  Reach-reverse here = here
  Reach-reverse (step {b} {c} r e) =
      Reach-cons ((Edge-execution_predecessors adjacency c b range).0 e) (Reach-reverse r)

  Reach-reverse_back :
      {b a : ℕ} → Reach adjacency b a → Reach (execution_predecessors adjacency) a b
  Reach-reverse_back here = here
  Reach-reverse_back (step {b} {c} r e) =
      Reach-cons ((Edge-execution_predecessors adjacency b c range).1 e) (Reach-reverse_back r)

  source-lt : (a b : ℕ) → Edge adjacency a b → a < length adjacency
  source-lt a b e = get_or-lt adjacency a b e

  -- `reverseReachable` over the predecessors ends, and marks exactly the steps with a path to `target`.
  pub reverse_reachable_correct :
      (target : ℕ)
      → target < length adjacency
      → (v : List Bool) × (reverse_reachable target (execution_predecessors adjacency) ≡ some v)
        × ((n : ℕ) → Marked v n ↔ Reach adjacency n target)
  unfolding reverse_reachable
  reverse_reachable_correct target inside =
      let size = length-execution_predecessors adjacency in
      let (v, e, _, exact) =
        search_from_correct (execution_predecessors adjacency) target
          (λ a b i. rw size (source-lt b a ((Edge-execution_predecessors adjacency b a range).0 i)))
          (rw size inside) in
      (v, e, λ n. (λ m. Reach-reverse ((exact n).0 m), λ r. (exact n).1 (Reach-reverse_back r)))
