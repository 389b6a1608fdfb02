-- ===== src/Plan/Graph/Paths.antt =====
-- Paths in a graph of adjacency lists.
use flow_routine.Prelude.{ℕ, ◌<◌, ◌≡◌, ◌≢◌, ◌⊎◌, inl, inr, List, [], ◌∷◌, ◌++◌, length}
use flow_routine.Plan.Graph.{targets_of}

abbrev pub In : ℕ → List ℕ → Type 0
In n [] = ⊥
In n (m ∷ rest) = (n ≡ m) ⊎ In n rest

abbrev pub Edge : List (List ℕ) → ℕ → ℕ → Type 0
Edge adjacency a b = In b (targets_of adjacency a)

-- `b` can be reached from `a`.
pub data Reach (adjacency : List (List ℕ)) (a : ℕ) : ℕ → Type 0 where
  here : Reach adjacency a a
  step : {b c : ℕ} → Reach adjacency a b → Edge adjacency b c → Reach adjacency a c

-- Every edge leads to a node of the graph.
abbrev pub InRange : List (List ℕ) → Type 0
InRange adjacency = (a b : ℕ) → Edge adjacency a b → b < length adjacency

pub In-append : (n : ℕ) (xs ys : List ℕ) → In n (xs ++ ys) → In n xs ⊎ In n ys
In-append n [] ys h = inr h
In-append n (x ∷ xs) ys (inl e) = inl (inl e)
In-append n (x ∷ xs) ys (inr h) = elim (In-append n xs ys h) [ inl l ↦ inl (inr l) | inr r ↦ inr r ]

pub In-append_left : (n : ℕ) (xs ys : List ℕ) → In n xs → In n (xs ++ ys)
In-append_left n [] ys h = absurd h
In-append_left n (x ∷ xs) ys (inl e) = inl e
In-append_left n (x ∷ xs) ys (inr h) = inr (In-append_left n xs ys h)

pub In-append_right : (n : ℕ) (xs ys : List ℕ) → In n ys → In n (xs ++ ys)
In-append_right n [] ys h = h
In-append_right n (x ∷ xs) ys h = inr (In-append_right n xs ys h)

-- A path from `a` to `b` that meets no `stop`, not at its ends either.
pub data Avoiding (adjacency : List (List ℕ)) (stop a : ℕ) : ℕ → Type 0 where
  start : a ≢ stop → Avoiding adjacency stop a a
  onward :
      {b c : ℕ}
      → Avoiding adjacency stop a b
      → Edge adjacency b c
      → c ≢ stop
      → Avoiding adjacency stop a c
