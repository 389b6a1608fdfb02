-- ===== src/Plan/Graph/Predecessors.antt =====
-- `executionPredecessors` turns every edge round.
use flow_routine.Prelude.{
  ℕ, zero, suc, ◌+◌, ◌<◌, ◌≡◌, refl, ◌∙◌, subst, ◌≢◌, ◌↔◌, ◌⊎◌, inl, inr, List, [], ◌∷◌, ◌++◌,
  arith, length, get_or, replicate, length-set, length-replicate, get_or-set,
}
use flow_routine.Plan.Graph.{
  targets_of, push_at, add_predecessors, collect_predecessors, execution_predecessors,
}
use native.Mathlib.Decide.{ℕ_discrete}
use flow_routine.Plan.Graph.Paths.{In, Edge, InRange, In-append, In-append_left, In-append_right}
use flow_routine.Plan.Graph.Visit.{AllBelow}
use flow_routine.Plan.Graph.Search.{AllBelow-of}

length-push_at : (p : List (List ℕ)) (i v : ℕ) → length (push_at p i v) ≡ length p
unfolding push_at
length-push_at p i v = length-set p i (get_or p i [] ++ v ∷ [])

module _ (p : List (List ℕ)) (i v : ℕ) (inside : i < length p) where
  targets_of-push_self : (b : ℕ) → b ≡ i → targets_of (push_at p i v) b ≡ targets_of p b ++ v ∷ []
  unfolding push_at
  targets_of-push_self b e = ground (arith, get_or-set p i b (get_or p i [] ++ v ∷ []) [])

  targets_of-push_ne : (b : ℕ) → b ≢ i → targets_of (push_at p i v) b ≡ targets_of p b
  unfolding push_at
  targets_of-push_ne b e = ground (arith, get_or-set p i b (get_or p i [] ++ v ∷ []) [])

  push_at_sound :
      (a b : ℕ) → In a (targets_of (push_at p i v) b) → In a (targets_of p b) ⊎ (a ≡ v) × (b ≡ i)
  push_at_sound a b m = elim (ℕ_discrete b i) [
    | no ne ↦ inl (rw (targets_of-push_ne b ne) at m)
    | yes same ↦
        elim (In-append a (targets_of p b) (v ∷ []) (rw (targets_of-push_self b same) at m)) [
          | inl old ↦ inl old
          | inr (inl e) ↦ inr (e, same)
          | inr (inr no_more) ↦ absurd no_more
        ]
  ]

  push_at_complete :
      (a b : ℕ) → In a (targets_of p b) ⊎ (a ≡ v) × (b ≡ i) → In a (targets_of (push_at p i v) b)
  push_at_complete a b m = elim (ℕ_discrete b i) [
    | no ne ↦ rw (targets_of-push_ne b ne) (elim m [ inl old ↦ old | inr (_, e) ↦ absurd (ne e) ])
    | yes same ↦ rw (targets_of-push_self b same) (elim m [
      | inl old ↦ In-append_left a (targets_of p b) (v ∷ []) old
      | inr (e, _) ↦ In-append_right a (targets_of p b) (v ∷ []) (inl e)
    ])
  ]

-- The lists from `source` on: `a` is the number of one that has `b`.
FromIn : ℕ → List (List ℕ) → ℕ → ℕ → Type 0
FromIn source lists a b = (k : ℕ) × (a ≡ source + k) × In b (get_or lists k [])

length-add_predecessors :
    (source : ℕ) (ts : List ℕ) (p : List (List ℕ))
    → length (add_predecessors source ts p) ≡ length p
unfolding add_predecessors
length-add_predecessors source [] p = refl
length-add_predecessors source (t ∷ ts) p =
    length-add_predecessors source ts (push_at p t source) ∙ length-push_at p t source

add_predecessors_sound :
    (source : ℕ) (ts : List ℕ) (p : List (List ℕ)) (a b : ℕ)
    → AllBelow (length p) ts
    → In a (targets_of (add_predecessors source ts p) b)
    → In a (targets_of p b) ⊎ (a ≡ source) × In b ts
unfolding add_predecessors
add_predecessors_sound source [] p a b h m = inl m
add_predecessors_sound source (t ∷ ts) p a b h m =
    elim (add_predecessors_sound source ts (push_at p t source) a b
      (rw (length-push_at p t source) h.1) m) [
        | inr (e, i) ↦ inr (e, inr i)
        | inl before ↦ elim (push_at_sound p t source h.0 a b before) [
          | inl old ↦ inl old
          | inr (e, same) ↦ inr (e, inl same)
        ]
      ]

add_predecessors_complete :
    (source : ℕ) (ts : List ℕ) (p : List (List ℕ)) (a b : ℕ)
    → AllBelow (length p) ts
    → In a (targets_of p b) ⊎ (a ≡ source) × In b ts
    → In a (targets_of (add_predecessors source ts p) b)
unfolding add_predecessors
add_predecessors_complete source [] p a b h (inl old) = old
add_predecessors_complete source [] p a b h (inr (e, i)) = absurd i
add_predecessors_complete source (t ∷ ts) p a b h m =
    add_predecessors_complete source ts (push_at p t source) a b
      (rw (length-push_at p t source) h.1)
      (elim m [
        | inl old ↦ inl (push_at_complete p t source h.0 a b (inl old))
        | inr (e, inl same) ↦ inl (push_at_complete p t source h.0 a b (inr (e, same)))
        | inr (e, inr i) ↦ inr (e, i)
      ])

AllLists : ℕ → List (List ℕ) → Type 0
AllLists k [] = Unit {0}
AllLists k (ts ∷ rest) = AllBelow k ts × AllLists k rest

collect_predecessors_sound :
    (source : ℕ) (lists p : List (List ℕ)) (a b : ℕ)
    → AllLists (length p) lists
    → In a (targets_of (collect_predecessors source lists p) b)
    → In a (targets_of p b) ⊎ FromIn source lists a b
unfolding collect_predecessors AllLists FromIn
collect_predecessors_sound source [] p a b h m = inl m
collect_predecessors_sound source (ts ∷ lists) p a b h m =
    elim (collect_predecessors_sound (source + 1) lists (add_predecessors source ts p) a b
      (rw (length-add_predecessors source ts p) h.1) m) [
        | inr (k, e, i) ↦ inr (suc k, omega (arith, e), i)
        | inl before ↦ elim (add_predecessors_sound source ts p a b h.0 before) [
          | inl old ↦ inl old
          | inr (e, i) ↦ inr (0, omega (arith, e), i)
        ]
      ]

collect_predecessors_complete :
    (source : ℕ) (lists p : List (List ℕ)) (a b : ℕ)
    → AllLists (length p) lists
    → In a (targets_of p b) ⊎ FromIn source lists a b
    → In a (targets_of (collect_predecessors source lists p) b)
unfolding collect_predecessors AllLists FromIn
collect_predecessors_complete source [] p a b h (inl old) = old
collect_predecessors_complete source [] p a b h (inr (k, e, i)) = absurd i
collect_predecessors_complete source (ts ∷ lists) p a b h m =
    collect_predecessors_complete (source + 1) lists (add_predecessors source ts p) a b
      (rw (length-add_predecessors source ts p) h.1) (later m)
  where
    later :
        In a (targets_of p b) ⊎ FromIn source (ts ∷ lists) a b
        → In a (targets_of (add_predecessors source ts p) b) ⊎ FromIn (source + 1) lists a b
    later (inl old) = inl (add_predecessors_complete source ts p a b h.0 (inl old))
    later (inr (zero, e, i)) =
        inl (add_predecessors_complete source ts p a b h.0 (inr (omega (arith, e), i)))
    later (inr (suc k, e, i)) = inr (k, omega (arith, e), i)

AllLists-of :
    (k : ℕ) (lists : List (List ℕ))
    → ((a b : ℕ) → In b (get_or lists a []) → b < k)
    → AllLists k lists
unfolding AllLists
AllLists-of k [] h = tt
AllLists-of k (ts ∷ lists) h = (AllBelow-of k ts (h 0), AllLists-of k lists (λ a. h (suc a)))

get_or-replicate_nil : (k n : ℕ) → get_or (replicate {A = List ℕ} k []) n [] ≡ []
get_or-replicate_nil zero n = refl
get_or-replicate_nil (suc k) zero = refl
get_or-replicate_nil (suc k) (suc n) = get_or-replicate_nil k n

length-collect_predecessors :
    (source : ℕ) (lists p : List (List ℕ)) → length (collect_predecessors source lists p) ≡ length p
unfolding collect_predecessors
length-collect_predecessors source [] p = refl
length-collect_predecessors source (ts ∷ lists) p =
    length-collect_predecessors (source + 1) lists (add_predecessors source ts p)
    ∙ length-add_predecessors source ts p

pub length-execution_predecessors :
    (adjacency : List (List ℕ)) → length (execution_predecessors adjacency) ≡ length adjacency
unfolding execution_predecessors
length-execution_predecessors adjacency =
    length-collect_predecessors 0 adjacency (replicate (length adjacency) [])
    ∙ length-replicate (length adjacency) []

-- Each edge is listed under its target, and nothing else is.
pub Edge-execution_predecessors :
    (adjacency : List (List ℕ)) (a b : ℕ)
    → InRange adjacency
    → Edge (execution_predecessors adjacency) b a ↔ Edge adjacency a b
unfolding execution_predecessors FromIn
Edge-execution_predecessors adjacency a b range = (to, back)
  where
    empty : List (List ℕ)
    empty = replicate (length adjacency) []

    all : AllLists (length empty) adjacency
    all =
        AllLists-of (length empty) adjacency
          (λ a b i. rw (length-replicate {A = List ℕ} (length adjacency) []) (range a b i))

    to : In a (targets_of (collect_predecessors 0 adjacency empty) b) → Edge adjacency a b
    to m = elim (collect_predecessors_sound 0 adjacency empty a b all m) [
      | inl old ↦ absurd (rw (get_or-replicate_nil (length adjacency) b) at old)
      | inr (k, e, i) ↦ subst (λ n. Edge adjacency n b) (omega (arith, e)) i
    ]

    back : Edge adjacency a b → In a (targets_of (collect_predecessors 0 adjacency empty) b)
    back i = collect_predecessors_complete 0 adjacency empty a b all (inr (a, omega arith, i))
