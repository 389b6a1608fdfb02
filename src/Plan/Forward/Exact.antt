-- ===== src/Plan/Forward/Exact.antt =====
-- internal/engine/execution_plan.go: the marks that `forwardUntil` leaves.
use flow_routine.Prelude.{
  ℕ, zero, suc, ◌+◌, ◌<◌, ◌≡◌, refl, sym, ◌∙◌, subst, ◌≢◌, ◌↔◌, ◌⊎◌, inl, inr, Bool, true, false,
  some, List, [], ◌∷◌, ◌++◌, arith, ◌==◌, if◌then◌else◌, ==_iff, Bool-cases, length, get_or, set,
  replicate, length-append, length-set, length-replicate, get_or-set,
}
use flow_routine.Plan.Graph.{targets_of}
use flow_routine.Plan.Graph.Paths.{
  In, Edge, InRange, Avoiding, start, onward, In-append, In-append_left, In-append_right,
}
use flow_routine.Plan.Graph.Visit.{Marked}
use flow_routine.Plan.Forward.{forward_loop, edge_count, forward_until}

-- The edges from nodes that are not marked.
open_edges : List Bool → List (List ℕ) → ℕ
open_edges [] adjacency = 0
open_edges (b ∷ v) [] = 0
open_edges (b ∷ v) (ts ∷ adjacency) = (if b then 0 else length ts) + open_edges v adjacency

open_edges-set :
    (v : List Bool) (adjacency : List (List ℕ)) (c : ℕ)
    → length v ≡ length adjacency
    → c < length v
    → get_or v c false ≡ false
    → open_edges (set v c true) adjacency + length (targets_of adjacency c) ≡ open_edges v adjacency
unfolding open_edges
open_edges-set [] adjacency c size h e = absurd (omega (arith, h))
open_edges-set (b ∷ v) [] c size h e = absurd (omega (arith, size))
open_edges-set (b ∷ v) (ts ∷ adjacency) zero size h e = ground arith
open_edges-set (b ∷ v) (ts ∷ adjacency) (suc c) size h e =
    omega (arith, open_edges-set v adjacency c (omega (arith, size)) (omega (arith, h)) e)

open_edges-start :
    (adjacency : List (List ℕ))
    → open_edges (replicate (length adjacency) false) adjacency ≡ edge_count adjacency
unfolding open_edges edge_count
open_edges-start [] = refl
open_edges-start (ts ∷ adjacency) = omega (arith, open_edges-start adjacency)

unmarked-replicate : (n m : ℕ) → get_or (replicate n false) m false ≡ false
unmarked-replicate zero m = refl
unmarked-replicate (suc n) zero = refl
unmarked-replicate (suc n) (suc m) = unmarked-replicate n m

module _ (adjacency : List (List ℕ)) (entry stop : ℕ) (range : InRange adjacency)
    (inside : entry < length adjacency) where
  abbrev Avoids : ℕ → Type 0
  Avoids = Avoiding adjacency stop entry

  -- A node that the search must find is marked or still in the queue.
  abbrev Due : List Bool → List ℕ → ℕ → Type 0
  Due v q m = (m ≡ stop) ⊎ Marked v m ⊎ In m q

  record Searching (v : List Bool) (q : List ℕ) : Type 0 where
    size : length v ≡ length adjacency
    sound : (m : ℕ) → Marked v m → Avoids m
    queued : (m : ℕ) → In m q → (m < length adjacency) × ((m ≡ stop) ⊎ Avoids m)
    closed : (b : ℕ) → Marked v b → (c : ℕ) → Edge adjacency b c → Due v q c
    entered : Due v q entry

  -- The node at the front is done with.
  Due-skip :
      (v : List Bool) (current : ℕ) (q : List ℕ)
      → (current ≡ stop) ⊎ Marked v current
      → (m : ℕ) → Due v (current ∷ q) m
      → Due v q m
  Due-skip v current q done m (inl e) = inl e
  Due-skip v current q done m (inr (inl h)) = inr (inl h)
  Due-skip v current q done m (inr (inr (inl e))) = elim done [
    | inl at ↦ inl (e ∙ at)
    | inr h ↦ inr (inl (rw e h))
  ]
  Due-skip v current q done m (inr (inr (inr i))) = inr (inr i)

  skip-Searching :
      (v : List Bool) (current : ℕ) (q : List ℕ)
      → (current ≡ stop) ⊎ Marked v current
      → Searching v (current ∷ q)
      → Searching v q
  skip-Searching v current q done s = record {
    size = s.size;
    sound = s.sound;
    queued = λ m i. s.queued m (inr i);
    closed = λ b h c e. Due-skip v current q done c (s.closed b h c e);
    entered = Due-skip v current q done entry s.entered;
  }

  module _ (v : List Bool) (current : ℕ) (q : List ℕ) (other : current ≢ stop)
      (s : Searching v (current ∷ q)) where
    current_inside : current < length adjacency
    current_inside = (s.queued current (inl refl)).0

    current-Avoids : Avoids current
    current-Avoids = elim ((s.queued current (inl refl)).1) [
      | inl at ↦ absurd (other at)
      | inr path ↦ path
    ]

    Marked-set :
        (m : ℕ)
        → get_or (set v current true) m false ≡ (if current == m then true else get_or v m false)
    Marked-set m = get_or-set v current m true false (omega (arith, s.size, current_inside))

    Due-mark :
        (m : ℕ)
        → Due v (current ∷ q) m
        → Due (set v current true) (q ++ targets_of adjacency current) m
    Due-mark m (inl e) = inl e
    Due-mark m (inr (inl h)) = inr (inl (Marked-set m ∙ ground (arith, h)))
    Due-mark m (inr (inr (inl e))) = inr (inl (Marked-set m ∙ ground (arith, e)))
    Due-mark m (inr (inr (inr i))) = inr (inr (In-append_left m q (targets_of adjacency current) i))

    mark-Searching : Searching (set v current true) (q ++ targets_of adjacency current)
    mark-Searching = record {
      size = length-set v current true ∙ s.size;
      sound = λ m h. elim (Bool-cases (current == m)) [
        | inl at ↦ subst Avoids ((==_iff current m).0 at) current-Avoids
        | inr differ ↦ s.sound m (ground (arith, Marked-set m, h, differ))
      ];
      queued = λ m i. elim (In-append m q (targets_of adjacency current) i) [
        | inl before ↦ s.queued m (inr before)
        | inr edge ↦ (
          range current m edge,
          elim (Bool-cases (m == stop)) [
            | inl at ↦ inl ((==_iff m stop).0 at)
            | inr differ ↦ inr (onward current-Avoids edge (ground (arith, differ)))
          ],
        )
      ];
      closed = λ b h c e. elim (Bool-cases (current == b)) [
        | inl at ↦
            let same : current ≡ b = (==_iff current b).0 at in
            inr (
              inr (
                In-append_right c q (targets_of adjacency current)
                  (subst (λ k. In c (targets_of adjacency k)) (sym same) e)))
        | inr differ ↦ Due-mark c (s.closed b (ground (arith, Marked-set b, h, differ)) c e)
      ];
      entered = Due-mark entry s.entered;
    }

  record Found (v : List Bool) : Type 0 where
    size : length v ≡ length adjacency
    exact : (m : ℕ) → Marked v m ↔ Avoids m

  empty-Found : (v : List Bool) → Searching v [] → Found v
  empty-Found v s = record { size = s.size; exact = λ m. (s.sound m, reached) }
    where
      settle : (m : ℕ) → m ≢ stop → Due v [] m → Marked v m
      settle m differ (inl at) = absurd (differ at)
      settle m differ (inr (inl h)) = h
      settle m differ (inr (inr i)) = absurd i

      reached : {m : ℕ} → Avoids m → Marked v m
      reached (start differ) = settle entry differ s.entered
      reached (onward {b} {c} path edge differ) = settle c differ (s.closed b (reached path) c edge)

  forward_loop-Found :
      (fuel : ℕ) (v : List Bool) (q : List ℕ)
      → length q + open_edges v adjacency < fuel
      → Searching v q
      → (final : List Bool) × (forward_loop fuel stop adjacency v q ≡ some final) × Found final
  unfolding forward_loop
  forward_loop-Found zero v q h s = absurd (omega (arith, h))
  forward_loop-Found (suc fuel) v [] h s = (v, refl, empty-Found v s)
  forward_loop-Found (suc fuel) v (current ∷ q) h s = elim (Bool-cases (current == stop)) [
    | inl at ↦ rw at (
        forward_loop-Found fuel v q (omega (arith, h))
          (skip-Searching v current q (inl ((==_iff current stop).0 at)) s))
    | inr differ ↦ elim (Bool-cases (get_or v current false)) [
      | inl marked ↦ rw differ (
          rw marked (
            forward_loop-Found fuel v q (omega (arith, h))
              (skip-Searching v current q (inr marked) s)))
      | inr fresh ↦
          let other : current ≢ stop = ground (arith, differ) in
          let next = mark-Searching v current q other s in
          let fewer =
            open_edges-set v adjacency current s.size
              (omega (arith, s.size, current_inside v current q other s)) fresh in
          rw differ (
            rw fresh (
              forward_loop-Found fuel (set v current true) (q ++ targets_of adjacency current)
                (omega (arith, h, fewer, length-append q (targets_of adjacency current))) next))
    ]
  ]

-- On a graph whose targets are in range the search ends, and marks exactly the nodes that can be
-- reached from its entry by a path without the node that it stops at.
pub forward_until_correct :
    (adjacency : List (List ℕ)) (entry stop : ℕ)
    → InRange adjacency
    → entry < length adjacency
    → (v : List Bool) × (forward_until entry stop adjacency ≡ some v)
      × (length v ≡ length adjacency)
      × ((m : ℕ) → Marked v m ↔ Avoiding adjacency stop entry m)
unfolding forward_until
forward_until_correct adjacency entry stop range inside =
    let blank = replicate (length adjacency) false in
    let none_marked = unmarked-replicate (length adjacency) in
    let begin : Searching adjacency entry stop range inside blank (entry ∷ []) = record {
      size = length-replicate (length adjacency) false;
      sound = λ m h. cc (h, none_marked m);
      queued = λ m i. elim i [
        | inl e ↦ (
          rw e inside,
          elim (Bool-cases (entry == stop)) [
            | inl at ↦ inl (e ∙ (==_iff entry stop).0 at)
            | inr differ ↦
                inr (subst (Avoiding adjacency stop entry) (sym e) (start (ground (arith, differ))))
          ],
        )
        | inr nothing ↦ absurd nothing
      ];
      closed = λ b h c e. cc (h, none_marked b);
      entered = inr (inr (inl refl));
    } in
    let (v, e, found) =
      forward_loop-Found adjacency entry stop range inside (edge_count adjacency + 2) blank
        (entry ∷ []) (omega (arith, open_edges-start adjacency)) begin in
    (v, e, found.size, found.exact)
