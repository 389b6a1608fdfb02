-- ===== src/Plan/Graph/Visit.antt =====
-- What the inner loop of a search does to the marks and the queue.
use flow_routine.Prelude.{
  ℕ, zero, suc, ◌+◌, ◌<◌, ◌≡◌, refl, ◌∙◌, ◌⊎◌, inl, inr, Bool, true, false, ◌&&◌, List, [], ◌∷◌,
  ◌++◌, arith, ltb, ◌==◌, if◌then◌else◌, Bool-cases, length, get_or, set, length-append, length-set,
}
use flow_routine.Plan.Graph.{visit_targets}
use flow_routine.Plan.Graph.Paths.{In, In-append, In-append_left, In-append_right}

abbrev pub Marked : List Bool → ℕ → Type 0
Marked visited n = get_or visited n false ≡ true

unfoldable pub unmarked : List Bool → ℕ
unmarked [] = 0
unmarked (b ∷ rest) = if b then unmarked rest else suc (unmarked rest)

pub get_or-mark :
    (v : List Bool) (i j : ℕ)
    → get_or (set v i true) j false
      ≡ (if i == j && ltb i (length v) then true else get_or v j false)
get_or-mark [] i j = ground arith
get_or-mark (b ∷ v) zero zero = ground arith
get_or-mark (b ∷ v) zero (suc j) = ground arith
get_or-mark (b ∷ v) (suc i) zero = ground arith
get_or-mark (b ∷ v) (suc i) (suc j) = ground (arith, get_or-mark v i j)

Marked-set : (v : List Bool) (i n : ℕ) → Marked v n → Marked (set v i true) n
Marked-set v i n h = ground (arith, get_or-mark v i n)

Marked-set_self : (v : List Bool) (i : ℕ) → i < length v → Marked (set v i true) i
Marked-set_self v i h = ground (arith, get_or-mark v i i)

Marked-set_inv : (v : List Bool) (i n : ℕ) → Marked (set v i true) n → Marked v n ⊎ (n ≡ i)
Marked-set_inv v i n h = ground (arith, get_or-mark v i n)

pub Marked-lt : (v : List Bool) (n : ℕ) → Marked v n → n < length v
Marked-lt [] n h = cc
Marked-lt (b ∷ v) zero h = omega arith
Marked-lt (b ∷ v) (suc n) h = omega (arith, Marked-lt v n h)

pub unmarked-set :
    (v : List Bool) (i : ℕ)
    → i < length v
    → get_or v i false ≡ false
    → suc (unmarked (set v i true)) ≡ unmarked v
unfolding unmarked
unmarked-set [] i h e = absurd (omega arith)
unmarked-set (b ∷ v) zero h e = ground arith
unmarked-set (b ∷ v) (suc i) h e = ground (arith, unmarked-set v i (omega arith) e)

-- Every target is a node that the marks cover.
abbrev pub AllBelow : ℕ → List ℕ → Type 0
AllBelow k [] = Unit {0}
AllBelow k (t ∷ rest) = (t < k) × AllBelow k rest

-- What holds between the marks and the queue before the loop over `ts` and after it.
pub record Visited (ts : List ℕ) (v : List Bool) (q : List ℕ) (v' : List Bool) (q' : List ℕ)
    : Type 0 where
  pub same_length : length v' ≡ length v
  pub kept : (n : ℕ) → Marked v n → Marked v' n
  pub marked : (n : ℕ) → In n ts → Marked v' n
  pub only : (n : ℕ) → Marked v' n → Marked v n ⊎ In n ts × In n q'
  pub queued : (n : ℕ) → In n q → In n q'
  pub from : (n : ℕ) → In n q' → In n q ⊎ In n ts
  pub paid : unmarked v' + length q' ≡ unmarked v + length q

module _ (t : ℕ) (ts : List ℕ) (v : List Bool) (q : List ℕ) {v' : List Bool} {q' : List ℕ} where
  seen-Visited : Marked v t → Visited ts v q v' q' → Visited (t ∷ ts) v q v' q'
  seen-Visited e r = record {
    same_length = r.same_length;
    kept = r.kept;
    marked = λ n i. elim i [ inl same ↦ r.kept n (rw same e) | inr i' ↦ r.marked n i' ];
    only = λ n m. elim (r.only n m) [ inl old ↦ inl old | inr (i, k) ↦ inr (inr i, k) ];
    queued = r.queued;
    from = λ n i. elim (r.from n i) [ inl old ↦ inl old | inr k ↦ inr (inr k) ];
    paid = r.paid;
  }

  fresh-Visited :
      get_or v t false ≡ false
      → t < length v
      → Visited ts (set v t true) (q ++ t ∷ []) v' q'
      → Visited (t ∷ ts) v q v' q'
  fresh-Visited e h r = record {
    same_length = r.same_length ∙ length-set v t true;
    kept = λ n m. r.kept n (Marked-set v t n m);
    marked = λ n i. elim i [
      | inl same ↦ r.kept n (rw same (Marked-set_self v t h))
      | inr i' ↦ r.marked n i'
    ];
    only = λ n m. elim (r.only n m) [
      | inr (i, k) ↦ inr (inr i, k)
      | inl old ↦ elim (Marked-set_inv v t n old) [
        | inl before ↦ inl before
        | inr same ↦ inr (inl same, r.queued n (In-append_right n q (t ∷ []) (inl same)))
      ]
    ];
    queued = λ n i. r.queued n (In-append_left n q (t ∷ []) i);
    from = λ n i. elim (r.from n i) [
      | inr k ↦ inr (inr k)
      | inl k ↦ elim (In-append n q (t ∷ []) k) [
        | inl old ↦ inl old
        | inr (inl same) ↦ inr (inl same)
        | inr (inr no_more) ↦ absurd no_more
      ]
    ];
    paid = omega (arith, r.paid, unmarked-set v t h e, length-append q (t ∷ []));
  }

pub visit_targets-Visited :
    (ts : List ℕ) (v : List Bool) (q : List ℕ)
    → AllBelow (length v) ts
    → Visited ts v q (visit_targets ts v q).0 (visit_targets ts v q).1
unfolding visit_targets
visit_targets-Visited [] v q h = record {
  same_length = refl;
  kept = λ n m. m;
  marked = λ n i. absurd i;
  only = λ n m. inl m;
  queued = λ n i. i;
  from = λ n i. inl i;
  paid = refl;
}
visit_targets-Visited (t ∷ ts) v q h = elim (Bool-cases (get_or v t false)) [
  | inl e ↦ rw e (seen-Visited t ts v q e (visit_targets-Visited ts v q h.1))
  | inr e ↦ rw e (
      fresh-Visited t ts v q e h.0
        (visit_targets-Visited ts (set v t true) (q ++ t ∷ []) (rw (length-set v t true) h.1)))
]
