-- ===== src/Plan/Dominators/Rounds.antt =====
-- internal/engine/execution_plan.go: one round of `executionDominators` and the bits that it clears.
use flow_routine.Prelude.{
  ℕ, zero, suc, ◌+◌, ◌≤◌, ◌<◌, ◌≡◌, refl, sym, ap, ◌∙◌, subst, ◌≢◌, inl, inr, Bool, true, false,
  List, [], ◌∷◌, arith, ltb, ◌==◌, if◌then◌else◌, ltb→lt, ==_iff, Bool-cases, length, set,
  length-set, get_or-set,
}
use flow_routine.Plan.Graph.{targets_of}
use flow_routine.Plan.Graph.Paths.{In}
use flow_routine.Plan.Graph.Visit.{AllBelow}
use flow_routine.Plan.Dominators.{
  Row, has_execution_bit, equal_execution_bits, row_of, row_bits, next_row,
}
use flow_routine.Plan.Dominators.Rows.{ones, ones-lt, all_have, Wide, length-next_row, bit-next_row}

unfoldable pub total_ones : List Row → ℕ
total_ones [] = 0
total_ones (row ∷ rest) = ones row + total_ones rest

total_ones-set :
    (rows : List Row) (m : ℕ) (row : Row)
    → m < length rows
    → total_ones (set rows m row) + ones (row_of rows m) ≡ total_ones rows + ones row
unfolding total_ones
total_ones-set [] m row h = absurd (omega (arith, h))
total_ones-set (x ∷ rows) zero row h = omega arith
total_ones-set (x ∷ rows) (suc m) row h =
    omega (arith, total_ones-set rows m row (omega (arith, h)))

-- A bit past the end of a row is not set.
bit-past : (row : Row) (i : ℕ) → length row ≤ i → has_execution_bit row i ≡ false
bit-past [] i h = refl
bit-past (b ∷ row) zero h = absurd (omega (arith, h))
bit-past (b ∷ row) (suc i) h = bit-past row i (omega (arith, h))

pub In-below : (n p : ℕ) (ps : List ℕ) → AllBelow n ps → In p ps → p < n
In-below n p [] below i = absurd i
In-below n p (x ∷ rest) (inside, below) (inl e) = rw e inside
In-below n p (x ∷ rest) (inside, below) (inr i) = In-below n p rest below i

-- A node among them lacks the bit.
some_lacks :
    (dominators : List Row) (d : ℕ) (ps : List ℕ)
    → all_have dominators d ps ≡ false
    → (p : ℕ) × In p ps × (has_execution_bit (row_of dominators p) d ≡ false)
some_lacks dominators d [] h = cc
some_lacks dominators d (p ∷ rest) h =
    elim (Bool-cases (has_execution_bit (row_of dominators p) d)) [
      | inl has ↦
          let (q, i, lacks) = some_lacks dominators d rest (rw has at h) in (q, inr i, lacks)
      | inr lacks ↦ (p, inl refl, lacks)
    ]

all_have-grows :
    (n d : ℕ) (new old : List Row)
    → ((q : ℕ)
        → q < n
        → has_execution_bit (row_of new q) d ≡ true
        → has_execution_bit (row_of old q) d ≡ true)
    → (ps : List ℕ) → AllBelow n ps
    → all_have new d ps ≡ true
    → all_have old d ps ≡ true
all_have-grows n d new old h [] below e = refl
all_have-grows n d new old h (p ∷ rest) (inside, below) e =
    let here = h p inside in
    let later = all_have-grows n d new old h rest below in ground (arith, here, later)

-- `P d m` is what is to hold of a node m whose row has lost the bit d.
module _ (predecessors : List (List ℕ)) (entry : ℕ) (P : ℕ → ℕ → Type 0)
    (range : (m : ℕ) → AllBelow (length predecessors) (targets_of predecessors m))
    (closed : (m d : ℕ)
      → m ≢ d
      → m ≢ entry
      → (p : ℕ) → In p (targets_of predecessors m)
      → P d p
      → P d m) where
  abbrev pub n_of : ℕ
  n_of = length predecessors

  abbrev pub width_of : ℕ
  width_of = row_bits n_of

  -- The bit that a node should have by the rows of its predecessors.
  abbrev pub node_bit : List Row → ℕ → ℕ → Bool
  node_bit dominators m d =
      if m == d then true else all_have dominators d (targets_of predecessors m)

  pub record Inv (dominators : List Row) : Type 0 where
    pub size : length dominators ≡ n_of
    pub wide : Wide n_of width_of dominators
    pub descends :
        (m d : ℕ)
        → m < n_of
        → d < width_of
        → m ≢ entry
        → node_bit dominators m d ≡ true
        → has_execution_bit (row_of dominators m) d ≡ true
    pub lost :
        (m d : ℕ)
        → m < n_of
        → d < width_of
        → has_execution_bit (row_of dominators m) d ≡ false
        → P d m
    -- The entry has its own bit only.
    pub own :
        (d : ℕ)
        → entry < n_of
        → d < width_of
        → has_execution_bit (row_of dominators entry) d ≡ (entry == d)

  -- The row of m, which has a predecessor, is replaced by its next one.
  module _ (dominators : List Row) (v : Inv dominators) (m : ℕ) (inside : m < n_of)
      (not_entry : m ≢ entry) (first : ℕ) (rest : List ℕ)
      (preds : targets_of predecessors m ≡ first ∷ rest) where
    abbrev pub new_row : Row
    new_row = next_row dominators m first rest

    abbrev pub updated_rows : List Row
    updated_rows = set dominators m new_row

    preds_below : AllBelow n_of (first ∷ rest)
    preds_below = subst (AllBelow n_of) preds (range m)

    pub new_row-length : length new_row ≡ width_of
    new_row-length =
        length-next_row n_of width_of dominators v.wide m first rest preds_below.0 preds_below.1

    pub new_row-bit : (d : ℕ) → has_execution_bit new_row d ≡ node_bit dominators m d
    new_row-bit d =
        bit-next_row n_of width_of dominators v.wide m first rest d (omega (arith, inside))
          preds_below.0 preds_below.1
        ∙ ap (λ ps. if m == d then true else all_have dominators d ps) (sym preds)

    updated_rows-row :
        (q : ℕ) → row_of updated_rows q ≡ (if m == q then new_row else row_of dominators q)
    updated_rows-row q = get_or-set dominators m q new_row [] (omega (arith, inside, v.size))

    updated_rows-row_same : row_of updated_rows m ≡ new_row
    updated_rows-row_same = updated_rows-row m ∙ ground arith

    updated_rows-row_other : (q : ℕ) → m ≢ q → row_of updated_rows q ≡ row_of dominators q
    updated_rows-row_other q h = updated_rows-row q ∙ ground arith

    updated_rows-below :
        (q d : ℕ)
        → q < n_of
        → d < width_of
        → has_execution_bit (row_of updated_rows q) d ≡ true
        → has_execution_bit (row_of dominators q) d ≡ true
    updated_rows-below q d q_inside d_inside e = elim (Bool-cases (m == q)) [
      | inl at ↦
          let same : m ≡ q = (==_iff m q).0 at in
          let has = sym (ap (λ r. has_execution_bit r d) updated_rows-row_same) in
          let e' = subst (λ k. has_execution_bit (row_of updated_rows k) d ≡ true) (sym same) e in
          subst (λ k. has_execution_bit (row_of dominators k) d ≡ true) same
            (v.descends m d inside d_inside not_entry (sym (new_row-bit d) ∙ has ∙ e'))
      | inr other ↦
          let differ : m ≢ q = ground (arith, other) in
          sym (ap (λ r. has_execution_bit r d) (updated_rows-row_other q differ)) ∙ e
    ]

    node_bit-grows :
        (k d : ℕ) → d < width_of → node_bit updated_rows k d ≡ true → node_bit dominators k d ≡ true
    node_bit-grows k d d_inside e =
        let grows =
          all_have-grows n_of d updated_rows dominators (λ q h. updated_rows-below q d h d_inside)
            (targets_of predecessors k) (range k) in
        ground (arith, grows)

    new_row-Sub :
        (i : ℕ)
        → has_execution_bit new_row i ≡ true
        → has_execution_bit (row_of dominators m) i ≡ true
    new_row-Sub i e = elim (Bool-cases (ltb i width_of)) [
      | inl fits ↦
          v.descends m i inside (ltb→lt i width_of fits) not_entry (sym (new_row-bit i) ∙ e)
      | inr past ↦
          let out = bit-past new_row i (ground (arith, new_row-length, past)) in ground (arith, out)
    ]

    pub updated_rows-Inv : Inv updated_rows
    updated_rows-Inv = record {
      size = length-set dominators m new_row ∙ v.size;
      wide = λ q h. elim (Bool-cases (m == q)) [
        | inl at ↦ ap length (updated_rows-row q ∙ ground arith) ∙ new_row-length
        | inr other ↦ ap length (updated_rows-row q ∙ ground arith) ∙ v.wide q h
      ];
      descends = λ k d k_inside d_inside k_not e. elim (Bool-cases (m == k)) [
        | inl at ↦
            let same : m ≡ k = (==_iff m k).0 at in
            let before = node_bit-grows k d d_inside e in
            let here : node_bit dominators m d ≡ true =
              subst (λ j. node_bit dominators j d ≡ true) (sym same) before in
            subst (λ j. has_execution_bit (row_of updated_rows j) d ≡ true) same
              (ap (λ r. has_execution_bit r d) updated_rows-row_same ∙ new_row-bit d ∙ here)
        | inr other ↦
            let differ : m ≢ k = ground (arith, other) in
            ap (λ r. has_execution_bit r d) (updated_rows-row_other k differ)
            ∙ v.descends k d k_inside d_inside k_not (node_bit-grows k d d_inside e)
      ];
      lost = λ k d k_inside d_inside e. elim (Bool-cases (m == k)) [
        | inl at ↦
            let same : m ≡ k = (==_iff m k).0 at in
            let gone : node_bit dominators m d ≡ false =
              sym (new_row-bit d)
              ∙ sym (ap (λ r. has_execution_bit r d) updated_rows-row_same)
              ∙ subst (λ j. has_execution_bit (row_of updated_rows j) d ≡ false) (sym same) e in
            let differ : m ≢ d = ground arith in
            let lacking : all_have dominators d (targets_of predecessors m) ≡ false =
              ground arith in
            let (p, i, lacks) = some_lacks dominators d (targets_of predecessors m) lacking in
            subst (P d) same (
              closed m d differ not_entry p i (
                v.lost p d (In-below n_of p (targets_of predecessors m) (range m) i) d_inside
                  lacks))
        | inr other ↦
            let differ : m ≢ k = ground (arith, other) in
            v.lost k d k_inside d_inside
              (sym (ap (λ r. has_execution_bit r d) (updated_rows-row_other k differ)) ∙ e)
      ];
      own = λ d e_inside d_inside.
          ap (λ r. has_execution_bit r d) (updated_rows-row_other entry not_entry)
          ∙ v.own d e_inside d_inside;
    }

    pub updated_rows-fewer :
        equal_execution_bits new_row (row_of dominators m) ≡ false
        → total_ones updated_rows < total_ones dominators
    updated_rows-fewer e =
        let fewer =
          ones-lt new_row (row_of dominators m) (new_row-length ∙ sym (v.wide m inside)) new_row-Sub
            e in
        omega (arith, fewer, total_ones-set dominators m new_row (omega (arith, inside, v.size)))
