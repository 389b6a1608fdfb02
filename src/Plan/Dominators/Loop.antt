-- ===== src/Plan/Dominators/Loop.antt =====
-- internal/engine/execution_plan.go: the loops of `executionDominators`.
use flow_routine.Prelude.{
  ℕ, zero, suc, ◌+◌, ◌<◌, ◌≡◌, refl, sym, ap, ◌∙◌, subst, ◌≢◌, ◌⊎◌, inl, inr, Bool, true, false,
  Option, some, List, [], ◌∷◌, arith, ◌==◌, ==_iff, Bool-cases, length,
}
use flow_routine.Plan.Graph.{targets_of}
use flow_routine.Plan.Graph.Paths.{In}
use flow_routine.Plan.Graph.Visit.{AllBelow}
use flow_routine.Plan.Dominators.{
  Row, has_execution_bit, equal_execution_bits, row_of, next_row, update_row, again, round, rounds,
}
use flow_routine.Plan.Dominators.Rows.{equal_execution_bits-eq}
use flow_routine.Plan.Dominators.Rounds.{
  total_ones, node_bit, Inv, new_row-bit, new_row-length, updated_rows-Inv, updated_rows-fewer,
}

again-true :
    (go : List Row → Option (List Row)) (s : List Row × Bool) → s.1 ≡ true → again go s ≡ go s.0
again-true go (dominators, true) h = refl
again-true go (dominators, false) h = cc

all_from :
    (P : ℕ → Type 0) (m n : ℕ)
    → P m
    → ((k : ℕ) → k < n → P (m + 1 + k))
    → (k : ℕ) → k < suc n
    → P (m + k)
all_from P m n here later zero h = subst P (omega arith) here
all_from P m n here later (suc k) h = subst P (omega arith) (later k (omega (arith, h)))

module _ (predecessors : List (List ℕ)) (entry : ℕ) (P : ℕ → ℕ → Type 0)
    (range : (m : ℕ) → AllBelow (length predecessors) (targets_of predecessors m))
    (closed : (m d : ℕ)
      → m ≢ d
      → m ≢ entry
      → (p : ℕ) → In p (targets_of predecessors m)
      → P d p
      → P d m) where
  abbrev Keeps : List Row → Type 0
  Keeps = Inv predecessors entry P range closed

  -- A node with a predecessor has the bits that it should have.
  abbrev pub Settled : List Row → ℕ → Type 0
  Settled dominators m =
      m ≢ entry
      → (p : ℕ) → In p (targets_of predecessors m)
      → (d : ℕ)
      → has_execution_bit (row_of dominators m) d
        ≡ node_bit predecessors entry P range closed dominators m d

  abbrev Changed : List Row × Bool → List Row × Bool → Type 0
  Changed before after =
      Keeps after.0 × (total_ones after.0 < total_ones before.0) × (after.1 ≡ true)

  update_row-Outcome :
      (m : ℕ) (ps : List ℕ)
      → targets_of predecessors m ≡ ps
      → m < length predecessors
      → (state : List Row × Bool) → Keeps state.0
      → (update_row entry m ps state ≡ state) × Settled state.0 m
        ⊎ Changed state (update_row entry m ps state)
  unfolding update_row
  update_row-Outcome m [] e inside state v = inl (refl, λ not_entry p i. absurd (subst (In p) e i))
  update_row-Outcome m (first ∷ rest) e inside state v = elim (Bool-cases (m == entry)) [
    | inl at ↦ inl (rw at refl, λ not_entry. absurd (not_entry ((==_iff m entry).0 at)))
    | inr other ↦
        let not_entry : m ≢ entry = ground (arith, other) in
        let next = next_row state.0 m first rest in
        let next_length =
          new_row-length predecessors entry P range closed state.0 v m inside not_entry first rest
            e in
        let next_bit =
          new_row-bit predecessors entry P range closed state.0 v m inside not_entry first rest e in
        let after =
          updated_rows-Inv predecessors entry P range closed state.0 v m inside not_entry first rest
            e in
        let fewer =
          updated_rows-fewer predecessors entry P range closed state.0 v m inside not_entry first
            rest e in
        elim (Bool-cases (equal_execution_bits next (row_of state.0 m))) [
          | inl same ↦
              let row_same =
                equal_execution_bits-eq next (row_of state.0 m)
                  (next_length ∙ sym (v.wide m inside)) same in
              rw other (
                rw same (
                  inl (
                    refl,
                    λ not_first p i d. sym (ap (λ r. has_execution_bit r d) row_same) ∙ next_bit d,
                  )))
          | inr new ↦ rw other (rw new (inr (after, fewer new, refl)))
        ]
  ]

  -- From the node m on, `later` being the rest of the predecessor lists.
  round-Outcome :
      (m : ℕ) (later : List (List ℕ))
      → m + length later ≡ length predecessors
      → ((k : ℕ) → targets_of predecessors (m + k) ≡ targets_of later k)
      → (state : List Row × Bool) → Keeps state.0
      → (round entry m later state ≡ state) × ((k : ℕ) → k < length later → Settled state.0 (m + k))
        ⊎ Changed state (round entry m later state)
  unfolding round
  round-Outcome m [] size at state v = inl (refl, λ k h. absurd (omega (arith, h)))
  round-Outcome m (ps ∷ later) size at state v =
      let here = at 0 in
      let start : targets_of predecessors m ≡ ps =
        ap (targets_of predecessors) (omega arith) ∙ here in
      let shifted : (k : ℕ) → targets_of predecessors (m + 1 + k) ≡ targets_of later k =
        λ k. ap (targets_of predecessors) (omega arith) ∙ at (suc k) in
      elim (update_row-Outcome m ps start (omega (arith, size)) state v) [
        | inl (kept, settled) ↦
            subst
              (λ s.
                (round entry (m + 1) later s ≡ state)
                  × ((k : ℕ) → k < suc (length later) → Settled state.0 (m + k))
                ⊎ Changed state (round entry (m + 1) later s))
              (sym kept)
              (elim (round-Outcome (m + 1) later (omega (arith, size)) shifted state v) [
                | inl (kept_later, settled_later) ↦
                    inl (
                      kept_later,
                      all_from (Settled state.0) m (length later) settled settled_later,
                    )
                | inr changed ↦ inr changed
              ])
        | inr (keeps, fewer, flag) ↦
            elim (round-Outcome (m + 1) later (omega (arith, size)) shifted
              (update_row entry m ps state) keeps) [
                | inl (kept_later, settled_later) ↦
                    inr (subst (Changed state) (sym kept_later) (keeps, fewer, flag))
                | inr (keeps_later, fewer_later, flag_later) ↦
                    inr (keeps_later, omega (arith, fewer, fewer_later), flag_later)
              ]
      ]

  -- With fuel for each bit that may be cleared, the loop ends with every node settled.
  pub rounds-Settled :
      (fuel : ℕ) (dominators : List Row)
      → Keeps dominators
      → total_ones dominators < fuel
      → (final : List Row) × (rounds fuel entry predecessors dominators ≡ some final)
        × Keeps final
        × ((m : ℕ) → m < length predecessors → Settled final m)
  unfolding rounds
  rounds-Settled zero dominators v h = absurd (omega (arith, h))
  rounds-Settled (suc fuel) dominators v h =
      elim (round-Outcome 0 predecessors (omega arith)
        (λ k. ap (targets_of predecessors) (omega arith)) (dominators, false) v) [
          | inl (kept, settled) ↦ (
            dominators,
            subst (λ s. again (rounds fuel entry predecessors) s ≡ some dominators) (sym kept) refl,
            v,
            λ m inside. subst (Settled dominators) (omega arith) (settled m inside),
          )
          | inr (keeps, fewer, flag) ↦
              let next = round entry 0 predecessors (dominators, false) in
              let (final, e, w, settled) =
                rounds-Settled fuel next.0 keeps (omega (arith, h, fewer)) in
              let go = again-true (rounds fuel entry predecessors) next flag in
              (final, go ∙ e, w, settled)
        ]
