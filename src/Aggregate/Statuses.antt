-- ===== src/Aggregate/Statuses.antt =====
-- internal/distributed/aggregate.go: the status codes of a step, in the checks of a snapshot.
use flow_routine.Prelude.{
  ℕ, ◌+◌, ◌-◌, ◌≤◌, ◌≡◌, refl, inl, inr, Bool, true, false, ◌&&◌, not, List, [], ◌∷◌, arith, ltb,
  leb, leb→le, ==_iff, Bool-cases,
}
use flow_routine.Prelude.Int.{ℤ, pos, pos_part, neg_part, eqb_ℤ, eq_of_parts, ◌≤ℤ◌, ◌<ℤ◌}
use flow_routine.Prelude.Result.{ok, guard-ok}
use flow_routine.Aggregate.{StepStatusCodeCount, invalid_step_statuses, max_uint64}
use flow_routine.Aggregate.Consistent.{is_known_status, step_status_total}
use flow_routine.Aggregate.Monotonic.{
  remove_code, count_at, status_map, is_empty_map, statuses_monotonic,
}

-- The count that the first list ends with for a code is at most the first count of the second list
-- for that code.
abbrev pub StatusesGrow : List StepStatusCodeCount → List StepStatusCodeCount → Type 0
StatusesGrow p c = (code : ℤ) → count_at code (status_map p []) ≤ count_at code c

-- The second list is reached from the first by lists that grow.
pub data StatusesFollow (p : List StepStatusCodeCount) : List StepStatusCodeCount → Type 0 where
  unchanged : StatusesFollow p p
  followed :
      {c n : List StepStatusCodeCount} → StatusesFollow p c → StatusesGrow c n → StatusesFollow p n

pub StatusesFollow-trans :
    {p c n : List StepStatusCodeCount}
    → StatusesFollow p c
    → StatusesFollow c n
    → StatusesFollow p n
StatusesFollow-trans first unchanged = first
StatusesFollow-trans first (followed later grows) =
    followed (StatusesFollow-trans first later) grows

eqb_eq : (a b : ℤ) → eqb_ℤ a b ≡ true → a ≡ b
eqb_eq a b h = eq_of_parts a b ((==_iff (pos_part a + neg_part b) (pos_part b + neg_part a)).0 h)

count_at-remove_code :
    (code removed : ℤ) (m : List StepStatusCodeCount)
    → eqb_ℤ removed code ≡ false
    → count_at code (remove_code removed m) ≡ count_at code m
unfolding count_at remove_code
count_at-remove_code code removed [] other = refl
count_at-remove_code code removed (s ∷ rest) other =
    let later = count_at-remove_code code removed rest other in
    elim (Bool-cases (eqb_ℤ s.code removed)) [
      | inl e ↦
          let unlike : eqb_ℤ s.code code ≡ false = rw (eqb_eq s.code removed e) other in
          rw e (rw unlike later)
      | inr e ↦ elim (Bool-cases (eqb_ℤ s.code code)) [
        | inl f ↦ rw e (rw f refl)
        | inr f ↦ rw e (rw f later)
      ]
    ]

both : (a b : Bool) → a && b ≡ true → (a ≡ true) × (b ≡ true)
both true b h = (refl, h)
both false b h = cc

pub statuses_monotonic_lem :
    (m current : List StepStatusCodeCount)
    → statuses_monotonic m current ≡ true
    → (code : ℤ) → count_at code m ≤ count_at code current
unfolding statuses_monotonic count_at is_empty_map
statuses_monotonic_lem [] [] h code = omega arith
statuses_monotonic_lem (s ∷ m) [] h code = cc
statuses_monotonic_lem m (s ∷ rest) h code =
    let (here, later) =
      both (leb (count_at s.code m) s.count) (statuses_monotonic (remove_code s.code m) rest) h in
    elim (Bool-cases (eqb_ℤ s.code code)) [
      | inl e ↦
          let bound : count_at code m ≤ s.count =
            rw (eqb_eq s.code code e) at (leb→le (count_at s.code m) s.count here) in
          rw e bound
      | inr e ↦
          let bound = statuses_monotonic_lem (remove_code s.code m) rest later code in
          rw e (rw (count_at-remove_code code s.code m e) at bound)
    ]

-- The counts of a step together.
abbrev pub status_sum : List StepStatusCodeCount → ℕ
status_sum [] = 0
status_sum (s ∷ rest) = s.count + status_sum rest

abbrev pub StatusesKnown : List StepStatusCodeCount → Type 0
StatusesKnown [] = Unit {0}
StatusesKnown (s ∷ rest) = (pos 100 ≤ℤ s.code) × (s.code <ℤ pos 600) × StatusesKnown rest

pub step_status_total_lem :
    (statuses : List StepStatusCodeCount) (start total : ℕ)
    → step_status_total statuses start ≡ ok total
    → (total ≡ start + status_sum statuses) × StatusesKnown statuses
unfolding step_status_total
step_status_total_lem [] start total h =
    let same_total : start ≡ total = cc in (omega (arith, same_total), _)
step_status_total_lem (s ∷ rest) start total h =
    let (here, later) =
      guard-ok (is_known_status s.code && not (ltb (max_uint64 - start) s.count))
        invalid_step_statuses (step_status_total rest (start + s.count)) h in
    let (sum, known) = step_status_total_lem rest (start + s.count) total later in
    (omega (arith, sum), (ground (arith, here), ground (arith, here), known))
