-- ===== src/Plan/Dominators/Rows.antt =====
-- internal/engine/execution_plan.go: the bits of rows, of their meet and of the next row of a node.
use flow_routine.Prelude.{
  ℕ, zero, suc, ◌+◌, ◌≤◌, ◌<◌, ◌≡◌, refl, sym, ap, ◌∙◌, Bool, true, false, ◌&&◌, List, [], ◌∷◌,
  arith, ◌==◌, if◌then◌else◌, length, length-set, get_or-set,
}
use flow_routine.Plan.Graph.Visit.{AllBelow}
use flow_routine.Plan.Dominators.{
  Row, has_execution_bit, equal_execution_bits, and_bits, row_of, meet, next_row,
}

-- The number of bits that are set.
abbrev pub ones : Row → ℕ
ones [] = 0
ones (b ∷ row) = (if b then 1 else 0) + ones row

pub length-and_bits : (a b : Row) → length a ≡ length b → length (and_bits a b) ≡ length a
unfolding and_bits
length-and_bits [] b h = refl
length-and_bits (x ∷ a) [] h = refl
length-and_bits (x ∷ a) (y ∷ b) h = omega (arith, length-and_bits a b (omega (arith, h)))

pub bit-and_bits :
    (a b : Row) (i : ℕ)
    → length a ≡ length b
    → has_execution_bit (and_bits a b) i ≡ (has_execution_bit a i && has_execution_bit b i)
unfolding and_bits
bit-and_bits [] b i h = refl
bit-and_bits (x ∷ a) [] i h = absurd (omega (arith, h))
bit-and_bits (x ∷ a) (y ∷ b) zero h = refl
bit-and_bits (x ∷ a) (y ∷ b) (suc i) h = bit-and_bits a b i (omega (arith, h))

pub equal_execution_bits-eq :
    (a b : Row) → length a ≡ length b → equal_execution_bits a b ≡ true → a ≡ b
unfolding equal_execution_bits
equal_execution_bits-eq [] [] h e = refl
equal_execution_bits-eq [] (y ∷ b) h e = absurd (omega (arith, h))
equal_execution_bits-eq (x ∷ a) [] h e = absurd (omega (arith, h))
equal_execution_bits-eq (x ∷ a) (y ∷ b) h e =
    let same = equal_execution_bits-eq a b (omega (arith, h)) (ground arith) in ground (arith, same)

-- Every bit of the first row is set in the second.
abbrev pub Sub : Row → Row → Type 0
Sub a b = (i : ℕ) → has_execution_bit a i ≡ true → has_execution_bit b i ≡ true

pub ones-le : (a b : Row) → length a ≡ length b → Sub a b → ones a ≤ ones b
ones-le [] b h s = omega arith
ones-le (x ∷ a) [] h s = absurd (omega (arith, h))
ones-le (x ∷ a) (y ∷ b) h s =
    let rest = ones-le a b (omega (arith, h)) (λ i. s (suc i)) in ground (arith, rest, s 0)

-- A row below another one that differs from it has fewer bits.
pub ones-lt :
    (a b : Row) → length a ≡ length b → Sub a b → equal_execution_bits a b ≡ false → ones a < ones b
unfolding equal_execution_bits
ones-lt [] b h s e = cc
ones-lt (x ∷ a) [] h s e = absurd (omega (arith, h))
ones-lt (x ∷ a) (y ∷ b) h s e =
    let le = ones-le a b (omega (arith, h)) (λ i. s (suc i)) in
    let lt = ones-lt a b (omega (arith, h)) (λ i. s (suc i)) in ground (arith, le, lt, s 0)

-- All of these nodes have the bit.
abbrev pub all_have : List Row → ℕ → List ℕ → Bool
all_have dominators d [] = true
all_have dominators d (p ∷ rest) =
    has_execution_bit (row_of dominators p) d && all_have dominators d rest

-- All rows of the nodes below n have the same width.
abbrev pub Wide : ℕ → ℕ → List Row → Type 0
Wide n width dominators = (q : ℕ) → q < n → length (row_of dominators q) ≡ width

module _ (n width : ℕ) (dominators : List Row) (wide : Wide n width dominators) where
  pub length-meet :
      (next : Row) (ps : List ℕ)
      → AllBelow n ps
      → length next ≡ width
      → length (meet dominators next ps) ≡ width
  unfolding meet
  length-meet next [] below h = h
  length-meet next (p ∷ rest) (inside, below) h =
      let same = wide p inside in
      length-meet (and_bits next (row_of dominators p)) rest below
        (length-and_bits next (row_of dominators p) (h ∙ sym same) ∙ h)

  pub bit-meet :
      (next : Row) (ps : List ℕ) (d : ℕ)
      → AllBelow n ps
      → length next ≡ width
      → has_execution_bit (meet dominators next ps) d
        ≡ (has_execution_bit next d && all_have dominators d ps)
  unfolding meet
  bit-meet next [] d below h = ground arith
  bit-meet next (p ∷ rest) d (inside, below) h =
      let row = row_of dominators p in
      let even = h ∙ sym (wide p inside) in
      let later = bit-meet (and_bits next row) rest d below (length-and_bits next row even ∙ h) in
      let here = bit-and_bits next row d even in ground (arith, later, here)

  pub length-next_row :
      (node p : ℕ) (rest : List ℕ)
      → p < n
      → AllBelow n rest
      → length (next_row dominators node p rest) ≡ width
  unfolding next_row
  length-next_row node p rest inside below =
      length-set (meet dominators (row_of dominators p) rest) node true
      ∙ length-meet (row_of dominators p) rest below (wide p inside)

  pub bit-next_row :
      (node p : ℕ) (rest : List ℕ) (d : ℕ)
      → node < width
      → p < n
      → AllBelow n rest
      → has_execution_bit (next_row dominators node p rest) d
        ≡ (if node == d then true else all_have dominators d (p ∷ rest))
  unfolding next_row
  bit-next_row node p rest d fits inside below =
      let met = meet dominators (row_of dominators p) rest in
      let wide_met = length-meet (row_of dominators p) rest below (wide p inside) in
      get_or-set met node d true false (omega (arith, wide_met, fits))
      ∙ ap (λ b. if node == d then true else b)
          (bit-meet (row_of dominators p) rest d below (wide p inside))
