-- ===== src/Shard/Split.antt =====
-- `splitInteger`: the parts are whole, even, and in falling order.
use flow_routine.Prelude.{
  ℕ, zero, suc, ◌+◌, ◌-◌, ◌*◌, ◌/◌, ◌%◌, ◌≤◌, ◌<◌, min, ◌≡◌, ap, ◌∙◌, inl, inr, arith, ltb,
  if◌then◌else◌, tests, Bool-cases,
}
use mathlib.Core.Path.{ap₂}
use flow_routine.Prelude.Int.{ℤ, pos, ◌+ℤ◌, ◌≤ℤ◌}
use flow_routine.Shard.{split_integer}

-- The sum of `f` over the indices from `i`, `n` of them.
unfoldable pub sum_range : (ℕ → ℤ) → ℕ → ℕ → ℤ
sum_range f i zero = pos 0
sum_range f i (suc n) = f i +ℤ sum_range f (i + 1) n

abbrev share : ℕ → ℕ → ℕ → ℕ
share n index count = if ltb index (n % count) then n / count + 1 else n / count

split_integer-pos : (n i c : ℕ) → split_integer (pos n) i c ≡ pos (share n i c)
unfolding split_integer
split_integer-pos n i c = ground arith

pos-+ℤ : (a b : ℕ) → pos a +ℤ pos b ≡ pos (a + b)
unfolding ◌+ℤ◌
pos-+ℤ a b = ground arith

share_step :
    (q r i left : ℕ)
    → (if ltb i r then q + 1 else q) + (left * q + (min (i + 1 + left) r - min (i + 1) r))
      ≡ suc left * q + (min (i + suc left) r - min i r)
share_step q r i left = elim (Bool-cases (ltb i r)) [
  | inl e ↦ rw e (omega tests)
  | inr e ↦ rw e (let h : r ≤ i = ground arith in omega arith)
]

sum-shares :
    (n c i left : ℕ)
    → sum_range (λ j. split_integer (pos n) j c) i left
      ≡ pos (left * (n / c) + (min (i + left) (n % c) - min i (n % c)))
unfolding sum_range
sum-shares n c i zero = ap pos (omega arith)
sum-shares n c i (suc left) =
    ap₂ ◌+ℤ◌ (split_integer-pos n i c) (sum-shares n c (i + 1) left)
    ∙ pos-+ℤ _ _
    ∙ ap pos (share_step (n / c) (n % c) i left)

-- The parts of a total that is not negative, one for each of `count` workers, of which there is at
-- least one, add up to it.
pub sum-split_integer :
    (n count : ℕ) → 0 < count → sum_range (λ i. split_integer (pos n) i count) 0 count ≡ pos n
sum-split_integer n count h = sum-shares n count 0 count ∙ ap pos (omega arith)

-- No two parts differ by more than one, and an earlier worker has the greater part.
pub split_integer_even :
    (n i j count : ℕ)
    → i ≤ j
    → (split_integer (pos n) j count ≤ℤ split_integer (pos n) i count)
      × (split_integer (pos n) i count ≤ℤ split_integer (pos n) j count +ℤ pos 1)
unfolding split_integer ◌+ℤ◌
split_integer_even n i j count h = ground arith
