-- ===== src/Shard/Bounds.antt =====
-- `splitInteger` keeps bounds and order, so it keeps what is checked of a configuration's numbers.
use flow_routine.Prelude.{
  ℕ, zero, suc, ◌+◌, ◌-◌, ◌*◌, ◌/◌, ◌%◌, ◌≤◌, ◌<◌, ◌≡◌, ap, ◌⊎◌, inl, inr, arith, ltb,
  if◌then◌else◌, Bool-cases,
}
use native.Mathlib.Nat.{div-add-mod, mod-lt}
use flow_routine.Prelude.Int.{ℤ, pos, negsuc, ◌≤ℤ◌, max_ℤ, leb_ℤ, eq_of_parts}
use flow_routine.Shard.{split_integer}

pub split_integer-nonneg : (a : ℤ) (i c : ℕ) → pos 0 ≤ℤ a → pos 0 ≤ℤ split_integer a i c
unfolding split_integer
split_integer-nonneg (pos n) i c h = ground arith
split_integer-nonneg (negsuc n) i c h = absurd (omega arith)

-- A multiple with one more factor is a whole factor larger.
mul_step : (c a b : ℕ) → a < b → c * a + c ≤ c * b
mul_step c a b h =
    let e : b ≡ a + 1 + (b - a - 1) = omega arith in
    let m : c * b ≡ c * (a + 1 + (b - a - 1)) = ap (λ (t : ℕ). c * t) e in omega (arith, m)

le-mul : (c q : ℕ) → 0 < c → q ≤ c * q
le-mul zero q h = absurd (omega arith)
le-mul (suc d) q h = omega arith

split_le : (n i c : ℕ) → i < c → (if ltb i (n % c) then n / c + 1 else n / c) ≤ n
split_le n i c h = ground (arith, div-add-mod n c, le-mul c (n / c))

pub split_integer-le : (a : ℤ) (i c : ℕ) → i < c → pos 0 ≤ℤ a → split_integer a i c ≤ℤ a
unfolding split_integer
split_integer-le (pos n) i c k h = ground (arith, split_le n i c)
split_integer-le (negsuc n) i c k h = absurd (omega arith)

div_pos : (n c : ℕ) → 0 < c → c ≤ n → 1 ≤ n / c
div_pos n c k h = grind arith

pub split_integer-pos : (a : ℤ) (i c : ℕ) → i < c → pos c ≤ℤ a → pos 1 ≤ℤ split_integer a i c
unfolding split_integer
split_integer-pos (pos n) i c k h = ground (arith, div_pos n c)
split_integer-pos (negsuc n) i c k h = absurd (omega arith)

div_mono : (n m c : ℕ) → 0 < c → n ≤ m → (n / c < m / c) ⊎ (n / c ≡ m / c) × (n % c ≤ m % c)
div_mono n m c k h =
    ground
      (arith, div-add-mod n c, div-add-mod m c, mod-lt n k, mod-lt m k, mul_step c (m / c) (n / c))

share_mono :
    (n m i c : ℕ)
    → i < c
    → n ≤ m
    → (if ltb i (n % c) then n / c + 1 else n / c) ≤ (if ltb i (m % c) then m / c + 1 else m / c)
share_mono n m i c k h = ground (arith, div_mono n m c)

pub split_integer-mono :
    (a b : ℤ) (i c : ℕ) → i < c → pos 0 ≤ℤ a → a ≤ℤ b → split_integer a i c ≤ℤ split_integer b i c
unfolding split_integer
split_integer-mono (pos n) (pos m) i c k h l = ground (arith, share_mono n m i c)
split_integer-mono (pos n) (negsuc m) i c k h l = absurd (omega arith)
split_integer-mono (negsuc n) b i c k h l = absurd (omega arith)

pub split_integer-max :
    (a b : ℤ) (i c : ℕ)
    → i < c
    → pos 0 ≤ℤ a
    → pos 0 ≤ℤ b
    → max_ℤ (split_integer a i c) (split_integer b i c) ≡ split_integer (max_ℤ a b) i c
unfolding max_ℤ
split_integer-max a b i c k h l = elim (Bool-cases (leb_ℤ b a)) [
  | inl e ↦ rw e (ground (arith, split_integer-mono b a i c))
  | inr e ↦ rw e (
      ground (
        arith,
        split_integer-mono a b i c,
        eq_of_parts (split_integer a i c) (split_integer b i c),
      ))
]
