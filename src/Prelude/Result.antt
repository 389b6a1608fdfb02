-- ===== src/Prelude/Result.antt =====
-- What a Go function with an `error` as its last result returns.
use mathlib.Core.Path.{◌≡◌, refl}
use mathlib.Core.Logic.{◌⊎◌, inl, inr}
use mathlib.Core.Bool.{Bool, true, false}

pub data Result {ℓ} (E : Type 0) (A : Type ℓ) : Type ℓ where
  err : E → Result E A
  ok : A → Result E A

module _ {E : Type 0} where
  infixl 5 ◌>>=◌ ◌>>◌
  -- The rest of the function, unless `err != nil`.
  abbrev pub ◌>>=◌ {ℓ κ} : {A : Type ℓ} {B : Type κ} → Result E A → (A → Result E B) → Result E B
  (err e) >>= rest = err e
  (ok a) >>= rest = rest a

  abbrev pub ◌>>◌ {κ} : {B : Type κ} → Result E (Unit {0}) → Result E B → Result E B
  checked >> rest = checked >>= λ _. rest

  -- `if !test { return e }`.
  abbrev pub guard : Bool → E → Result E (Unit {0})
  guard false e = err e
  guard true e = ok tt

  pub Result-cases {ℓ} :
      {A : Type ℓ} (r : Result E A) → ((a : A) × (r ≡ ok a)) ⊎ ((e : E) × (r ≡ err e))
  Result-cases (err e) = inr (e, refl)
  Result-cases (ok a) = inl (a, refl)

  pub guard-ok {κ} :
      {B : Type κ} (test : Bool) (e : E) (rest : Result E B) {b : B}
      → (guard test e >> rest) ≡ ok b
      → (test ≡ true) × (rest ≡ ok b)
  guard-ok true e rest h = (refl, h)
  guard-ok false e rest h = cc
