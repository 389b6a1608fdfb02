-- ===== src/Plan/Compile/Ensures.antt =====
-- internal/engine/execution_plan.go: properties of what a part of `compileExecutionPlan` returns, by the
-- calls and checks that it consists of.
use flow_routine.Prelude.{◌≡◌, refl, sym, ap, subst, ◌≢◌, Bool, true, false, Option, none, some}
use flow_routine.Prelude.Result.{Result, ok, err, ◌>>=◌, ◌>>◌, guard}
use flow_routine.Plan.Targets.{CompileError, unfinished, or_error}

abbrev pub is_error : CompileError → Bool
is_error unfinished = false
is_error _ = true

-- The result is an error of the code, or a value with the property.
pub data Ensures {ℓ} {A : Type ℓ} (P : A → Type 0) : Result CompileError A → Type ℓ where
  returns : {a : A} → P a → Ensures P (ok a)
  fails : {e : CompileError} → is_error e ≡ true → Ensures P (err e)

pub after {ℓ κ} :
    {A : Type ℓ} {B : Type κ} {P : A → Type 0} {Q : B → Type 0} (r : Result CompileError A)
    (rest : A → Result CompileError B)
    → Ensures P r
    → ((a : A) → P a → Ensures Q (rest a))
    → Ensures Q (r >>= rest)
after r rest (returns {a} p) next = next a p
after r rest (fails known) next = fails known

pub checked {κ} :
    {B : Type κ} {Q : B → Type 0} (test : Bool) (e : CompileError) (rest : Result CompileError B)
    → is_error e ≡ true
    → (test ≡ true → Ensures Q rest)
    → Ensures Q (guard test e >> rest)
checked true e rest known next = next refl
checked false e rest known next = fails known

pub tested :
    (test : Bool) (e : CompileError) → is_error e ≡ true → Ensures (λ u. test ≡ true) (guard test e)
tested true e known = returns refl
tested false e known = fails known

pub found :
    {A : Type 0} (e : CompileError) (o : Option A)
    → is_error e ≡ true
    → Ensures (λ a. o ≡ some a) (or_error e o)
found e none known = fails known
found e (some a) known = returns refl

-- A loop that ends.
pub finished :
    {A : Type 0} (P : A → Type 0) (o : Option A)
    → ((a : A) × (o ≡ some a) × P a)
    → Ensures P (or_error unfinished o)
finished P none (a, e, p) = cc
finished P (some b) (a, e, p) = let same : b ≡ a = cc e in returns (subst P (sym same) p)

pub weaken {ℓ} :
    {A : Type ℓ} {P Q : A → Type 0} (r : Result CompileError A)
    → Ensures P r
    → ((a : A) → P a → Q a)
    → Ensures Q r
weaken r (returns {a} p) next = returns (next a p)
weaken r (fails known) next = fails known

pub ensured {ℓ} :
    {A : Type ℓ} {P : A → Type 0} (r : Result CompileError A) (a : A) → Ensures P r → r ≡ ok a → P a
ensured {P = P} r c (returns {a} p) h = let same : a ≡ c = cc h in subst P same p
ensured r a (fails known) h = cc

pub ends {ℓ} :
    {A : Type ℓ} {P : A → Type 0} (r : Result CompileError A) → Ensures P r → r ≢ err unfinished
ends r (returns p) h = cc
ends r (fails {e} known) h = let same : e ≡ unfinished = cc h in cc (ap is_error same, known)

-- The value is the one that was returned.
pub recall :
    {A : Type 0} {P : A → Type 0} (r : Result CompileError A)
    → Ensures P r
    → Ensures (λ a. P a × (r ≡ ok a)) r
recall r (returns p) = returns (p, refl)
recall r (fails known) = fails known

pub alongside :
    {A : Type 0} {P Q : A → Type 0} (r : Result CompileError A)
    → Ensures P r
    → Ensures Q r
    → Ensures (λ a. P a × Q a) r
alongside r p q = weaken r (recall r p) (λ a (holds, e). (holds, ensured r a q e))
