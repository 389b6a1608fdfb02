-- ===== src/RateLimiter/Budget.antt =====
-- Every interleaving of ticks with calls of `Wait`: how many calls are let through.
use flow_routine.Prelude.{
  ℕ, suc, ◌+◌, ◌*◌, ◌≤◌, ◌<◌, ◌≡◌, refl, ◌∙◌, ◌⊎◌, inr, Bool, arith, if◌then◌else◌,
}
use flow_routine.Prelude.Int.{ℤ}
use flow_routine.RateLimiter.{
  RateLimiter, new_rate_limiter, tick_count, Pacer, tick, Wait, take_limiter,
}
use flow_routine.RateLimiter.Pace.{
  IsValid, IsRunning, rate, new_rate_limiter-IsValid, send_permits-queued, tick_count-below,
}

-- `Run p k g q`: from `p`, an interleaving with `k` ticks in which `g` calls of `Wait` return true.
pub data Run (p : Pacer) : ℕ → ℕ → Pacer → Type 0 where
  start : Run p 0 0 p
  ticked : {k g : ℕ} {q : Pacer} → Run p k g q → Run p (suc k) g (tick q)
  waited :
      {k g h : ℕ} {q : Pacer} {b : Bool} (l : RateLimiter)
      → Run p k g q
      → Wait q.limiter b l
      → h ≡ g + (if b then 1 else 0)
      → Run p k h (record q { limiter = l })

Wait-budget :
    {l m : RateLimiter} {b : Bool}
    → Wait l b m
    → IsValid l
    → IsValid m
      × (rate m ≡ rate l)
      × ((if b then 1 else 0) + m.permits.queued ≤ l.permits.queued)
      × (m.remainder_per_tick ≡ l.remainder_per_tick)
unfolding take_limiter
Wait-budget (Wait.done_before l) v = (v, refl, omega arith, refl)
Wait-budget (Wait.done_waiting l) v = (v, refl, omega arith, refl)
Wait-budget (Wait.done_holding l h) v = ground arith
Wait-budget (Wait.granted l h) v = ground arith

tick_count-still :
    (l : RateLimiter) (r : ℕ)
    → (0 < l.remainder_per_tick) ⊎ (r ≡ 0)
    → (0 < l.remainder_per_tick) ⊎ ((tick_count l r).1 ≡ 0)
unfolding tick_count
tick_count-still l r h = ground arith

fresh-IsRunning : {l : RateLimiter} → IsValid l → IsRunning (record { limiter = l; remainder = 0 })
fresh-IsRunning v = record {
  limiter_IsValid = v;
  remainder_below = omega arith;
  no_remainder = inr refl;
}

-- A tick keeps the pacer well formed.
pub tick-IsRunning : (p : Pacer) → IsRunning p → IsRunning (tick p)
unfolding tick
tick-IsRunning p v =
    let count = (tick_count p.limiter p.remainder).0 in
    let room = send_permits-queued count p.limiter.permits v.limiter_IsValid.bounded in
    let paced = tick_count-below p.limiter p.remainder v.limiter_IsValid.below v.remainder_below in
    let still = tick_count-still p.limiter p.remainder in ground (arith, room, paced, still)

-- What a tick adds to the queue and to the remainder is at most a tick's share of the rate.
tick-budget :
    (p : Pacer)
    → IsRunning p
    → (1000 * (tick p).limiter.permits.queued + (tick p).remainder
        ≤ 1000 * p.limiter.permits.queued + p.remainder + rate p.limiter)
      × (rate (tick p).limiter ≡ rate p.limiter)
unfolding tick
tick-budget p v =
    let count = (tick_count p.limiter p.remainder).0 in
    let room = send_permits-queued count p.limiter.permits v.limiter_IsValid.bounded in
    let paced = tick_count-below p.limiter p.remainder v.limiter_IsValid.below v.remainder_below in
    (omega (arith, room, paced), refl)

-- Over any interleaving the permits taken and those waiting are paid for by the permits waiting at
-- the start and by the rate.
pub Run-budget :
    {p q : Pacer} {k g : ℕ}
    → Run p k g q
    → IsRunning p
    → IsRunning q
      × (rate q.limiter ≡ rate p.limiter)
      × (1000 * g + 1000 * q.limiter.permits.queued + q.remainder
          ≤ 1000 * p.limiter.permits.queued + p.remainder + k * rate p.limiter)
Run-budget start v = (v, refl, omega arith)
Run-budget (ticked {q} run) v =
    let (w, same, paid) = Run-budget run v in
    let step = tick-budget q w in
    (tick-IsRunning q w, step.1 ∙ same, omega (arith, step, same, paid))
Run-budget (waited {q} l run call e) v =
    let (w, same, paid) = Run-budget run v in
    let (valid, kept, taken, r) = Wait-budget call w.limiter_IsValid in
    (
      record {
        limiter_IsValid = valid;
        remainder_below = w.remainder_below;
        no_remainder = rw r w.no_remainder;
      },
      kept ∙ same,
      omega (arith, paid, taken, e),
    )

-- The limit that the pacer is for: whatever the workers and the ticker do, in `k` ticks of a fresh
-- limiter at most one call and `k` thousandths of the rate of calls of `Wait` return true.
pub Run-limit :
    (requested : ℤ) {k g : ℕ} {q : Pacer}
    → Run (record { limiter = new_rate_limiter requested; remainder = 0 }) k g q
    → 1000 * g ≤ 1000 + k * rate (new_rate_limiter requested)
Run-limit requested run =
    let (v, one) = new_rate_limiter-IsValid requested in
    omega (arith, Run-budget run (fresh-IsRunning v), one)
