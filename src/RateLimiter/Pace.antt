-- ===== src/RateLimiter/Pace.antt =====
-- What the constructor establishes and what each tick sends.
use flow_routine.Prelude.{
  ℕ, zero, suc, ◌+◌, ◌-◌, ◌*◌, ◌/◌, ◌≤◌, ◌<◌, ◌≡◌, refl, ◌⊎◌, min, max, arith, ltb, if◌then◌else◌,
}
use flow_routine.Prelude.Int.{ℤ, pos, negsuc}
use flow_routine.RateLimiter.{
  Channel, RateLimiter, second, clamp_rps, new_rate_limiter, send_permits, tick_count, Pacer, tick,
}

-- A limiter that `newRateLimiter` can have made: the channel has the capacity computed for it, the
-- capacity is positive and holds all that one tick can send, and the remainder is below a permit.
pub record IsValid (l : RateLimiter) : Type 0 where
  pub sized : l.permits.capacity ≡ l.permit_capacity
  pub bounded : l.permits.queued ≤ l.permits.capacity
  pub fits : l.permits_per_tick ≤ l.permit_capacity
  pub fits_extra : (l.remainder_per_tick ≡ 0) ⊎ (l.permits_per_tick + 1 ≤ l.permit_capacity)
  pub sends : 0 < l.permits_per_tick
  pub below : l.remainder_per_tick < 1000

pub record IsRunning (p : Pacer) : Type 0 where
  pub limiter_IsValid : IsValid p.limiter
  pub remainder_below : p.remainder < 1000
  pub no_remainder : (0 < p.limiter.remainder_per_tick) ⊎ (p.remainder ≡ 0)

-- The permits that a second's thousand ticks send: a thousandth of it is the pace of a tick.
abbrev pub rate : RateLimiter → ℕ
rate l = 1000 * l.permits_per_tick + l.remainder_per_tick

clamp_rps_pos : (requested : ℤ) → 0 < clamp_rps requested
unfolding clamp_rps
clamp_rps_pos (pos n) = ground arith
clamp_rps_pos (negsuc n) = omega arith

-- `newRateLimiter` makes a valid limiter with one permit waiting, whatever it is asked for.
pub new_rate_limiter-IsValid :
    (requested : ℤ)
    → IsValid (new_rate_limiter requested) × ((new_rate_limiter requested).permits.queued ≡ 1)
unfolding new_rate_limiter
new_rate_limiter-IsValid (pos n) = ground arith
new_rate_limiter-IsValid (negsuc n) = ground arith

interval_lem :
    (n : ℕ)
    → (new_rate_limiter (pos n)).interval ≡ (if ltb 1000 n then 1_000_000 else second / max 1 n)
unfolding new_rate_limiter
interval_lem zero = refl
interval_lem (suc n) = let e : max 1 (suc n) ≡ suc n = omega arith in rw e (ground arith)

-- Above a thousand requests a second the ticker runs each millisecond and a thousand ticks send
-- exactly the requested rate; otherwise each tick sends one permit and the interval is a second
-- divided by the rate, which is taken to be one where less is asked for.
pub new_rate_limiter_pace :
    (n : ℕ)
    → (rate (new_rate_limiter (pos n)) ≡ (if ltb 1000 n then n else 1000))
      × ((new_rate_limiter (pos n)).interval ≡ (if ltb 1000 n then 1_000_000 else second / max 1 n))
      × (new_rate_limiter (negsuc n) ≡ new_rate_limiter (pos 1))
unfolding new_rate_limiter
new_rate_limiter_pace n = (ground arith, interval_lem n, refl)

-- The loop of `Run` sends what fits: the queue grows by the count, up to the capacity.
pub send_permits-queued :
    (count : ℕ) (c : Channel)
    → c.queued ≤ c.capacity
    → ((send_permits count c).queued ≡ min c.capacity (c.queued + count))
      × ((send_permits count c).capacity ≡ c.capacity)
unfolding send_permits
send_permits-queued zero c h = omega arith
send_permits-queued (suc count) c h =
    ground (arith, send_permits-queued count (record c { queued = c.queued + 1 }))

-- What `k` ticks in a row hand to the channel, from a remainder.
pub issued : RateLimiter → ℕ → ℕ → ℕ
issued l remainder zero = 0
issued l remainder (suc k) = let (count, next) = tick_count l remainder in count + issued l next k

-- From a remainder below 1000, `k` ticks of a limiter whose remainder per tick is below 1000 issue the
-- remainder plus `k` times the rate, divided by 1000 and rounded down.
pub issued-div :
    (l : RateLimiter) (remainder k : ℕ)
    → l.remainder_per_tick < 1000
    → remainder < 1000
    → issued l remainder k ≡ (remainder + k * rate l) / 1000
unfolding issued tick_count
issued-div l remainder zero h r = omega arith
issued-div l remainder (suc k) h r = ground (
  arith,
  issued-div l (remainder + l.remainder_per_tick - 1000) k,
  issued-div l (remainder + l.remainder_per_tick) k,
)

pub tick_count-below :
    (l : RateLimiter) (r : ℕ)
    → l.remainder_per_tick < 1000
    → r < 1000
    → (1000 * (tick_count l r).0 + (tick_count l r).1 ≡ r + rate l) × ((tick_count l r).1 < 1000)
unfolding tick_count
tick_count-below l r h k = ground arith

-- A tick sends all of its count into an empty channel: only permits that nobody took are dropped.
pub tick_count-fits :
    (p : Pacer)
    → IsRunning p
    → p.limiter.permits.queued ≡ 0
    → ((tick p).limiter.permits.queued ≡ (tick_count p.limiter p.remainder).0)
      × (0 < (tick p).limiter.permits.queued)
unfolding tick tick_count
tick_count-fits p v e = ground (
  arith,
  v.limiter_IsValid.sized,
  v.limiter_IsValid.fits,
  v.limiter_IsValid.fits_extra,
  v.limiter_IsValid.sends,
  v.limiter_IsValid.below,
  send_permits-queued p.limiter.permits_per_tick p.limiter.permits,
  send_permits-queued (p.limiter.permits_per_tick + 1) p.limiter.permits,
)
