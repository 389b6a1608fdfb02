-- ===== src/RateLimiter.antt =====
-- internal/engine/rate_limiter.go: the request pacer, a buffered channel of permits that one
-- goroutine (`Run`) fills on each tick and the workers (`Wait`) drain.
-- A channel of empty structs is its capacity and the number of values that it holds.
-- The context and the ticker are the environment: `Wait` is a relation over what the context
-- answers at each of its three looks, `Run` a function of one tick.
pub mod Pace
pub mod Budget
mod Tests
use flow_routine.Prelude.{
  ℕ, zero, suc, ◌+◌, ◌-◌, ◌*◌, ◌/◌, ◌%◌, ◌<◌, ◌≡◌, Bool, true, false, ltb, leb, if◌then◌else◌,
}
use flow_routine.Prelude.Int.{ℤ, pos, negsuc}

-- `chan struct{}`: `cap` and `len`.
pub record Channel : Type 0 where
  pub capacity : ℕ
  pub queued : ℕ

pub record RateLimiter : Type 0 where
  pub interval : ℕ
  pub permits_per_tick : ℕ
  pub remainder_per_tick : ℕ
  pub permit_capacity : ℕ
  pub permits : Channel

abbrev pub max_pacer_ticks_per_second : ℕ
max_pacer_ticks_per_second = 1000

-- `time.Second`, in nanoseconds.
abbrev pub second : ℕ
second = 1_000_000_000

-- `make(chan struct{}, capacity)`.
unfoldable pub make_channel : ℕ → Channel
make_channel capacity = record { capacity = capacity; queued = 0 }

-- `select { case permits <- struct{}{}: default: }`: the new channel, and whether the value went in.
unfoldable pub try_send : Channel → Channel × Bool
try_send c =
    if ltb c.queued c.capacity then (record c { queued = c.queued + 1 }, true) else (c, false)

-- The capacity is positive (`new_rate_limiter-IsValid`), so the send into the new channel goes on.
unfoldable pub reset : RateLimiter → RateLimiter
unfolding make_channel try_send
reset l = record l { permits = (try_send (make_channel l.permit_capacity)).0 }

-- `if rps < 1 { rps = 1 }`.
unfoldable pub clamp_rps : ℤ → ℕ
clamp_rps (pos n) = if ltb n 1 then 1 else n
clamp_rps (negsuc n) = 1

slow_limiter : ℕ → RateLimiter
unfolding make_channel
slow_limiter rps = record {
  interval = second / rps;
  permits_per_tick = 1;
  remainder_per_tick = 0;
  permit_capacity = 1;
  permits = make_channel 0;
}

fast_limiter : ℕ → RateLimiter
unfolding make_channel
fast_limiter rps = record {
  interval = second / max_pacer_ticks_per_second;
  permits_per_tick = rps / max_pacer_ticks_per_second;
  remainder_per_tick = rps % max_pacer_ticks_per_second;
  permit_capacity =
      if ltb 0 (rps % max_pacer_ticks_per_second)
      then rps / max_pacer_ticks_per_second + 1
      else rps / max_pacer_ticks_per_second;
  permits = make_channel 0;
}

unfoldable pub new_rate_limiter : ℤ → RateLimiter
unfolding clamp_rps slow_limiter fast_limiter reset
new_rate_limiter requested =
    let rps = clamp_rps requested in
    reset (if ltb max_pacer_ticks_per_second rps then fast_limiter rps else slow_limiter rps)

-- The `for range count` of `Run`, which leaves at the first send that finds the channel full.
unfoldable pub send_permits : ℕ → Channel → Channel
unfolding try_send
send_permits zero c = c
send_permits (suc count) c =
    let next = try_send c in let rest = send_permits count next.0 in if next.1 then rest else c

-- What a tick takes from the remainder: how many permits to send, and the new remainder.
unfoldable pub tick_count : RateLimiter → ℕ → ℕ × ℕ
tick_count l remainder =
    let total = remainder + l.remainder_per_tick in
    if leb max_pacer_ticks_per_second total
    then (l.permits_per_tick + 1, total - max_pacer_ticks_per_second)
    else (l.permits_per_tick, total)

-- The state of a running pacer: the limiter, and the local `remainder` of `Run`.
pub record Pacer : Type 0 where
  pub limiter : RateLimiter
  pub remainder : ℕ

-- One round of the loop of `Run`, at `<-ticker.C`.
unfoldable pub tick : Pacer → Pacer
tick p =
    let (count, remainder) = tick_count p.limiter p.remainder in
    let limiter = p.limiter in
    record {
      limiter = record limiter { permits = send_permits count limiter.permits };
      remainder = remainder;
    }

-- `<-permits`, where a permit is there.
unfoldable pub take_permit : Channel → Channel
take_permit c = record c { queued = c.queued - 1 }

unfoldable pub take_limiter : RateLimiter → RateLimiter
unfolding take_permit
take_limiter l = record l { permits = take_permit l.permits }

-- A call of `Wait`: the limiter before, what it returns, the limiter after.
-- The context may be done at each of the three looks; a `select` with both cases ready may take either.
pub data Wait : RateLimiter → Bool → RateLimiter → Type 0 where
  done_before : (l : RateLimiter) → Wait l false l
  done_waiting : (l : RateLimiter) → Wait l false l
  done_holding : (l : RateLimiter) → 0 < l.permits.queued → Wait l false (take_limiter l)
  granted : (l : RateLimiter) → 0 < l.permits.queued → Wait l true (take_limiter l)
