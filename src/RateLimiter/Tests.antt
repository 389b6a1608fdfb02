-- ===== src/RateLimiter/Tests.antt =====
-- Runs of the pacer at small inputs, and the theorems at inputs that meet their hypotheses.
use flow_routine.Prelude.{◌+◌, ◌*◌, ◌/◌, ◌≤◌, ◌<◌, ◌≡◌, refl, arith, max, ltb, if◌then◌else◌}
use flow_routine.Prelude.Int.{pos, negsuc}
use flow_routine.RateLimiter.{
  second, RateLimiter, new_rate_limiter, send_permits, tick_count, Pacer, tick, Wait, take_limiter,
}
use flow_routine.RateLimiter.Pace.{
  new_rate_limiter_pace, IsRunning, rate, tick_count-fits, issued, issued-div,
}
use flow_routine.RateLimiter.Budget.{Run, start, ticked, waited, Run-budget, Run-limit}

abbrev brisk : RateLimiter
brisk = record {
  interval = 1_000_000;
  permits_per_tick = 2;
  remainder_per_tick = 500;
  permit_capacity = 3;
  permits = record { capacity = 3; queued = 1 };
}

abbrev brisk_pacer : Pacer
brisk_pacer = record { limiter = brisk; remainder = 0 }

abbrev drained : Pacer
drained = record {
  limiter = record brisk { permits = record { capacity = 3; queued = 0 } };
  remainder = 700;
}

new_rate_limiter-brisk : new_rate_limiter (pos 2500) ≡ brisk
unfolding new_rate_limiter
new_rate_limiter-brisk = refl

tick-drained : tick drained ≡ record {
  limiter = record brisk { permits = record { capacity = 3; queued = 3 } };
  remainder = 200;
}
unfolding tick tick_count send_permits
tick-drained = refl

drained-IsRunning : IsRunning drained
drained-IsRunning = ground arith

brisk-IsRunning : IsRunning brisk_pacer
brisk-IsRunning = ground arith

brisk-Run : Run brisk_pacer 1 1 (tick (record brisk_pacer { limiter = take_limiter brisk }))
brisk-Run =
    ticked (waited (take_limiter brisk) start (Wait.granted brisk (omega arith)) (omega arith))

tick_count-fits_example :
    ((tick drained).limiter.permits.queued ≡ (tick_count drained.limiter drained.remainder).0)
    × (0 < (tick drained).limiter.permits.queued)
tick_count-fits_example = tick_count-fits drained drained-IsRunning refl

issued-div_example : issued brisk 700 3 ≡ (700 + 3 * rate brisk) / 1000
issued-div_example = issued-div brisk 700 3 (omega arith) (omega arith)

Run-budget_example :
    let q = tick (record brisk_pacer { limiter = take_limiter brisk }) in
    IsRunning q
    × (rate q.limiter ≡ rate brisk)
    × (1000 * 1 + 1000 * q.limiter.permits.queued + q.remainder
        ≤ 1000 * brisk.permits.queued + 0 + 1 * rate brisk)
Run-budget_example = Run-budget brisk-Run brisk-IsRunning

Run-limit_example : 1000 * 1 ≤ 1000 + 1 * rate (new_rate_limiter (pos 2500))
unfolding new_rate_limiter
Run-limit_example = Run-limit (pos 2500) brisk-Run

new_rate_limiter_pace_example :
    (rate (new_rate_limiter (pos 2500)) ≡ (if ltb 1000 2500 then 2500 else 1000))
    × ((new_rate_limiter (pos 2500)).interval
        ≡ (if ltb 1000 2500 then 1_000_000 else second / max 1 2500))
    × (new_rate_limiter (negsuc 2500) ≡ new_rate_limiter (pos 1))
new_rate_limiter_pace_example = new_rate_limiter_pace 2500
