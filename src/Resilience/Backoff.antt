-- ===== src/Resilience/Backoff.antt =====
-- The retry delays and the rounding of refusal times.
use m3_core_rs.Base.{ℕ, suc, ◌+◌, ◌-◌, ◌*◌, ◌≤◌, ◌<◌, min, ◌≡◌, refl, arith}
use native.Mathlib.Nat.{pow-suc}
use m3_core_rs.Resilience.{RetryPolicy, delay_for_attempt, duration_max, ceil_secs, nanos_per_sec}

-- From attempt 1 to 31 each next delay is twice the delay before it, cut off at the maximum delay;
-- from attempt 32 on it stays the same; attempt 0 has the delay of attempt 1. No delay passes the
-- maximum, which is itself a `Duration`.
delay_doubles :
    (p : RetryPolicy) (n later : ℕ)
    → p.max_delay ≤ duration_max
    → n < 31
    → (delay_for_attempt p (n + 2) ≡ min (2 * delay_for_attempt p (n + 1)) p.max_delay)
      × (delay_for_attempt p (32 + later) ≡ delay_for_attempt p 32)
      × (delay_for_attempt p 0 ≡ delay_for_attempt p 1)
      × (delay_for_attempt p later ≤ p.max_delay)
unfolding delay_for_attempt
delay_doubles p n later fits h =
    let here : min (n + 1 - 1) 31 ≡ n = omega arith in
    let next : min (n + 2 - 1) 31 ≡ suc n = omega arith in
    let far : min (32 + later - 1) 31 ≡ 31 = omega arith in
    (rw (here, next, pow-suc) (omega arith), rw far refl, refl, omega arith)

-- The whole seconds that a refusal names cover the wait, and one second less would not.
ceil_secs_least :
    (d : ℕ) → (d ≤ ceil_secs d * nanos_per_sec) × (ceil_secs d * nanos_per_sec < d + nanos_per_sec)
unfolding ceil_secs
ceil_secs_least d = ground arith
