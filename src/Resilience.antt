-- ===== src/Resilience.antt =====
-- crates/m3-resilience/src/lib.rs: the circuit breaker and the retry policy. An `Instant` and a
-- `Duration` are numbers of nanoseconds; each time-dependent method is its `_at(now)` form, which
-- the plain form calls with the clock's reading.
pub mod Gate
pub mod Counting
pub mod Probe
pub mod Recovery
pub mod Backoff
mod Tests
use m3_core_rs.Base.{
  ℕ, ◌+◌, ◌-◌, ◌*◌, ◌/◌, ◌%◌, ◌^◌, min, max, Bool, true, false, not, ◌&&◌, ◌||◌, Option, none, some,
  List, [], ◌∷◌, ltb, leb, ◌==◌, if◌then◌else◌, is_some, Text, u64_max,
}

pub data BreakerState : Type 0 where
  closed open_ half_open : BreakerState

pub data Admission : Type 0 where
  allowed : Admission
  refused_open : ℕ → Admission
  probe_outstanding : ℕ → Admission

unfoldable pub is_allowed : Admission → Bool
is_allowed allowed = true
is_allowed _ = false

pub record BreakerStatus : Type 0 where
  pub is_open : Bool
  pub failures : ℕ
  pub retry_after : Option ℕ
  pub error : Option Text

pub data Phase : Type 0 where
  closed : Phase
  opened : ℕ → Phase
  probing : ℕ → Phase

pub record CircuitBreaker : Type 0 where
  pub threshold : ℕ
  pub cooldown : ℕ
  pub consecutive_failures : ℕ
  pub phase : Phase
  pub last_error : Option Text

unfoldable pub new : ℕ → ℕ → CircuitBreaker
new threshold cooldown = record {
  threshold = max threshold 1;
  cooldown = cooldown;
  consecutive_failures = 0;
  phase = Phase.closed;
  last_error = none;
}

recorded_phase : Phase → BreakerState
recorded_phase Phase.closed = BreakerState.closed
recorded_phase (opened t) = open_
recorded_phase (probing t) = half_open

unfoldable pub recorded_state : CircuitBreaker → BreakerState
unfolding recorded_phase
recorded_state b = recorded_phase b.phase

-- `checked_sub(saturating_duration_since)`, then the filter on a zero rest.
cooldown_left : ℕ → ℕ → ℕ → Option ℕ
cooldown_left cooldown now since =
    if leb (now - since) cooldown
    then (if cooldown - (now - since) == 0 then none else some (cooldown - (now - since)))
    else none

gate_phase : ℕ → ℕ → Phase → Option (Phase × Option ℕ)
unfolding cooldown_left
gate_phase cooldown now Phase.closed = none
gate_phase cooldown now (opened t) = some (opened t, cooldown_left cooldown now t)
gate_phase cooldown now (probing t) = some (probing t, cooldown_left cooldown now t)

unfoldable pub gate : CircuitBreaker → ℕ → Option (Phase × Option ℕ)
unfolding gate_phase
gate b now = gate_phase b.cooldown now b.phase

state_of_gate : Option (Phase × Option ℕ) → BreakerState
state_of_gate none = BreakerState.closed
state_of_gate (some (opened t, some left)) = open_
state_of_gate (some _) = half_open

unfoldable pub state_at : CircuitBreaker → ℕ → BreakerState
unfolding state_of_gate gate
state_at b now = state_of_gate (gate b now)

admission_of_gate : Option (Phase × Option ℕ) → Admission
admission_of_gate none = allowed
admission_of_gate (some (p, none)) = allowed
admission_of_gate (some (probing t, some left)) = probe_outstanding left
admission_of_gate (some (_, some left)) = refused_open left

unfoldable pub check_at : CircuitBreaker → ℕ → Admission
unfolding admission_of_gate gate
check_at b now = admission_of_gate (gate b now)

unfoldable pub is_closed : Phase → Bool
is_closed Phase.closed = true
is_closed _ = false

unfoldable pub is_probing : Phase → Bool
is_probing (probing t) = true
is_probing _ = false

unfoldable pub admit_at : CircuitBreaker → ℕ → CircuitBreaker × Admission
unfolding check_at is_allowed is_closed
admit_at b now =
    let a = check_at b now in
    if is_allowed a && not (is_closed b.phase)
    then (record b { phase = probing now }, a)
    else (b, a)

unfoldable pub record_success : CircuitBreaker → CircuitBreaker
record_success b = record b { consecutive_failures = 0; phase = Phase.closed; last_error = none }

-- `saturating_add(1)` on a `usize`.
abbrev pub saturating_suc : ℕ → ℕ
saturating_suc n = min (n + 1) u64_max

unfoldable pub record_failure_at : CircuitBreaker → ℕ → CircuitBreaker
unfolding is_probing
record_failure_at b now =
    let failures = saturating_suc b.consecutive_failures in
    record b {
      consecutive_failures = failures;
      phase = if leb b.threshold failures || is_probing b.phase then opened now else b.phase;
    }

unfoldable pub record_failure_with_at : CircuitBreaker → Text → ℕ → CircuitBreaker
unfolding record_failure_at
record_failure_with_at b message now =
    record_failure_at (record b { last_error = some message }) now

left_of_gate : Option (Phase × Option ℕ) → Option ℕ
left_of_gate none = none
left_of_gate (some (p, left)) = left

unfoldable pub status_at : CircuitBreaker → ℕ → BreakerStatus
unfolding left_of_gate gate
status_at b now =
    let left = left_of_gate (gate b now) in
    record {
      is_open = is_some left;
      failures = b.consecutive_failures;
      retry_after = left;
      error = b.last_error;
    }

abbrev pub nanos_per_sec : ℕ
nanos_per_sec = 1_000_000_000

-- `as_secs` and `subsec_nanos` are the quotient and the rest.
unfoldable pub ceil_secs : ℕ → ℕ
ceil_secs d = d / nanos_per_sec + (if d % nanos_per_sec == 0 then 0 else 1)

pub record RetryPolicy : Type 0 where
  pub max_attempts : ℕ
  pub base_delay : ℕ
  pub max_delay : ℕ

-- `Duration::MAX`: `u64::MAX` seconds and 999,999,999 nanoseconds.
abbrev pub duration_max : ℕ
duration_max = u64_max * nanos_per_sec + 999_999_999

-- `1u32 << shift` with `shift` at most 31, and `saturating_mul`.
unfoldable pub delay_for_attempt : RetryPolicy → ℕ → ℕ
delay_for_attempt p attempt =
    let shift = min (attempt - 1) 31 in
    min (min (p.base_delay * 2 ^ shift) duration_max) p.max_delay

-- The calls that a client makes, each with the clock's reading.
pub data Call : Type 0 where
  admit check status success : ℕ → Call
  failure : ℕ → Call
  failure_with : Text → ℕ → Call

unfoldable pub step : CircuitBreaker → Call → CircuitBreaker
unfolding admit_at record_success record_failure_at record_failure_with_at
step b (admit now) = (admit_at b now).0
step b (check now) = b
step b (status now) = b
step b (success now) = record_success b
step b (failure now) = record_failure_at b now
step b (failure_with message now) = record_failure_with_at b message now

unfoldable pub run : CircuitBreaker → List Call → CircuitBreaker
run b [] = b
run b (c ∷ cs) = run (step b c) cs
