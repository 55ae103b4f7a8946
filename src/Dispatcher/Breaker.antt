-- ===== src/Dispatcher/Breaker.antt =====
-- crates/m3-dispatcher/src/lib.rs, `CircuitBreaker`: the shared breaker behind a lock, with a copy
-- of its recorded state that is read without one. A section under the lock is one step; a read of
-- the copy falls before or after it.
pub mod Refinement
mod Tests
use m3_core_rs.Base.{
  ℕ, ◌+◌, ◌-◌, ◌*◌, ◌^◌, min, Bool, true, false, Option, none, some, List, [], ◌∷◌, ◌++◌, ◌==◌,
  if◌then◌else◌, Text, ascii,
}
use m3_core_rs.Errors.{M3Error, backend, Result, ok, err, decimal, display}
use m3_core_rs.Resilience
use m3_core_rs.Resilience.{
  BreakerState, open_, half_open, Admission, allowed, refused_open, probe_outstanding,
}

pub record BreakerCfg : Type 0 where
  pub failure_threshold : ℕ
  pub open_secs : ℕ

abbrev pub default_cfg : BreakerCfg
default_cfg = record { failure_threshold = 5; open_secs = 10 }

abbrev pub breaker_closed : ℕ
breaker_closed = 0

abbrev breaker_open : ℕ
breaker_open = 1

abbrev breaker_half_open : ℕ
breaker_half_open = 2

unfoldable pub encode_state : BreakerState → ℕ
encode_state BreakerState.closed = breaker_closed
encode_state open_ = breaker_open
encode_state half_open = breaker_half_open

pub record CircuitBreaker : Type 0 where
  pub core : Resilience.CircuitBreaker
  pub state_fast : ℕ

abbrev u32_max : ℕ
u32_max = 2 ^ 32 - 1

unfoldable pub new : BreakerCfg → CircuitBreaker
new cfg = record {
  core =
      Resilience.new (min cfg.failure_threshold u32_max) (cfg.open_secs * Resilience.nanos_per_sec);
  state_fast = breaker_closed;
}

unfoldable pub publish : Resilience.CircuitBreaker → CircuitBreaker
unfolding encode_state
publish core = record { core = core; state_fast = encode_state (Resilience.recorded_state core) }

-- What a call is told before it may go on.
abbrev pub Checked : Type 0
Checked = Result Unit

last_text : Option Text → Text
last_text none = ascii "(not recorded)"
last_text (some m) = m

-- The answer to an admission: nothing, or the error that names the failures, the wait and the cause.
unfoldable pub answer : Resilience.CircuitBreaker → Admission → Checked
unfolding last_text
answer core allowed = ok tt
answer core (probe_outstanding retry_after) = err (
    backend (
      ascii "circuit breaker half-open: a probe call is testing the backend after "
      ++ decimal core.consecutive_failures
      ++ ascii " consecutive failures; refusing other calls for up to "
      ++ decimal (Resilience.ceil_secs retry_after)
      ++ ascii "s until it reports; last failure: "
      ++ last_text core.last_error))
answer core (refused_open retry_after) = err (
    backend (
      ascii "circuit breaker open after "
      ++ decimal core.consecutive_failures
      ++ ascii " consecutive backend failures; refusing calls for another "
      ++ decimal (Resilience.ceil_secs retry_after)
      ++ ascii "s; last failure: "
      ++ last_text core.last_error))

unfoldable pub gate_locked : Resilience.CircuitBreaker × Admission → CircuitBreaker × Checked
unfolding publish answer
gate_locked (core, admission) = (publish core, answer core admission)

unfoldable pub gate : CircuitBreaker → Bool → ℕ → CircuitBreaker × Checked
unfolding gate_locked
gate b admit now =
    if b.state_fast == breaker_closed
    then (b, ok tt)
    else (if admit
        then gate_locked (Resilience.admit_at b.core now)
        else gate_locked (b.core, Resilience.check_at b.core now))

unfoldable pub check : CircuitBreaker → ℕ → CircuitBreaker × Checked
unfolding gate
check b now = gate b true now

unfoldable pub peek : CircuitBreaker → ℕ → CircuitBreaker × Checked
unfolding gate
peek b now = gate b false now

unfoldable pub record_success : CircuitBreaker → CircuitBreaker
unfolding publish
record_success b = publish (Resilience.record_success b.core)

unfoldable pub record_failure : CircuitBreaker → ℕ → CircuitBreaker
unfolding publish
record_failure b now = publish (Resilience.record_failure_at b.core now)

unfoldable pub why_text : M3Error → Text
why_text (backend m) = m
why_text e = display e

unfoldable pub record_failure_because : CircuitBreaker → M3Error → ℕ → CircuitBreaker
unfolding publish why_text
record_failure_because b why now =
    publish (Resilience.record_failure_with_at b.core (why_text why) now)

unfoldable pub status : CircuitBreaker → ℕ → Resilience.BreakerStatus
status b now = Resilience.status_at b.core now

-- A client's calls, each with the clock's reading.
pub data Op : Type 0 where
  check_ peek_ success failure : ℕ → Op
  failure_because : M3Error → ℕ → Op

unfoldable pub step : CircuitBreaker → Op → CircuitBreaker
unfolding check peek record_success record_failure record_failure_because
step b (check_ now) = (check b now).0
step b (peek_ now) = (peek b now).0
step b (success now) = record_success b
step b (failure now) = record_failure b now
step b (failure_because why now) = record_failure_because b why now

unfoldable pub run : CircuitBreaker → List Op → CircuitBreaker
unfolding step
run b [] = b
run b (o ∷ os) = run (step b o) os
