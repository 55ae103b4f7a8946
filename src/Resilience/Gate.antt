-- ===== src/Resilience/Gate.antt =====
-- How the breaker's views of one instant agree, and what a refusal promises.
use m3_core_rs.Base.{ℕ, ◌+◌, ◌≤◌, ◌<◌, ◌≡◌, refl, ◌↔◌, true, not, Option, none, some, arith}
use m3_core_rs.Resilience.{
  BreakerState, recorded_phase, recorded_state, CircuitBreaker, Phase, opened, probing, Admission,
  allowed, refused_open, probe_outstanding, is_allowed, is_closed, check_at, admit_at, status_at,
  gate, gate_phase, admission_of_gate, left_of_gate,
}

-- The time that an admission tells a refused caller to wait.
abbrev pub wait_of : Admission → Option ℕ
wait_of allowed = none
wait_of (refused_open d) = some d
wait_of (probe_outstanding d) = some d

-- The recorded transition, if there is one, lies at or before `now`.
abbrev pub SinceBy : ℕ → Phase → Type 0
SinceBy now Phase.closed = Unit
SinceBy now (opened t) = t ≤ now
SinceBy now (probing t) = t ≤ now

phase_views :
    (cooldown now : ℕ) (p : Phase)
    → wait_of (admission_of_gate (gate_phase cooldown now p))
      ≡ left_of_gate (gate_phase cooldown now p)
unfolding gate_phase admission_of_gate left_of_gate
phase_views cooldown now Phase.closed = refl
phase_views cooldown now (opened t) = ground arith
phase_views cooldown now (probing t) = ground arith

-- At any instant `admit_at` gives the answer of `check_at`, and `status_at` reports the wait that
-- this answer names: it reads open exactly when a call would be refused.
pub views_agree :
    (b : CircuitBreaker) (now : ℕ)
    → ((admit_at b now).1 ≡ check_at b now)
      × ((status_at b now).retry_after ≡ wait_of (check_at b now))
      × ((status_at b now).is_open ≡ not (is_allowed (check_at b now)))
unfolding admit_at status_at check_at gate gate_phase is_allowed is_closed
views_agree b now = ground (arith, phase_views b.cooldown now b.phase)

phase_retry :
    (cooldown now later d : ℕ) (p : Phase)
    → SinceBy now p
    → now ≤ later
    → wait_of (admission_of_gate (gate_phase cooldown now p)) ≡ some d
    → (0 < d)
      × (d ≤ cooldown)
      × ((is_allowed (admission_of_gate (gate_phase cooldown later p)) ≡ true) ↔ (now + d ≤ later))
unfolding gate_phase admission_of_gate is_allowed
phase_retry cooldown now later d Phase.closed s h e = cc
phase_retry cooldown now later d (opened t) s h e = ground arith
phase_retry cooldown now later d (probing t) s h e = ground arith

-- When a call is refused at `now`, not before the recorded transition, the wait that the refusal
-- names is positive, at most the cooldown, and exact: with no call in between, a check at a later
-- instant is allowed exactly when that wait has passed.
pub retry_after_exact :
    (b : CircuitBreaker) (now later d : ℕ)
    → SinceBy now b.phase
    → now ≤ later
    → wait_of (check_at b now) ≡ some d
    → (0 < d) × (d ≤ b.cooldown) × ((is_allowed (check_at b later) ≡ true) ↔ (now + d ≤ later))
unfolding check_at gate
retry_after_exact b now later d s h e = phase_retry b.cooldown now later d b.phase s h e

closed_phase : (p : Phase) → recorded_phase p ≡ BreakerState.closed → p ≡ Phase.closed
unfolding recorded_phase
closed_phase Phase.closed h = refl
closed_phase (opened t) h = cc
closed_phase (probing t) h = cc

-- A breaker that is recorded closed admits every call and stays as it is.
pub closed_admits :
    (b : CircuitBreaker) (now : ℕ)
    → recorded_state b ≡ BreakerState.closed
    → (admit_at b now ≡ (b, allowed)) × (check_at b now ≡ allowed)
unfolding admit_at check_at gate gate_phase admission_of_gate is_allowed is_closed recorded_state
closed_admits b now h = ground (arith, closed_phase b.phase h)
