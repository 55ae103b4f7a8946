-- ===== src/Resilience/Probe.antt =====
-- The half-open probe is exclusive, and the recorded state moves along four edges only.
use m3_core_rs.Base.{
  ℕ, ◌+◌, ◌-◌, ◌≤◌, ◌<◌, ◌≡◌, refl, ◌⊎◌, true, false, Option, some, List, [], ◌∷◌, All, arith, ap,
  ◌∙◌, Text, ◌≢◌, leb, leb→le, Bool-cases, inl, inr,
}
use m3_core_rs.Resilience.{
  CircuitBreaker, Phase, opened, probing, Call, admit, check, status, success, failure,
  failure_with, BreakerState, open_, half_open, recorded_state, allowed, probe_outstanding, step,
  run, is_closed, is_allowed, check_at, admit_at, gate, gate_phase, saturating_suc, recorded_phase,
  record_failure_at,
}

-- A call that reports no result, at an instant from `from` up to, not including, `until`.
abbrev pub SilentWithin : ℕ → ℕ → Call → Type 0
SilentWithin from until (admit now) = (from ≤ now) × (now < until)
SilentWithin from until (check now) = (from ≤ now) × (now < until)
SilentWithin from until (status now) = (from ≤ now) × (now < until)
SilentWithin from until _ = ⊥

outstanding :
    (b : CircuitBreaker) (t now : ℕ)
    → b.phase ≡ probing t
    → t ≤ now
    → now < t + b.cooldown
    → check_at b now ≡ probe_outstanding (t + b.cooldown - now)
unfolding check_at gate gate_phase
outstanding b t now e h k = ground arith

silent_step :
    (b : CircuitBreaker) (t : ℕ) (c : Call)
    → b.phase ≡ probing t
    → SilentWithin t (t + b.cooldown) c
    → step b c ≡ b
unfolding step is_allowed
silent_step b t (admit now) e h = ground (arith, outstanding b t now e)
silent_step b t (check now) e h = refl
silent_step b t (status now) e h = refl
silent_step b t (success now) e h = absurd h
silent_step b t (failure now) e h = absurd h
silent_step b t (failure_with message now) e h = absurd h

silent_run :
    (b : CircuitBreaker) (t : ℕ) (cs : List Call)
    → b.phase ≡ probing t
    → All (SilentWithin t (t + b.cooldown)) cs
    → run b cs ≡ b
unfolding run
silent_run b t [] e h = refl
silent_run b t (c ∷ cs) e h = ap (λ q. run q cs) (silent_step b t c e h.0) ∙ silent_run b t cs e h.1

admitted_phase :
    (b : CircuitBreaker) (t : ℕ)
    → is_closed b.phase ≡ false
    → is_allowed (admit_at b t).1 ≡ true
    → ((admit_at b t).0.phase ≡ probing t) × ((admit_at b t).0.cooldown ≡ b.cooldown)
unfolding admit_at is_closed is_allowed
admitted_phase b t shut e = ground arith

-- Once a breaker that is not closed admits a call at `t`, then through any calls that report no
-- result, all before the cooldown has passed since `t`, the breaker stays as it is and every check
-- in that time is refused as an outstanding probe, with the time left until `t` plus the cooldown.
pub probe_exclusive :
    (b : CircuitBreaker) (t now : ℕ) (cs : List Call)
    → is_closed b.phase ≡ false
    → is_allowed (admit_at b t).1 ≡ true
    → All (SilentWithin t (t + b.cooldown)) cs
    → t ≤ now
    → now < t + b.cooldown
    → let after = run (admit_at b t).0 cs in
      (after ≡ (admit_at b t).0) × (check_at after now ≡ probe_outstanding (t + b.cooldown - now))
probe_exclusive b t now cs shut won silent h k =
    let (p, c) = admitted_phase b t shut won in
    let same : run (admit_at b t).0 cs ≡ (admit_at b t).0 =
      silent_run (admit_at b t).0 t cs p (rw c silent) in
    (same, rw same (outstanding (admit_at b t).0 t now p h (omega arith) ∙ rw c refl))

-- The edges of the recorded state: what a call may do from each state.
pub data Edge (b : CircuitBreaker) (c : Call) (s s' : BreakerState) : Type 0 where
  stay : s' ≡ s → Edge b c s s'
  close : (now : ℕ) → c ≡ success now → s' ≡ BreakerState.closed → Edge b c s s'
  probe :
      (now : ℕ)
      → c ≡ admit now
      → check_at b now ≡ allowed
      → s ≢ BreakerState.closed
      → s' ≡ half_open
      → Edge b c s s'
  trip :
      (s ≡ half_open) ⊎ (b.threshold ≤ saturating_suc b.consecutive_failures)
      → s' ≡ open_
      → Edge b c s s'

admit-Edge :
    (b : CircuitBreaker) (now : ℕ) (p : Phase)
    → b.phase ≡ p
    → Edge b (admit now) (recorded_phase p) (recorded_state (step b (admit now)))
unfolding step recorded_state is_closed is_allowed check_at gate gate_phase recorded_phase
admit-Edge b now Phase.closed e = stay (ground arith)
admit-Edge b now (opened t) e = elim (Bool-cases (is_allowed (check_at b now))) [
  | inl yes' ↦ probe now refl (ground arith) (λ f. cc) (ground arith)
  | inr no' ↦ stay (ground arith)
]
admit-Edge b now (probing t) e = elim (Bool-cases (is_allowed (check_at b now))) [
  | inl yes' ↦ probe now refl (ground arith) (λ f. cc) (ground arith)
  | inr no' ↦ stay (ground arith)
]

failure-Edge :
    (b : CircuitBreaker) (c : Call) (error : Option Text) (now : ℕ) (p : Phase)
    → b.phase ≡ p
    → Edge b c
        (recorded_phase p)
        (recorded_state (record_failure_at (record b { last_error = error }) now))
unfolding recorded_state recorded_phase record_failure_at
failure-Edge b c error now Phase.closed e =
    elim (Bool-cases (leb b.threshold (saturating_suc b.consecutive_failures))) [
      | inl over ↦ trip (inr (leb→le _ _ over)) (ground arith)
      | inr under ↦ stay (ground arith)
    ]
failure-Edge b c error now (opened t) e = stay (ground arith)
failure-Edge b c error now (probing t) e = trip (inl refl) (ground arith)

-- Each call moves the recorded state along one of these edges: to closed by a reported success, to
-- half-open by an admitting call that the gate allows, to open by a failure from half-open or one
-- that reaches the threshold; otherwise the state stays.
step-Edge :
    (b : CircuitBreaker) (c : Call) → Edge b c (recorded_state b) (recorded_state (step b c))
unfolding step recorded_state
step-Edge b (admit now) = admit-Edge b now b.phase refl
step-Edge b (check now) = stay refl
step-Edge b (status now) = stay refl
step-Edge b (success now) = close now refl refl
step-Edge b (failure now) = failure-Edge b (failure now) b.last_error now b.phase refl
step-Edge b (failure_with message now) =
    failure-Edge b (failure_with message now) (some message) now b.phase refl
