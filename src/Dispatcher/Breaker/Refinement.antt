-- ===== src/Dispatcher/Breaker/Refinement.antt =====
-- The locked breaker answers as the shared one that it wraps.
use m3_core_rs.Base.{
  ℕ, ◌≡◌, refl, sym, ap, Bool-cases, ◌∙◌, Bool, true, false, List, [], ◌∷◌, map, arith, ◌==◌,
  if◌then◌else◌, inl, inr,
}
use m3_core_rs.Errors.{ok, err}
use m3_core_rs.Resilience
use m3_core_rs.Resilience.{
  Phase, opened, probing, Call, Admission, allowed, refused_open, probe_outstanding, is_allowed,
}
use m3_core_rs.Resilience.Gate.{closed_admits, views_agree}
use m3_core_rs.Dispatcher.Breaker.{
  Checked, CircuitBreaker, BreakerCfg, Op, check_, peek_, success, failure, failure_because,
  encode_state, new, gate, gate_locked, answer, publish, step, run, why_text, check, peek,
  record_success, record_failure, record_failure_because,
}

-- The shared breaker's call that a client's call stands for.
abbrev pub call : Op → Call
call (check_ now) = Call.admit now
call (peek_ now) = Call.check now
call (success now) = Call.success now
call (failure now) = Call.failure now
call (failure_because why now) = Call.failure_with (why_text why) now

abbrev pub is_ok : Checked → Bool
is_ok (ok u) = true
is_ok (err e) = false

-- The copy is the code of the shared breaker's recorded state.
abbrev pub InSync : CircuitBreaker → Type 0
InSync b = b.state_fast ≡ encode_state (Resilience.recorded_state b.core)

is_ok-answer :
    (core : Resilience.CircuitBreaker) (a : Admission) → is_ok (answer core a) ≡ is_allowed a
unfolding answer is_allowed
is_ok-answer core allowed = refl
is_ok-answer core (refused_open d) = refl
is_ok-answer core (probe_outstanding d) = refl

-- What `gate` does and answers, in terms of the shared breaker.
abbrev GateAs : CircuitBreaker → Bool → ℕ → Type 0
GateAs b a now =
    InSync (gate b a now).0
    × ((gate b a now).0.core ≡ (if a then (Resilience.admit_at b.core now).0 else b.core))
    × (is_ok (gate b a now).1 ≡ is_allowed (Resilience.check_at b.core now))

encode_closed :
    (s : Resilience.BreakerState)
    → (encode_state s == 0) ≡ true
    → s ≡ Resilience.BreakerState.closed
unfolding encode_state
encode_closed Resilience.BreakerState.closed h = refl
encode_closed Resilience.open_ h = ground arith
encode_closed Resilience.half_open h = ground arith

fast :
    (b : CircuitBreaker) (a : Bool) (now : ℕ)
    → InSync b
    → (b.state_fast == 0) ≡ true
    → GateAs b a now
unfolding gate is_allowed
fast b true now h e =
    let shut = encode_closed (Resilience.recorded_state b.core) (ap (λ n. n == 0) (sym h) ∙ e) in
    let (admits, checks) = closed_admits b.core now shut in rw (e, admits, checks) (h, refl, refl)
fast b false now h e =
    let shut = encode_closed (Resilience.recorded_state b.core) (ap (λ n. n == 0) (sym h) ∙ e) in
    let (admits, checks) = closed_admits b.core now shut in rw (e, checks) (h, refl, refl)

locked : (b : CircuitBreaker) (a : Bool) (now : ℕ) → (b.state_fast == 0) ≡ false → GateAs b a now
unfolding gate gate_locked publish
locked b true now h = rw h (
  refl,
  refl,
  is_ok-answer (Resilience.admit_at b.core now).0 (Resilience.admit_at b.core now).1
      ∙ ap is_allowed (views_agree b.core now).0,
)
locked b false now h = rw h (refl, refl, is_ok-answer b.core (Resilience.check_at b.core now))

gate-GateAs : (b : CircuitBreaker) (a : Bool) (now : ℕ) → InSync b → GateAs b a now
gate-GateAs b a now h = elim (Bool-cases (b.state_fast == 0)) [
  | inl shut ↦ fast b a now h shut
  | inr other ↦ locked b a now other
]

step-Refines :
    (b : CircuitBreaker) (o : Op)
    → InSync b
    → InSync (step b o) × ((step b o).core ≡ Resilience.step b.core (call o))
unfolding step check peek record_success record_failure record_failure_because publish
    Resilience.step
step-Refines b (check_ now) h = let (s, c, o) = gate-GateAs b true now h in (s, c)
step-Refines b (peek_ now) h = let (s, c, o) = gate-GateAs b false now h in (s, c)
step-Refines b (success now) h = (refl, refl)
step-Refines b (failure now) h = (refl, refl)
step-Refines b (failure_because why now) h = (refl, refl)

run-Refines :
    (b : CircuitBreaker) (os : List Op)
    → InSync b
    → InSync (run b os) × ((run b os).core ≡ Resilience.run b.core (map call os))
unfolding run Resilience.run
run-Refines b [] h = (h, refl)
run-Refines b (o ∷ os) h =
    let (s, c) = step-Refines b o h in
    let (s', c') = run-Refines (step b o) os s in
    (s', c' ∙ ap (λ core. Resilience.run core (map call os)) c)

new-InSync : (cfg : BreakerCfg) → InSync (new cfg)
unfolding new encode_state Resilience.recorded_state Resilience.new
new-InSync cfg = refl

-- After any calls on a new breaker, the copy that the fast path reads is the code of the recorded
-- state of the shared breaker, which stands where the same calls take it without the fast path; a
-- further check or peek at any instant succeeds exactly when the shared breaker allows a call.
pub gate-Refines :
    (cfg : BreakerCfg) (os : List Op) (a : Bool) (now : ℕ)
    → let b = run (new cfg) os in
      let core = Resilience.run (new cfg).core (map call os) in
      InSync b
      × (b.core ≡ core)
      × (is_ok (gate b a now).1 ≡ is_allowed (Resilience.check_at core now))
gate-Refines cfg os a now =
    let (s, c) = run-Refines (new cfg) os (new-InSync cfg) in
    let (sync, core, answers) = gate-GateAs (run (new cfg) os) a now s in
    (s, c, answers ∙ ap (λ core. is_allowed (Resilience.check_at core now)) c)
