-- ===== src/Resilience/Recovery.antt =====
-- The breaker never refuses for good: after any history, a silent cooldown reopens the gate.
use m3_core_rs.Base.{ℕ, ◌+◌, ◌≤◌, ◌≡◌, refl, List, [], ◌∷◌, All, arith}
use m3_core_rs.Resilience.{
  CircuitBreaker, Call, admit, check, status, success, failure, failure_with, allowed, new, step,
  run, check_at, gate, gate_phase,
}
use m3_core_rs.Resilience.Gate.{SinceBy}

abbrev pub time_of : Call → ℕ
time_of (admit now) = now
time_of (check now) = now
time_of (status now) = now
time_of (success now) = now
time_of (failure now) = now
time_of (failure_with message now) = now

record Dated (cooldown last : ℕ) (b : CircuitBreaker) : Type 0 where
  kept : b.cooldown ≡ cooldown
  since : SinceBy last b.phase

step-Dated :
    (cooldown last : ℕ) (b : CircuitBreaker) (c : Call)
    → time_of c ≤ last
    → Dated cooldown last b
    → Dated cooldown last (step b c)
unfolding step
step-Dated cooldown last b (admit now) h d = ground arith
step-Dated cooldown last b (check now) h d = d
step-Dated cooldown last b (status now) h d = d
step-Dated cooldown last b (success now) h d = ground arith
step-Dated cooldown last b (failure now) h d = ground arith
step-Dated cooldown last b (failure_with message now) h d = ground arith

run-Dated :
    (cooldown last : ℕ) (b : CircuitBreaker) (cs : List Call)
    → All (λ c. time_of c ≤ last) cs
    → Dated cooldown last b
    → Dated cooldown last (run b cs)
unfolding run
run-Dated cooldown last b [] h d = d
run-Dated cooldown last b (c ∷ cs) h d =
    run-Dated cooldown last (step b c) cs h.1 (step-Dated cooldown last b c h.0 d)

new-Dated : (th cooldown last : ℕ) → Dated cooldown last (new th cooldown)
unfolding new
new-Dated th cooldown last = record { kept = refl; since = tt }

reopens :
    (cooldown last now : ℕ) (b : CircuitBreaker)
    → last + cooldown ≤ now
    → Dated cooldown last b
    → check_at b now ≡ allowed
unfolding check_at gate gate_phase
reopens cooldown last now b h d = ground arith

-- Whatever calls a new breaker has had, none later than `last`, with failures and lost probes
-- among them: from the cooldown after `last` on, the next call is allowed.
pub run-new-recovers :
    (th cooldown last now : ℕ) (cs : List Call)
    → All (λ c. time_of c ≤ last) cs
    → last + cooldown ≤ now
    → check_at (run (new th cooldown) cs) now ≡ allowed
run-new-recovers th cooldown last now cs h k =
    reopens cooldown last now _ k (run-Dated cooldown last _ cs h (new-Dated th cooldown last))
