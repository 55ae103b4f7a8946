-- ===== src/Resilience/Counting.antt =====
-- The breaker against a count of its failures: it is closed exactly below the threshold.
use m3_core_rs.Base.{
  ℕ, suc, ◌≤◌, ◌<◌, min, max, ◌≡◌, ◌↔◌, true, Option, none, some, List, [], ◌∷◌, Text, arith,
  u64_max, u32_max, ltb,
}
use m3_core_rs.Resilience.{
  CircuitBreaker, Call, admit, check, status, success, failure, failure_with, new, step, run,
  is_closed, check_at, gate, gate_phase,
}

-- Failures since the last success, read off the calls alone.
abbrev pub tally : ℕ → List Call → ℕ
tally n [] = n
tally n (success now ∷ cs) = tally 0 cs
tally n (failure now ∷ cs) = tally (suc n) cs
tally n (failure_with message now ∷ cs) = tally (suc n) cs
tally n (_ ∷ cs) = tally n cs

-- The last recorded message since the last success.
abbrev pub blamed : Option Text → List Call → Option Text
blamed e [] = e
blamed e (success now ∷ cs) = blamed none cs
blamed e (failure_with message now ∷ cs) = blamed (some message) cs
blamed e (_ ∷ cs) = blamed e cs

-- What holds of a breaker after `n` failures since its last success.
pub record Counts (th n : ℕ) (e : Option Text) (b : CircuitBreaker) : Type 0 where
  pub threshold : b.threshold ≡ max th 1
  pub counted : b.consecutive_failures ≡ min n u64_max
  pub blames : b.last_error ≡ e
  pub gated : is_closed b.phase ≡ ltb n (max th 1)

module _ (th : ℕ) (small : th ≤ u32_max) where
  step-Counts :
      (n : ℕ) (e : Option Text) (b : CircuitBreaker) (c : Call)
      → Counts th n e b
      → Counts th (tally n (c ∷ [])) (blamed e (c ∷ [])) (step b c)
  unfolding step is_closed check_at gate gate_phase
  step-Counts n e b (admit now) h = ground arith
  step-Counts n e b (check now) h = h
  step-Counts n e b (status now) h = h
  step-Counts n e b (success now) h = ground arith
  step-Counts n e b (failure now) h = ground arith
  step-Counts n e b (failure_with message now) h = ground arith

  run-Counts :
      (n : ℕ) (e : Option Text) (b : CircuitBreaker) (cs : List Call)
      → Counts th n e b
      → Counts th (tally n cs) (blamed e cs) (run b cs)
  unfolding run
  run-Counts n e b [] h = h
  run-Counts n e b (admit now ∷ cs) h = run-Counts n e _ cs (step-Counts n e b (admit now) h)
  run-Counts n e b (check now ∷ cs) h = run-Counts n e _ cs (step-Counts n e b (check now) h)
  run-Counts n e b (status now ∷ cs) h = run-Counts n e _ cs (step-Counts n e b (status now) h)
  run-Counts n e b (success now ∷ cs) h = run-Counts 0 none _ cs (step-Counts n e b (success now) h)
  run-Counts n e b (failure now ∷ cs) h =
      run-Counts (suc n) e _ cs (step-Counts n e b (failure now) h)
  run-Counts n e b (failure_with message now ∷ cs) h =
      run-Counts (suc n) (some message) _ cs (step-Counts n e b (failure_with message now) h)

new-Counts : (th cooldown : ℕ) → Counts th 0 none (new th cooldown)
unfolding new is_closed
new-Counts th cooldown = ground arith

-- After any calls on a new breaker whose threshold fits a `u32`, the count is that of the failures
-- since the last success (saturated at the `usize` maximum), the kept message is the last one since
-- then, and the breaker is closed exactly while fewer failures than the threshold (at least 1) have
-- been counted.
pub run-new-Counts :
    (th cooldown : ℕ) (cs : List Call)
    → th ≤ u32_max
    → let b = run (new th cooldown) cs in
      (b.consecutive_failures ≡ min (tally 0 cs) u64_max)
      × (b.last_error ≡ blamed none cs)
      × ((is_closed b.phase ≡ true) ↔ (tally 0 cs < max th 1))
run-new-Counts th cooldown cs small =
    let h = run-Counts th small 0 none (new th cooldown) cs (new-Counts th cooldown) in
    (h.counted, h.blames, ground (arith, h.gated))
