-- ===== src/Resilience/Tests.antt =====
-- Runs of the breaker, and the theorems at inputs that meet their hypotheses.
use m3_core_rs.Base.{
  ◌+◌, ◌-◌, ◌≤◌, ◌<◌, min, max, ◌≡◌, refl, ◌↔◌, true, some, List, [], ◌∷◌, ascii, arith, u64_max,
}
use m3_core_rs.Resilience.{
  CircuitBreaker, opened, Call, admit, check, success, failure, failure_with, allowed, refused_open,
  probe_outstanding, is_allowed, is_closed, new, step, run, check_at, admit_at, RetryPolicy,
  delay_for_attempt,
}
use m3_core_rs.Resilience.Gate.{retry_after_exact}
use m3_core_rs.Resilience.Counting.{tally, run-new-Counts}
use m3_core_rs.Resilience.Probe.{probe_exclusive}
use m3_core_rs.Resilience.Recovery.{run-new-recovers}

-- Two failures trip a breaker with threshold 2 and a cooldown of 100.
abbrev tripped : CircuitBreaker
tripped = record {
  threshold = 2;
  cooldown = 100;
  consecutive_failures = 2;
  phase = opened 20;
  last_error = some (ascii "down");
}

abbrev trips : List Call
trips = failure 10 ∷ failure_with (ascii "down") 20 ∷ []

trips_lem : run (new 2 100) trips ≡ tripped
unfolding run new step
trips_lem = refl

refused_test : check_at tripped 50 ≡ refused_open 70
unfolding check_at
refused_test = refl

probe_test : (admit_at tripped 120).1 ≡ allowed
unfolding admit_at
probe_test = refl

reopen_test : check_at (run tripped (admit 120 ∷ failure 130 ∷ [])) 131 ≡ refused_open 99
unfolding run step check_at
reopen_test = refl

close_test : is_closed (run tripped (admit 120 ∷ success 130 ∷ [])).phase ≡ true
unfolding run step is_closed
close_test = refl

retry_after_exact_example :
    (0 < 70) × (70 ≤ 100) × ((is_allowed (check_at tripped 119) ≡ true) ↔ (50 + 70 ≤ 119))
unfolding check_at
retry_after_exact_example = retry_after_exact tripped 50 119 70 (omega arith) (omega arith) refl

run-new-Counts_example :
    ((run (new 2 100) trips).consecutive_failures ≡ min (tally 0 trips) u64_max)
    × ((run (new 2 100) trips).last_error ≡ some (ascii "down"))
    × ((is_closed (run (new 2 100) trips).phase ≡ true) ↔ (2 < max 2 1))
run-new-Counts_example = run-new-Counts 2 100 trips (omega arith)

probe_exclusive_example :
    (run (admit_at tripped 120).0 (check 125 ∷ admit 130 ∷ []) ≡ (admit_at tripped 120).0)
    × (check_at (run (admit_at tripped 120).0 (check 125 ∷ admit 130 ∷ [])) 140
        ≡ probe_outstanding (120 + 100 - 140))
unfolding is_closed admit_at is_allowed
probe_exclusive_example =
    probe_exclusive tripped 120 140 (check 125 ∷ admit 130 ∷ []) refl refl (omega arith)
      (omega arith) (omega arith)

run-new-recovers_example : check_at (run (new 2 100) trips) 120 ≡ allowed
run-new-recovers_example = run-new-recovers 2 100 20 120 trips (omega arith) (omega arith)

abbrev policy : RetryPolicy
policy = record { max_attempts = 5; base_delay = 100; max_delay = 1000 }

delay_test : delay_for_attempt policy 4 ≡ 800
unfolding delay_for_attempt
delay_test = refl
