-- ===== src/Dispatcher/Breaker/Tests.antt =====
-- A run of the locked breaker.
use m3_core_rs.Base.{◌≡◌, refl, true, false, List, [], ◌∷◌, map}
use m3_core_rs.Errors.{database_locked}
use m3_core_rs.Resilience
use m3_core_rs.Dispatcher.Breaker.{
  BreakerCfg, Op, check_, peek_, failure, failure_because, new, gate, run, step,
}
use m3_core_rs.Dispatcher.Breaker.Refinement.{call, is_ok, InSync, gate-Refines}

abbrev cfg : BreakerCfg
cfg = record { failure_threshold = 2; open_secs = 1 }

abbrev ops : List Op
ops = check_ 0 ∷ failure 5 ∷ check_ 6 ∷ failure_because database_locked 9 ∷ peek_ 10 ∷ []

refused_test : is_ok (gate (run (new cfg) ops) false 11).1 ≡ false
unfolding gate run new step Resilience.check_at Resilience.recorded_state
    Resilience.record_failure_with_at Resilience.new
refused_test = refl

probe_test : is_ok (gate (run (new cfg) ops) true 1_000_000_009).1 ≡ true
unfolding gate run new step Resilience.admit_at Resilience.recorded_state
    Resilience.record_failure_with_at Resilience.new
probe_test = refl

gate-Refines_example :
    InSync (run (new cfg) ops)
    × ((run (new cfg) ops).core ≡ Resilience.run (new cfg).core (map call ops))
    × (is_ok (gate (run (new cfg) ops) true 11).1
        ≡ Resilience.is_allowed
            (Resilience.check_at (Resilience.run (new cfg).core (map call ops)) 11))
gate-Refines_example = gate-Refines cfg ops true 11
