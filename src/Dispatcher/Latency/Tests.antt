-- ===== src/Dispatcher/Latency/Tests.antt =====
-- Latency rings, and the theorems at inputs that meet their hypotheses.
use m3_core_rs.Base.{ℕ, ◌%◌, max, ◌≡◌, List, [], ◌∷◌, arith}
use m3_core_rs.Dispatcher.Latency.{LatencyRing, new, micros, get_or}
use m3_core_rs.Dispatcher.Latency.Slots.{record_all, record_all-recent}

abbrev samples : List ℕ
samples = 9000 ∷ 4000 ∷ 7500 ∷ 2000 ∷ []

record_all-recent_example :
    ((record_all (new 3) samples).count ≡ 4)
    × (get_or (record_all (new 3) samples).slots (3 % max 3 1) 0 ≡ micros 2000)
record_all-recent_example = record_all-recent 3 3 samples (omega arith) (omega arith)

abbrev three : LatencyRing
three = record { slots = 2 ∷ 4 ∷ 7 ∷ []; count = 4 }
