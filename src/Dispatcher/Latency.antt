-- ===== src/Dispatcher/Latency.antt =====
-- crates/m3-dispatcher/src/lib.rs, `LatencyRing` and `pct`: recent latencies in microseconds. The
-- rank `(q * len as f64).ceil()` is the exact rounding up of len * q here; the two agree for every
-- length up to the window of 1024 at q = 0.50 and 0.99. The division by 1000 into milliseconds is
-- left to the reader. A record's claim of a slot and its store are one step here: a reader between the
-- two, who would see the slot's former value, is not modelled.
pub mod Slots
pub mod Percentiles
mod Tests
use m3_core_rs.Base.{
  ℕ, zero, suc, ◌+◌, ◌-◌, ◌*◌, ◌/◌, ◌%◌, min, max, Option, none, some, List, [], ◌∷◌, length, take,
  u64_max, leb, ◌==◌, if◌then◌else◌,
}

abbrev pub latency_window : ℕ
latency_window = 1024

-- `count` grows by one for each sample; at one sample a nanosecond it wraps after centuries.
pub record LatencyRing : Type 0 where
  pub slots : List ℕ
  pub count : ℕ

unfoldable pub zeros : ℕ → List ℕ
zeros zero = []
zeros (suc n) = 0 ∷ zeros n

unfoldable pub new : ℕ → LatencyRing
unfolding zeros
new n = record { slots = zeros (max n 1); count = 0 }

unfoldable pub set : List ℕ → ℕ → ℕ → List ℕ
set [] i v = []
set (x ∷ xs) zero v = v ∷ xs
set (x ∷ xs) (suc i) v = x ∷ set xs i v

-- A duration in nanoseconds, as whole microseconds that a `u64` holds.
unfoldable pub micros : ℕ → ℕ
micros d = min (d / 1000) u64_max

unfoldable pub record_sample : LatencyRing → ℕ → LatencyRing
unfolding set micros
record_sample r d = record {
  slots = set r.slots (r.count % length r.slots) (micros d);
  count = r.count + 1;
}

-- `sort_unstable` on numbers.
unfoldable pub insert_sorted : ℕ → List ℕ → List ℕ
insert_sorted c [] = c ∷ []
insert_sorted c (d ∷ ds) = if leb c d then c ∷ d ∷ ds else d ∷ insert_sorted c ds

unfoldable pub sort : List ℕ → List ℕ
unfolding insert_sorted
sort [] = []
sort (c ∷ cs) = insert_sorted c (sort cs)

abbrev pub get_or : List ℕ → ℕ → ℕ → ℕ
get_or [] i d = d
get_or (x ∷ xs) zero d = x
get_or (x ∷ xs) (suc i) d = get_or xs i d

-- Nearest rank at `percent` in a hundred.
unfoldable pub pct : List ℕ → ℕ → ℕ
pct sorted percent =
    let rank = (length sorted * percent + 99) / 100 in
    get_or sorted (min (rank - 1) (length sorted - 1)) 0

unfoldable pub percentiles : LatencyRing → Option (ℕ × ℕ)
unfolding pct sort
percentiles r =
    let v = sort (take (min r.count (length r.slots)) r.slots) in
    if r.count == 0 then none else some (pct v 50, pct v 99)
