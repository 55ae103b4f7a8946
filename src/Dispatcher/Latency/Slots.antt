-- ===== src/Dispatcher/Latency/Slots.antt =====
-- The ring holds the most recent samples.
use m3_core_rs.Base.{
  ℕ, zero, suc, ◌+◌, ◌%◌, ◌≤◌, ◌<◌, max, ◌≡◌, refl, sym, ap, ◌∙◌, ◌≢◌, List, [], ◌∷◌, length, arith,
}
use native.Mathlib.Decide.{ℕ_discrete}
use m3_core_rs.Dispatcher.Latency.{LatencyRing, new, zeros, set, micros, record_sample, get_or}

pub record_all : LatencyRing → List ℕ → LatencyRing
record_all r [] = r
record_all r (d ∷ ds) = record_all (record_sample r d) ds

length-set : (xs : List ℕ) (i v : ℕ) → length (set xs i v) ≡ length xs
unfolding set
length-set [] i v = refl
length-set (x ∷ xs) zero v = refl
length-set (x ∷ xs) (suc i) v = ap suc (length-set xs i v)

get_or-set_self : (xs : List ℕ) (i v d : ℕ) → i < length xs → get_or (set xs i v) i d ≡ v
unfolding set
get_or-set_self [] i v d h = absurd (omega arith)
get_or-set_self (x ∷ xs) zero v d h = refl
get_or-set_self (x ∷ xs) (suc i) v d h = get_or-set_self xs i v d (omega arith)

get_or-set_ne : (xs : List ℕ) (i j v d : ℕ) → i ≢ j → get_or (set xs i v) j d ≡ get_or xs j d
unfolding set
get_or-set_ne [] i j v d h = refl
get_or-set_ne (x ∷ xs) zero zero v d h = absurd (h refl)
get_or-set_ne (x ∷ xs) zero (suc j) v d h = refl
get_or-set_ne (x ∷ xs) (suc i) zero v d h = refl
get_or-set_ne (x ∷ xs) (suc i) (suc j) v d h = get_or-set_ne xs i j v d (λ e. h (ap suc e))

length-zeros : (n : ℕ) → length (zeros n) ≡ n
unfolding zeros
length-zeros zero = refl
length-zeros (suc n) = ap suc (length-zeros n)

-- Two numbers less than a window apart differ in their rest.
mod_distinct : (a b n : ℕ) → 0 < n → a < b → b < a + n → a % n ≢ b % n
mod_distinct a b n p h k = λ e. grind arith

-- The samples so far, and where the last ones stand.
pub record Holds (n : ℕ) (seen : ℕ → ℕ) (r : LatencyRing) : Type 0 where
  pub size : length r.slots ≡ n
  pub recent : (j : ℕ) → j < r.count → r.count ≤ j + n → get_or r.slots (j % n) 0 ≡ micros (seen j)

record_sample-Holds :
    (n : ℕ) (seen : ℕ → ℕ) (r : LatencyRing) (d : ℕ)
    → 0 < n
    → seen r.count ≡ d
    → Holds n seen r
    → Holds n seen (record_sample r d)
unfolding record_sample
record_sample-Holds n seen r d p e h = record {
  size = length-set r.slots (r.count % length r.slots) (micros d) ∙ h.size;
  recent = λ j lt le. elim (ℕ_discrete j r.count) [
    | yes same ↦
        rw (h.size, same, e)
          (get_or-set_self r.slots (r.count % n) (micros d) 0 (omega (arith, h.size)))
    | no differs ↦ rw h.size (
        get_or-set_ne r.slots (r.count % n) (j % n) (micros d) 0
          (λ f. mod_distinct j r.count n p (omega arith) (omega arith) (sym f))
        ∙ h.recent j (omega arith) (omega arith))
  ];
}

count_next : (r : LatencyRing) (d i : ℕ) → (record_sample r d).count + i ≡ r.count + suc i
unfolding record_sample
count_next r d i = omega arith

count_after :
    (r : LatencyRing) (d : ℕ) (ds : List ℕ)
    → (record_sample r d).count + length ds ≡ r.count + length (d ∷ ds)
unfolding record_sample
count_after r d ds = omega arith

record_all-Holds :
    (n : ℕ) (seen : ℕ → ℕ) (r : LatencyRing) (ds : List ℕ)
    → 0 < n
    → ((i : ℕ) → seen (r.count + i) ≡ get_or ds i 0)
    → Holds n seen r
    → Holds n seen (record_all r ds) × ((record_all r ds).count ≡ r.count + length ds)
unfolding record_all
record_all-Holds n seen r [] p s h = (h, omega arith)
record_all-Holds n seen r (d ∷ ds) p s h =
    let here : seen r.count ≡ d = ap seen (omega arith) ∙ s 0 in
    let later : (i : ℕ) → seen ((record_sample r d).count + i) ≡ get_or ds i 0 =
      λ i. ap seen (count_next r d i) ∙ s (suc i) in
    let (h', c) =
      record_all-Holds n seen (record_sample r d) ds p later
        (record_sample-Holds n seen r d p here h) in
    (h', c ∙ count_after r d ds)

new-Holds : (n : ℕ) (seen : ℕ → ℕ) → Holds (max n 1) seen (new n)
unfolding new
new-Holds n seen = record {
  size = length-zeros (max n 1);
  recent = λ j lt le. absurd (omega arith);
}

new_count : (n k : ℕ) → (new n).count + k ≡ k
unfolding new
new_count n k = omega arith

new_seen : (n : ℕ) (ds : List ℕ) (i : ℕ) → get_or ds ((new n).count + i) 0 ≡ get_or ds i 0
new_seen n ds i = ap (λ k. get_or ds k 0) (new_count n i)

-- After any samples, each of the last ones that the ring has room for stands, in microseconds, in
-- the slot of its number modulo the ring's size; the count is that of the samples.
pub record_all-recent :
    (n j : ℕ) (ds : List ℕ)
    → j < length ds
    → length ds ≤ j + max n 1
    → let r = record_all (new n) ds in
      (r.count ≡ length ds) × (get_or r.slots (j % max n 1) 0 ≡ micros (get_or ds j 0))
record_all-recent n j ds lt le =
    let (h, c) =
      record_all-Holds (max n 1) (λ i. get_or ds i 0) (new n) ds (omega arith) (new_seen n ds)
        (new-Holds n _) in
    let count : (record_all (new n) ds).count ≡ length ds = c ∙ new_count n (length ds) in
    (count, h.recent j (omega (arith, count)) (omega (arith, count)))
