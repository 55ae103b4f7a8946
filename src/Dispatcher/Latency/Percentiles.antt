-- ===== src/Dispatcher/Latency/Percentiles.antt =====
-- The percentiles are samples that happened, in order.
use m3_core_rs.Base.{
  ℕ, zero, suc, ◌+◌, ◌-◌, ◌*◌, ◌/◌, ◌≤◌, ◌<◌, min, ◌≡◌, refl, sym, ap, ◌∙◌, inl, inr, Bool, true,
  ◌||◌, some, List, [], ◌∷◌, length, take, All, any, arith, leb, ◌==◌, Bool-cases, length-take,
}
use m3_core_rs.Dispatcher.Latency.{LatencyRing, insert_sorted, sort, get_or, pct, percentiles}

abbrev Ascending : List ℕ → Type 0
Ascending [] = Unit
Ascending (c ∷ cs) = All (λ d. c ≤ d) cs × Ascending cs

abbrev pub contains : ℕ → List ℕ → Bool
contains x = any (λ y. x == y)

All-insert_sorted :
    (P : ℕ → Type 0) (c : ℕ) (cs : List ℕ) → P c → All P cs → All P (insert_sorted c cs)
unfolding insert_sorted
All-insert_sorted P c [] h a = (h, tt)
All-insert_sorted P c (d ∷ ds) h a = ground (arith, All-insert_sorted P c ds h a.1)

All-le : (c d : ℕ) (ds : List ℕ) → c ≤ d → All (λ e. d ≤ e) ds → All (λ e. c ≤ e) ds
All-le c d [] h a = tt
All-le c d (e ∷ es) h a = (omega arith, All-le c d es h a.1)

insert_sorted-Ascending : (c : ℕ) (cs : List ℕ) → Ascending cs → Ascending (insert_sorted c cs)
unfolding insert_sorted
insert_sorted-Ascending c [] a = (tt, tt)
insert_sorted-Ascending c (d ∷ ds) a = elim (Bool-cases (leb c d)) [
  | inl le ↦ rw le ((ground arith, All-le c d ds (ground arith) a.0), a)
  | inr gt ↦
      rw gt
        (All-insert_sorted (λ e. d ≤ e) c ds (ground arith) a.0, insert_sorted-Ascending c ds a.1)
]

sort-Ascending : (cs : List ℕ) → Ascending (sort cs)
unfolding sort
sort-Ascending [] = tt
sort-Ascending (c ∷ cs) = insert_sorted-Ascending c (sort cs) (sort-Ascending cs)

contains-insert_sorted :
    (x c : ℕ) (cs : List ℕ) → contains x (insert_sorted c cs) ≡ ((x == c) || contains x cs)
unfolding insert_sorted
contains-insert_sorted x c [] = refl
contains-insert_sorted x c (d ∷ ds) = ground (arith, contains-insert_sorted x c ds)

contains-sort : (x : ℕ) (cs : List ℕ) → contains x (sort cs) ≡ contains x cs
unfolding sort
contains-sort x [] = refl
contains-sort x (c ∷ cs) =
    contains-insert_sorted x c (sort cs) ∙ ap (◌||◌ (x == c)) (contains-sort x cs)

length-insert_sorted : (c : ℕ) (cs : List ℕ) → length (insert_sorted c cs) ≡ suc (length cs)
unfolding insert_sorted
length-insert_sorted c [] = refl
length-insert_sorted c (d ∷ ds) = ground (arith, length-insert_sorted c ds)

length-sort : (cs : List ℕ) → length (sort cs) ≡ length cs
unfolding sort
length-sort [] = refl
length-sort (c ∷ cs) = length-insert_sorted c (sort cs) ∙ ap suc (length-sort cs)

contains-get_or : (cs : List ℕ) (i : ℕ) → i < length cs → contains (get_or cs i 0) cs ≡ true
contains-get_or [] i h = absurd (omega arith)
contains-get_or (c ∷ cs) zero h = ground arith
contains-get_or (c ∷ cs) (suc i) h = ground (arith, contains-get_or cs i (omega arith))

All-get_or : (c : ℕ) (cs : List ℕ) (j : ℕ) → j < length cs → All (λ d. c ≤ d) cs → c ≤ get_or cs j 0
All-get_or c [] j h a = absurd (omega arith)
All-get_or c (d ∷ ds) zero h a = a.0
All-get_or c (d ∷ ds) (suc j) h a = All-get_or c ds j (omega arith) a.1

Ascending-get_or :
    (cs : List ℕ) (i j : ℕ) → Ascending cs → i ≤ j → j < length cs → get_or cs i 0 ≤ get_or cs j 0
Ascending-get_or [] i j a h k = absurd (omega arith)
Ascending-get_or (c ∷ cs) zero zero a h k = omega arith
Ascending-get_or (c ∷ cs) zero (suc j) a h k = All-get_or c cs j (omega arith) a.0
Ascending-get_or (c ∷ cs) (suc i) zero a h k = absurd (omega arith)
Ascending-get_or (c ∷ cs) (suc i) (suc j) a h k =
    Ascending-get_or cs i j a.1 (omega arith) (omega arith)

-- The written slots.
abbrev pub filled : LatencyRing → List ℕ
filled r = take (min r.count (length r.slots)) r.slots

-- There are no percentiles exactly before the first sample. From then on, in a ring with slots, both
-- are values of written slots and the median is at most the 99th percentile.
percentiles_sampled :
    (r : LatencyRing) (p50 p99 : ℕ)
    → 0 < length r.slots
    → percentiles r ≡ some (p50, p99)
    → (0 < r.count)
      × (p50 ≤ p99)
      × (contains p50 (filled r) ≡ true)
      × (contains p99 (filled r) ≡ true)
unfolding percentiles pct
percentiles_sampled r p50 p99 h e =
    let v = sort (filled r) in
    let n : length v ≡ min r.count (length r.slots) =
      length-sort (filled r) ∙ length-take (min r.count (length r.slots)) r.slots ∙ (omega arith) in
    let count : 0 < r.count = ground arith in
    let i = min ((length v * 50 + 99) / 100 - 1) (length v - 1) in
    let j = min ((length v * 99 + 99) / 100 - 1) (length v - 1) in
    let ip : get_or v i 0 ≡ p50 = ground arith in
    let jp : get_or v j 0 ≡ p99 = ground arith in
    (
      count,
      rw (← ip, ← jp)
          (Ascending-get_or v i j (sort-Ascending (filled r)) (omega arith) (omega (arith, n))),
      rw (← ip)
          (sym (contains-sort (get_or v i 0) (filled r)) ∙ contains-get_or v i (omega (arith, n))),
      rw (← jp)
          (sym (contains-sort (get_or v j 0) (filled r)) ∙ contains-get_or v j (omega (arith, n))),
    )
