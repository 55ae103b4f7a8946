-- ===== src/Dispatcher/Queue/Buckets.antt =====
-- A job goes to the tightest bucket that holds it.
use m3_core_rs.Base.{
  get_elem?, ℕ, suc, ◌-◌, ◌≤◌, ◌<◌, min, ◌≡◌, refl, ap, ◌∙◌, ◌⊎◌, inl, inr, some, List, [], ◌∷◌,
  ltb, leb, length, All, arith, Bool-cases,
}
use m3_core_rs.Dispatcher.Queue.Totals.{length-insert_sorted}
use m3_core_rs.Dispatcher.Queue.{new, sort, insert_sorted, bucket_index, partition_point}

abbrev Ascending : List ℕ → Type 0
Ascending [] = Unit
Ascending (c ∷ cs) = All (λ d. c ≤ d) cs × Ascending cs

All-insert_sorted :
    (P : ℕ → Type 0) (c : ℕ) (cs : List ℕ) → P c → All P cs → All P (insert_sorted c cs)
unfolding insert_sorted
All-insert_sorted P c [] h a = (h, tt)
All-insert_sorted P c (d ∷ ds) h a = ground (arith, All-insert_sorted P c ds h a.1)

All-of_insert_sorted :
    (P : ℕ → Type 0) (c : ℕ) (cs : List ℕ) → All P (insert_sorted c cs) → P c × All P cs
unfolding insert_sorted
All-of_insert_sorted P c [] a = a
All-of_insert_sorted P c (d ∷ ds) a = elim (Bool-cases (leb c d)) [
  | inl le ↦ ground arith
  | inr gt ↦ ground (arith, All-of_insert_sorted P c ds)
]

All-le : (c d : ℕ) (ds : List ℕ) → c ≤ d → All (λ e. d ≤ e) ds → All (λ e. c ≤ e) ds
All-le c d [] h a = tt
All-le c d (e ∷ es) h a = (omega arith, All-le c d es h a.1)

insert_sorted-Ascending : (c : ℕ) (cs : List ℕ) → Ascending cs → Ascending (insert_sorted c cs)
unfolding insert_sorted
insert_sorted-Ascending c [] a = (tt, tt)
insert_sorted-Ascending c (d ∷ ds) a = elim (Bool-cases (leb c d)) [
  | inl le ↦ rw le ((ground arith, All-le c d ds (ground arith) a.0), a)
  | inr gt ↦
      rw gt
        (All-insert_sorted (λ e. d ≤ e) c ds (ground arith) a.0, insert_sorted-Ascending c ds a.1)
]

sort-Ascending : (cs : List ℕ) → Ascending (sort cs)
unfolding sort
sort-Ascending [] = tt
sort-Ascending (c ∷ cs) = insert_sorted-Ascending c (sort cs) (sort-Ascending cs)

All-of_sort : (P : ℕ → Type 0) (cs : List ℕ) → All P (sort cs) → All P cs
unfolding sort
All-of_sort P [] a = tt
All-of_sort P (c ∷ cs) a =
    let (h, rest) = All-of_insert_sorted P c (sort cs) a in (h, All-of_sort P cs rest)

-- How a ceiling `c` serves a length among the ceilings of a list.
abbrev pub Tightest : ℕ → ℕ → List ℕ → Type 0
Tightest token_len c cs =
    ((token_len ≤ c) × All (λ d. (d < token_len) ⊎ (c ≤ d)) cs) ⊎ All (λ d. d < token_len) cs

All-sort : (P : ℕ → Type 0) (cs : List ℕ) → All P cs → All P (sort cs)
unfolding sort
All-sort P [] a = tt
All-sort P (c ∷ cs) a = All-insert_sorted P c (sort cs) a.0 (All-sort P cs a.1)

All-large : (t c : ℕ) (cs : List ℕ) → All (λ d. c ≤ d) cs → All (λ d. (d < t) ⊎ (c ≤ d)) cs
All-large t c [] a = tt
All-large t c (d ∷ ds) a = (inr a.0, All-large t c ds a.1)

-- The index that `bucket_index` picks among ascending ceilings.
found :
    (t : ℕ) (cs : List ℕ)
    → Ascending cs
    → 0 < length cs
    → (c : ℕ) × (get_elem? cs (min (partition_point t cs) (length cs - 1)) ≡ some c)
      × Tightest t c cs
unfolding partition_point
found t [] a h = absurd (omega arith)
found t (c ∷ []) a h = elim (Bool-cases (ltb c t)) [
  | inl less ↦ (c, rw less refl, inr (ground arith, tt))
  | inr more ↦ (c, rw more refl, inl (ground arith, (inr (omega arith), tt)))
]
found t (c ∷ d ∷ ds) a h = elim (Bool-cases (ltb c t)) [
  | inl less ↦
      let (e, at_e, tight) = found t (d ∷ ds) a.1 (omega arith) in
      let i = partition_point t (d ∷ ds) in
      let next : min (suc i) (length (c ∷ d ∷ ds) - 1) ≡ suc (min i (length (d ∷ ds) - 1)) =
        omega arith in
      (e, rw less (ap (get_elem? (c ∷ d ∷ ds)) next ∙ at_e), ground (arith, tight))
  | inr more ↦
      let first : min 0 (length (c ∷ d ∷ ds) - 1) ≡ 0 = omega arith in
      (
        c,
        rw more (ap (get_elem? (c ∷ d ∷ ds)) first),
        inl (ground arith, (inr (omega arith), All-large t c (d ∷ ds) a.0)),
      )
]

Tightest_of_sort : (t c : ℕ) (cs : List ℕ) → Tightest t c (sort cs) → Tightest t c cs
Tightest_of_sort t c cs (inl (le, a)) = inl (le, All-of_sort _ cs a)
Tightest_of_sort t c cs (inr a) = inr (All-of_sort _ cs a)

length-sort : (cs : List ℕ) → length (sort cs) ≡ length cs
unfolding sort
length-sort [] = refl
length-sort (c ∷ cs) = length-insert_sorted c (sort cs) ∙ ap suc (length-sort cs)

-- A queue made for some ceilings, in any order, gives a job the bucket of a ceiling that holds its
-- length while every smaller ceiling is too small; the last bucket where every ceiling is too small.
bucket_index-Tightest :
    (token_len ceiling : ℕ) (ceilings : List ℕ)
    → let b = (new (ceiling ∷ ceilings)).buckets in
      (c : ℕ) × (get_elem? b (bucket_index b token_len) ≡ some c)
      × Tightest token_len c (ceiling ∷ ceilings)
unfolding new bucket_index
bucket_index-Tightest t ceiling ceilings =
    let cs = ceiling ∷ ceilings in
    let (c, e, tight) = found t (sort cs) (sort-Ascending cs) (omega (arith, length-sort cs)) in
    (c, e, Tightest_of_sort t c cs tight)
