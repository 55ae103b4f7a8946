-- ===== src/Graph/Visits.antt =====
-- What one visit of a node's targets does to the queue and to the unseen nodes.
use m3_core_rs.Base.{
  ℕ, zero, suc, ◌+◌, ◌≤◌, ◌<◌, ◌≡◌, refl, ◌∙◌, inl, inr, true, false, ◌||◌, List, [], ◌∷◌, ◌++◌,
  arith, ◌==◌, Bool-cases, All, length, length-append,
}
use m3_core_rs.Graph.{has, visit}
use m3_core_rs.Graph.Walks.{times, times-append, unseen}

-- How many of the nodes below a bound are unseen.
unfoldable pub count_unseen : ℕ → List ℕ → ℕ
count_unseen zero seen = 0
count_unseen (suc n) seen = unseen n seen + count_unseen n seen

pub count_unseen_above :
    (n nbr : ℕ) (seen : List ℕ) → n ≤ nbr → count_unseen n (nbr ∷ seen) ≡ count_unseen n seen
unfolding count_unseen unseen has
count_unseen_above zero nbr seen h = refl
count_unseen_above (suc n) nbr seen h = ground (arith, count_unseen_above n nbr seen)

pub count_unseen_below :
    (n nbr : ℕ) (seen : List ℕ)
    → nbr < n
    → has nbr seen ≡ false
    → suc (count_unseen n (nbr ∷ seen)) ≡ count_unseen n seen
unfolding count_unseen unseen has
count_unseen_below zero nbr seen h u = absurd (omega arith)
count_unseen_below (suc n) nbr seen h u =
    ground (arith, count_unseen_below n nbr seen, count_unseen_above n nbr seen)

pub visit-size :
    (n : ℕ) (nbrs : List ℕ) (dist : ℕ) (seen : List ℕ) (queue : List (ℕ × ℕ))
    → All (λ c. c < n) nbrs
    → let (seen', queue') = visit nbrs dist seen queue in
      length queue' + count_unseen n seen' ≡ length queue + count_unseen n seen
unfolding visit
visit-size n [] dist seen queue b = refl
visit-size n (nbr ∷ nbrs) dist seen queue b = elim (Bool-cases (has nbr seen)) [
  | inl again ↦ rw again (visit-size n nbrs dist seen queue b.1)
  | inr first ↦ rw first (
      visit-size n nbrs dist (nbr ∷ seen) (queue ++ (nbr, dist) ∷ []) b.1
      ∙ omega
          (arith, length-append queue ((nbr, dist) ∷ []), count_unseen_below n nbr seen b.0 first))
]

pub marked_again :
    (c nbr : ℕ) (nbrs seen : List ℕ)
    → has nbr seen ≡ true
    → (has c (nbr ∷ nbrs) || has c seen) ≡ true
    → (has c nbrs || has c seen) ≡ true
unfolding has
marked_again c nbr nbrs seen again h = elim (Bool-cases (c == nbr)) [
  | inl same ↦
      let e : c ≡ nbr = ground arith in let s : has c seen ≡ true = rw e again in ground (arith, s)
  | inr other ↦ ground arith
]

pub marked_first :
    (c nbr : ℕ) (nbrs seen : List ℕ)
    → (has c (nbr ∷ nbrs) || has c seen) ≡ true
    → (has c nbrs || has c (nbr ∷ seen)) ≡ true
unfolding has
marked_first c nbr nbrs seen h = ground arith

pub visit-marks :
    (c : ℕ) (nbrs : List ℕ) (dist : ℕ) (seen : List ℕ) (queue : List (ℕ × ℕ))
    → (has c nbrs || has c seen) ≡ true
    → has c (visit nbrs dist seen queue).0 ≡ true
unfolding visit
visit-marks c [] dist seen queue h = h
visit-marks c (nbr ∷ nbrs) dist seen queue h = elim (Bool-cases (has nbr seen)) [
  | inl again ↦ rw again (visit-marks c nbrs dist seen queue (marked_again c nbr nbrs seen again h))
  | inr first ↦ rw first (
      visit-marks c nbrs dist (nbr ∷ seen) (queue ++ (nbr, dist) ∷ [])
        (marked_first c nbr nbrs seen h))
]

pub visit-grows :
    (c : ℕ) (nbrs : List ℕ) (dist : ℕ) (seen : List ℕ) (queue : List (ℕ × ℕ))
    → times c queue ≤ times c (visit nbrs dist seen queue).1
unfolding visit
visit-grows c [] dist seen queue = omega arith
visit-grows c (nbr ∷ nbrs) dist seen queue = elim (Bool-cases (has nbr seen)) [
  | inl again ↦ rw again (visit-grows c nbrs dist seen queue)
  | inr first ↦ rw first (
      omega (
        arith,
        visit-grows c nbrs dist (nbr ∷ seen) (queue ++ (nbr, dist) ∷ []),
        times-append c queue ((nbr, dist) ∷ []),
      ))
]

pub count_unseen-nil : (n : ℕ) → count_unseen n [] ≡ n
unfolding count_unseen unseen has
count_unseen-nil zero = refl
count_unseen-nil (suc n) = omega (arith, count_unseen-nil n)
