-- ===== src/Graph/Walks.antt =====
-- What the breadth-first search reports: walks, and no node twice.
use m3_core_rs.Base.{
  ℕ, zero, suc, ◌+◌, ◌≤◌, ◌≡◌, refl, ◌∙◌, inl, inr, true, false, List, [], ◌∷◌, ◌++◌, arith, ◌==◌,
  if◌then◌else◌, Bool-cases, All, All-append,
}
use m3_core_rs.Graph.{has, visit, bfs}

abbrev pub times : ℕ → List (ℕ × ℕ) → ℕ
times n [] = 0
times n ((m, d) ∷ out) = (if n == m then 1 else 0) + times n out

unfoldable pub unseen : ℕ → List ℕ → ℕ
unseen n seen = if has n seen then 0 else 1

pub times-append : (n : ℕ) (xs ys : List (ℕ × ℕ)) → times n (xs ++ ys) ≡ times n xs + times n ys
times-append n [] ys = omega arith
times-append n ((m, d) ∷ xs) ys = omega (arith, times-append n xs ys)

queued :
    (n nbr dist : ℕ) (seen : List ℕ) (queue : List (ℕ × ℕ))
    → has nbr seen ≡ false
    → times n (queue ++ (nbr, dist) ∷ []) + unseen n (nbr ∷ seen) ≡ times n queue + unseen n seen
unfolding unseen has
queued n nbr dist seen queue h = ground (arith, times-append n queue ((nbr, dist) ∷ []))

-- A visit moves nodes from the unseen ones to the queue.
pub visit-times :
    (n : ℕ) (nbrs : List ℕ) (dist : ℕ) (seen : List ℕ) (queue : List (ℕ × ℕ))
    → let (seen', queue') = visit nbrs dist seen queue in
      times n queue' + unseen n seen' ≡ times n queue + unseen n seen
unfolding visit
visit-times n [] dist seen queue = refl
visit-times n (nbr ∷ nbrs) dist seen queue = elim (Bool-cases (has nbr seen)) [
  | inl again ↦ rw again (visit-times n nbrs dist seen queue)
  | inr first ↦ rw first (
      visit-times n nbrs dist (nbr ∷ seen) (queue ++ (nbr, dist) ∷ [])
      ∙ queued n nbr dist seen queue first)
]

pub has_later : (c x : ℕ) (xs : List ℕ) → has c xs ≡ true → has c (x ∷ xs) ≡ true
unfolding has
has_later c x xs h = ground (arith, h)

pub has_first : (c : ℕ) (xs : List ℕ) → has c (c ∷ xs) ≡ true
unfolding has
has_first c xs = ground arith

module _ (targets : ℕ → List ℕ) where
  -- A walk of so many edges.
  abbrev pub Walk : ℕ → ℕ → ℕ → Type 0
  Walk start c zero = start ≡ c
  Walk start c (suc n) = (b : ℕ) × Walk start b n × (has c (targets b) ≡ true)

  abbrev pub Walked : ℕ → ℕ → ℕ × ℕ → Type 0
  Walked start max_hops (c, dist) = Walk start c dist × (dist ≤ max_hops)

  visit-Walked :
      (start max_hops idx dist : ℕ) (nbrs seen : List ℕ) (queue : List (ℕ × ℕ))
      → ((c : ℕ) → has c nbrs ≡ true → Walked start max_hops (c, dist + 1))
      → All (Walked start max_hops) queue
      → All (Walked start max_hops) (visit nbrs (dist + 1) seen queue).1
  unfolding visit
  visit-Walked start max_hops idx dist [] seen queue h a = a
  visit-Walked start max_hops idx dist (nbr ∷ nbrs) seen queue h a =
      let later : (c : ℕ) → has c nbrs ≡ true → Walked start max_hops (c, dist + 1) =
        λ c g. h c (has_later c nbr nbrs g) in
      elim (Bool-cases (has nbr seen)) [
        | inl again ↦ rw again (visit-Walked start max_hops idx dist nbrs seen queue later a)
        | inr first ↦ rw first (
            visit-Walked start max_hops idx dist nbrs (nbr ∷ seen) (queue ++ (nbr, dist + 1) ∷ [])
              later
              (All-append (Walked start max_hops) queue ((nbr, dist + 1) ∷ []) a
                (h nbr (has_first nbr nbrs), tt)))
      ]

  next_walk :
      (start max_hops idx dist : ℕ)
      → Walked start max_hops (idx, dist)
      → (dist == max_hops) ≡ false
      → (c : ℕ) → has c (targets idx) ≡ true
      → Walked start max_hops (c, dist + 1)
  next_walk start max_hops idx dist w more c h =
      let n : suc dist ≡ dist + 1 = omega arith in (rw (← n) (idx, w.0, h), ground arith)

  pub bfs-Walked :
      (start max_hops f : ℕ) (seen : List ℕ) (queue : List (ℕ × ℕ))
      → All (Walked start max_hops) queue
      → All (Walked start max_hops) (bfs targets f max_hops seen queue)
        × ((n : ℕ) → times n (bfs targets f max_hops seen queue) ≤ times n queue + unseen n seen)
  unfolding bfs
  bfs-Walked start max_hops zero seen queue a = (tt, λ n. omega arith)
  bfs-Walked start max_hops (suc f) seen [] a = (tt, λ n. omega arith)
  bfs-Walked start max_hops (suc f) seen ((idx, dist) ∷ queue) a =
      elim (Bool-cases (dist == max_hops)) [
        | inl last ↦
            let (w, t) = bfs-Walked start max_hops f seen queue a.1 in
            rw last ((a.0, w), λ n. omega (arith, t n))
        | inr more ↦
            let next = next_walk start max_hops idx dist a.0 more in
            let (w, t) =
              bfs-Walked start max_hops f (visit (targets idx) (dist + 1) seen queue).0
                (visit (targets idx) (dist + 1) seen queue).1
                (visit-Walked start max_hops idx dist (targets idx) seen queue next a.1) in
            rw more
              ((a.0, w), λ n. omega (arith, t n, visit-times n (targets idx) (dist + 1) seen queue))
      ]
