-- ===== src/Graph/Closure.antt =====
-- What the breadth-first search reaches, given fuel for the nodes that it can meet.
use m3_core_rs.Base.{
  ℕ, zero, suc, ◌+◌, ◌≤◌, ◌<◌, ◌≡◌, refl, sym, inl, inr, true, false, List, [], ◌∷◌, arith, ◌==◌,
  if◌then◌else◌, Bool-cases, All, length,
}
use mathlib.Core.Path.{subst}
use m3_core_rs.Graph.{has, visit, bfs}
use m3_core_rs.Graph.Walks.{times, unseen, visit-times, Walked, bfs-Walked}
use m3_core_rs.Graph.Visits.{
  count_unseen, count_unseen_below, visit-size, visit-marks, visit-grows, count_unseen-nil,
}

module _ (targets : ℕ → List ℕ) where
  -- Below the limit of hops, every target of a node has been reported.
  abbrev pub Closed : (ℕ → ℕ) → ℕ → ℕ × ℕ → Type 0
  Closed reported max_hops (idx, dist) =
      (dist == max_hops) ≡ false → (c : ℕ) → has c (targets idx) ≡ true → 1 ≤ reported c

module _ (targets : ℕ → List ℕ) (n : ℕ) (bounded : (idx : ℕ) → All (λ c. c < n) (targets idx)) where
  -- Every queued node is reported.
  bfs-drains :
      (f max_hops c : ℕ) (seen : List ℕ) (queue : List (ℕ × ℕ))
      → length queue + count_unseen n seen ≤ f
      → times c queue ≤ times c (bfs targets f max_hops seen queue)
  unfolding bfs
  bfs-drains zero max_hops c seen [] h = omega arith
  bfs-drains zero max_hops c seen (q ∷ queue) h = absurd (omega arith)
  bfs-drains (suc f) max_hops c seen [] h = omega arith
  bfs-drains (suc f) max_hops c seen ((idx, dist) ∷ queue) h =
      elim (Bool-cases (dist == max_hops)) [
        | inl last ↦ rw last (omega (arith, bfs-drains f max_hops c seen queue (omega arith)))
        | inr more ↦
            let size = visit-size n (targets idx) (dist + 1) seen queue (bounded idx) in
            let (seen', queue') = visit (targets idx) (dist + 1) seen queue in
            rw more (
              omega (
                arith,
                visit-grows c (targets idx) (dist + 1) seen queue,
                bfs-drains f max_hops c seen' queue' (omega (arith, size)),
              ))
      ]

  All-Closed :
      (r s : ℕ → ℕ) (max_hops : ℕ) (out : List (ℕ × ℕ))
      → ((c : ℕ) → r c ≡ s c)
      → All (Closed targets r max_hops) out
      → All (Closed targets s max_hops) out
  All-Closed r s max_hops [] e a = tt
  All-Closed r s max_hops ((idx, dist) ∷ out) e a =
      (λ below c h. omega (arith, e c, a.0 below c h), All-Closed r s max_hops out e a.1)

  seen_next :
      (prior : ℕ → ℕ) (idx dist : ℕ) (seen : List ℕ) (queue : List (ℕ × ℕ)) (c : ℕ)
      → (has c seen ≡ true → 1 ≤ prior c + times c ((idx, dist) ∷ queue))
      → has c (visit (targets idx) (dist + 1) seen queue).0 ≡ true
      → 1
        ≤ prior c
          + (if c == idx then 1 else 0)
          + times c (visit (targets idx) (dist + 1) seen queue).1
  unfolding unseen
  seen_next prior idx dist seen queue c p h =
      let moved = visit-times c (targets idx) (dist + 1) seen queue in
      elim (Bool-cases (has c seen)) [
        | inl old ↦ omega (arith, p old, visit-grows c (targets idx) (dist + 1) seen queue)
        | inr new ↦
            let marked : unseen c (visit (targets idx) (dist + 1) seen queue).0 ≡ 0 = rw h refl in
            let fresh : unseen c seen ≡ 1 = rw new refl in omega (arith, moved, marked, fresh)
      ]

  bfs-last :
      (f max_hops idx dist : ℕ) (seen : List ℕ) (queue : List (ℕ × ℕ))
      → (dist == max_hops) ≡ true
      → bfs targets (suc f) max_hops seen ((idx, dist) ∷ queue)
        ≡ (idx, dist) ∷ bfs targets f max_hops seen queue
  unfolding bfs
  bfs-last f max_hops idx dist seen queue h = rw h refl

  bfs-more :
      (f max_hops idx dist : ℕ) (seen : List ℕ) (queue : List (ℕ × ℕ))
      → (dist == max_hops) ≡ false
      → let r = visit (targets idx) (dist + 1) seen queue in
        bfs targets (suc f) max_hops seen ((idx, dist) ∷ queue)
        ≡ (idx, dist) ∷ bfs targets f max_hops r.0 r.1
  unfolding bfs
  bfs-more f max_hops idx dist seen queue h = rw h refl

  extended :
      (prior : ℕ → ℕ) (max_hops idx dist : ℕ) (out : List (ℕ × ℕ))
      → let after = λ (c : ℕ). prior c + (if c == idx then 1 else 0) + times c out in
        Closed targets after max_hops (idx, dist)
        → All (Closed targets after max_hops) out
        → All
            (Closed targets (λ c. prior c + times c ((idx, dist) ∷ out)) max_hops)
            ((idx, dist) ∷ out)
  extended prior max_hops idx dist out head rest =
      All-Closed (λ c. prior c + (if c == idx then 1 else 0) + times c out)
        (λ c. prior c + times c ((idx, dist) ∷ out)) max_hops ((idx, dist) ∷ out) (λ c. omega arith)
        (head, rest)

  bfs-Closed :
      (f max_hops : ℕ) (seen : List ℕ) (queue : List (ℕ × ℕ)) (prior : ℕ → ℕ)
      → length queue + count_unseen n seen ≤ f
      → ((c : ℕ) → has c seen ≡ true → 1 ≤ prior c + times c queue)
      → let out = bfs targets f max_hops seen queue in
        All (Closed targets (λ c. prior c + times c out) max_hops) out
  unfolding bfs
  bfs-Closed zero max_hops seen queue prior h p = tt
  bfs-Closed (suc f) max_hops seen [] prior h p = tt
  bfs-Closed (suc f) max_hops seen ((idx, dist) ∷ queue) prior h p =
      let prior' : ℕ → ℕ = λ c. prior c + (if c == idx then 1 else 0) in
      let Goal : List (ℕ × ℕ) → Type 0 =
        λ out. All (Closed targets (λ c. prior c + times c out) max_hops) out in
      elim (Bool-cases (dist == max_hops)) [
        | inl last ↦ subst Goal (sym (bfs-last f max_hops idx dist seen queue last)) (
            extended prior max_hops idx dist (bfs targets f max_hops seen queue)
              (λ below. absurd (ground (arith, last, below)))
              (bfs-Closed f max_hops seen queue prior' (omega arith) (λ c g. omega (arith, p c g))))
        | inr more ↦
            let r = visit (targets idx) (dist + 1) seen queue in
            let size = visit-size n (targets idx) (dist + 1) seen queue (bounded idx) in
            let next =
              λ (c : ℕ) (g : has c r.0 ≡ true). seen_next prior idx dist seen queue c (p c) g in
            subst Goal (sym (bfs-more f max_hops idx dist seen queue more)) (
              extended prior max_hops idx dist (bfs targets f max_hops r.0 r.1)
                (λ below c g.
                  let marked =
                    visit-marks c (targets idx) (dist + 1) seen queue (ground (arith, g)) in
                  omega
                    (arith, next c marked, bfs-drains f max_hops c r.0 r.1 (omega (arith, size))))
                (bfs-Closed f max_hops r.0 r.1 prior' (omega (arith, size)) next))
      ]

start_size : (n start : ℕ) → start < n → 1 + count_unseen n (start ∷ []) ≡ n
unfolding has
start_size n start h = omega (arith, count_unseen_below n start [] h refl, count_unseen-nil n)

start_once : (c start : ℕ) → times c ((start, 0) ∷ []) + unseen c (start ∷ []) ≤ 1
unfolding unseen has
start_once c start = ground arith

start_seen : (c start : ℕ) → has c (start ∷ []) ≡ true → 1 ≤ 0 + times c ((start, 0) ∷ [])
unfolding has
start_seen c start h = ground arith

start_queued : (start : ℕ) → times start ((start, 0) ∷ []) ≡ 1
start_queued start = ground arith

-- In a graph of `n` nodes, with fuel for each of them, the search reports the start, no node twice,
-- each node with the length of a walk to it that is within the limit of hops, and with every node
-- below that limit all the targets of its edges.
pub bfs-explores :
    (targets : ℕ → List ℕ) (n f max_hops start : ℕ)
    → ((idx : ℕ) → All (λ c. c < n) (targets idx))
    → start < n
    → n ≤ f
    → let out = bfs targets f max_hops (start ∷ []) ((start, 0) ∷ []) in
      All (Walked targets start max_hops) out
      × ((c : ℕ) → times c out ≤ 1)
      × (times start out ≡ 1)
      × All (Closed targets (λ c. times c out) max_hops) out
bfs-explores targets n f max_hops start bounded lt fuel =
    let out = bfs targets f max_hops (start ∷ []) ((start, 0) ∷ []) in
    let room : 1 + count_unseen n (start ∷ []) ≤ f = omega (arith, start_size n start lt) in
    let (walked, once) =
      bfs-Walked targets start max_hops f (start ∷ []) ((start, 0) ∷ [])
        ((refl, omega arith), tt) in
    let at_most : (c : ℕ) → times c out ≤ 1 = λ c. omega (arith, once c, start_once c start) in
    let drained =
      bfs-drains targets n bounded f max_hops start (start ∷ []) ((start, 0) ∷ []) room in
    (
      walked,
      at_most,
      omega (arith, at_most start, drained, start_queued start),
      All-Closed targets n bounded (λ c. 0 + times c out) (λ c. times c out) max_hops out
          (λ c. omega arith)
          (bfs-Closed targets n bounded f max_hops (start ∷ []) ((start, 0) ∷ []) (λ c. 0) room
            (λ c h. start_seen c start h)),
    )
