-- ===== src/Dispatchd/Hub/Accounts/Delivery.antt =====
-- What a take delivers, against everything that was ever rung.
use m3_core_rs.Base.{
  ℕ, ◌+◌, ◌≤◌, ◌<◌, ◌≡◌, refl, sym, ap, ◌∙◌, inl, inr, true, Option, none, some, List, [], ◌∷◌,
  ◌++◌, Text, length, lookup, insert, lookup-insert, lookup-remove, text_eq_refl, arith, map, any,
  is_empty, not, ◌&&◌, ◌≢◌, Option-cases, keep-append, length-append,
}
use mathlib.Core.Path.{subst}
use m3_core_rs.Dispatchd.Addressing.{sees}
use m3_core_rs.Dispatchd.Keys.{key, collect}
use m3_core_rs.Dispatchd.Hub.{
  Ring, State, Hub, Wake, mail, resync, timeout, matching, count_of, resync_if_lost, take,
  take_known, collected, last_seq, origins_of, ring, unheard,
}
use m3_core_rs.Dispatchd.Hub.Trimming.{rings_of, ring-cursors}
use m3_core_rs.Dispatchd.Hub.Accounts.Order.{matching_past, matching-last_seq}
use m3_core_rs.Dispatchd.Hub.Accounts.Invariant.{World, Inv, resync_if_lost-cases, history_in_log}
use m3_core_rs.Dispatchd.Hub.Accounts.Reached.{
  Plain, matching-readers_of, Reach, next, rings, Reach-Inv, log_in_order,
}

-- What a take answers, against everything that was ever rung.
pub data Answer (w : World) (readers : List Text) (c : ℕ) : Wake → Type 0 where
  tells_all :
      {a : Wake} (r : Ring) (rs : List Ring)
      → matching c readers w.rung ≡ r ∷ rs
      → a
        ≡ mail
            (length (r ∷ rs))
            (collect (map (λ q. q.recipient) (r ∷ rs)))
            (collect (origins_of (r ∷ rs)))
      → Answer w readers c a
  says_lost :
      {a : Wake}
      → length (matching c readers w.hub.log) < length (matching c readers w.rung)
      → a ≡ resync
      → Answer w readers c a
  nothing_rung : {a : Wake} → matching c readers w.rung ≡ [] → a ≡ timeout → Answer w readers c a

collected-Answer :
    (w : World) (readers : List Text) (k : Text) (c : ℕ) (rs : List Ring)
    → matching c readers w.rung ≡ rs
    → Answer w readers c (collected k c rs w.hub).1
unfolding collected
collected-Answer w readers k c [] m = nothing_rung m refl
collected-Answer w readers k c (r ∷ rs) m = tells_all r rs m refl

module _ (w : World) (v : Inv w) (readers : List Text) (c : ℕ) (p : Plain readers)
    (e : lookup (key readers) w.hub.cursors ≡ some c) where
  all_in_log :
      lookup (key readers) w.hub.lost ≡ none
      → matching c readers w.rung ≡ matching c readers w.hub.log
  all_in_log l =
      sym (matching-readers_of c readers w.rung p)
      ∙ history_in_log w v (key readers) c e l
      ∙ matching-readers_of c readers w.hub.log p

  lost_shorter :
      (n : ℕ)
      → lookup (key readers) w.hub.lost ≡ some n
      → length (matching c readers w.hub.log) < length (matching c readers w.rung)
  lost_shorter n l = ground (
    arith,
    ap length (matching-readers_of c readers w.rung p),
    ap length (matching-readers_of c readers w.hub.log p),
    v.accounted (key readers) c e,
    v.marked (key readers) n l,
  )

  take_known-Answer :
      (o : Option State)
      → resync_if_lost w.hub (key readers) ≡ o
      → Answer w readers c (take_known (key readers) readers w.hub o).1
  unfolding take_known
  take_known-Answer (some st) f = elim (resync_if_lost-cases w.hub (key readers)) [
    | inl (_, g) ↦ cc
    | inr (n, l, _) ↦ says_lost (lost_shorter n l) refl
  ]
  take_known-Answer none f = elim (resync_if_lost-cases w.hub (key readers)) [
    | inr (n, _, g) ↦ cc
    | inl (l, _) ↦ rw e (collected-Answer w readers (key readers) c _ (all_in_log l))
  ]

-- In every reached world, a take for a registered reader set whose ids have no newline, with cursor
-- `c`, tells of exactly the rings that were ever committed behind the cursor for its readers: their
-- count, recipients and origins. Only where some of them left the log unheard it answers resync instead, and timeout only
-- where there is none.
pub take-Answer :
    (h : Hub) (w : World) (readers : List Text) (c : ℕ)
    → Reach h w
    → Plain readers
    → lookup (key readers) w.hub.cursors ≡ some c
    → Answer w readers c (take (key readers) readers w.hub).1
unfolding take
take-Answer h w readers c r p e =
    take_known-Answer w (Reach-Inv h w r) readers c p e (resync_if_lost w.hub (key readers)) refl

-- A reader set is registered, and has nothing left to hear.
abbrev pub Quiet : World → List Text → Type 0
Quiet w readers =
    (c : ℕ) × (lookup (key readers) w.hub.cursors ≡ some c)
    × (matching c readers w.rung ≡ [])
    × (lookup (key readers) w.hub.lost ≡ none)

-- What a take under the key finds nothing in.
Emptied : Text → List Text → State → Type 0
Emptied k readers st =
    (lookup k st.lost ≡ none) × (matching (count_of k st.cursors) readers st.log ≡ [])

take_of_Emptied :
    (k : Text) (readers : List Text) (st : State)
    → Emptied k readers st
    → take k readers st ≡ (st, timeout)
unfolding Emptied take resync_if_lost take_known collected
take_of_Emptied k readers st (l, m) = rw (l, resync_if_lost) (rw m refl)

cursor-le : (w : World) (v : Inv w) (k : Text) → count_of k w.hub.cursors ≤ w.hub.seq
cursor-le w v k = elim (Option-cases (lookup k w.hub.cursors)) [
  | inl e ↦ rw e (omega arith)
  | inr (c, e) ↦ rw e (v.behind k c e)
]

collected-Emptied :
    (w : World) (v : Inv w) (k : Text) (readers : List Text) (c : ℕ) (rs : List Ring)
    → lookup k w.hub.lost ≡ none
    → count_of k w.hub.cursors ≡ c
    → matching c readers w.hub.log ≡ rs
    → Emptied k readers (collected k c rs w.hub).0
unfolding Emptied collected
collected-Emptied w v k readers c [] l e m = (l, rw e m)
collected-Emptied w v k readers c (r ∷ rs) l e m =
    let at_last : count_of k (insert k (last_seq c (r ∷ rs)) w.hub.cursors) ≡ last_seq c (r ∷ rs) =
      ground (arith, lookup-insert k k (last_seq c (r ∷ rs)) w.hub.cursors, text_eq_refl k) in
    (
      l,
      rw at_last (
          subst (λ m'. matching (last_seq c m') readers w.hub.log ≡ []) m
            (matching-last_seq readers c 0 w.hub.seq w.hub.log (log_in_order w v)
              (subst (λ d. d ≤ w.hub.seq) e (cursor-le w v k)))),
    )

take-Emptied :
    (w : World) (v : Inv w) (k : Text) (readers : List Text)
    → Emptied k readers (take k readers w.hub).0
unfolding Emptied take take_known
take-Emptied w v k readers = elim (resync_if_lost-cases w.hub k) [
  | inl (l, f) ↦ rw f (unfold Emptied in collected-Emptied w v k readers _ _ l refl refl)
  | inr (n, l, f) ↦
      let at_last : count_of k (insert k w.hub.seq w.hub.cursors) ≡ w.hub.seq =
        ground (arith, lookup-insert k k w.hub.seq w.hub.cursors, text_eq_refl k) in
      rw f (
        ground (arith, lookup-remove k k w.hub.lost, text_eq_refl k),
        rw at_last (
            matching_past readers w.hub.seq 0 w.hub.seq w.hub.log (log_in_order w v) (omega arith)),
      )
]

-- One wake for a batch: in a reached world, whatever a take answers and whichever the readers are, a
-- second take with nothing rung in between answers timeout and changes nothing.
pub take-take :
    (h : Hub) (w : World) (readers : List Text)
    → Reach h w
    → let st = (take (key readers) readers w.hub).0 in take (key readers) readers st ≡ (st, timeout)
take-take h w readers r =
    take_of_Emptied (key readers) readers _ (take-Emptied w (Reach-Inv h w r) (key readers) readers)

rings_of-heard :
    (readers : List Text) (c : ℕ) (origin : Option Text) (now seq : ℕ) (ts : List Text)
    → c ≤ seq
    → any (λ t. not (is_empty t) && any (λ rd. sees rd t) readers) ts ≡ true
    → 0 < length (matching c readers (rings_of origin now seq ts))
unfolding rings_of
rings_of-heard readers c origin now seq [] h a = cc
rings_of-heard readers c origin now seq ([] ∷ ts) h a =
    rings_of-heard readers c origin now seq ts h a
rings_of-heard readers c origin now seq ((x ∷ t) ∷ ts) h a =
    ground (arith, rings_of-heard readers c origin now (seq + 1) ts)

-- A ring is heard: when, in a reached world, a registered reader set whose ids have no newline sees
-- one of the non-empty recipients of a ring, a take right after that ring does not answer timeout,
-- whatever the ring trimmed.
pub ring_is_heard :
    (h : Hub) (w : World) (readers : List Text) (c now : ℕ) (recipients : List Text)
    (origin : Option Text)
    → Reach h w
    → Plain readers
    → lookup (key readers) w.hub.cursors ≡ some c
    → any (λ t. not (is_empty t) && any (λ rd. sees rd t) readers) recipients ≡ true
    → (take (key readers) readers (ring h now recipients origin w.hub).0).1 ≢ timeout
ring_is_heard h w readers c now recipients origin r p e a = elim answer [
  | tells_all q qs m t ↦ λ f. cc
  | says_lost m t ↦ λ f. cc
  | nothing_rung m t ↦ λ f. omega (
    arith,
    rings_of-heard readers c origin now w.hub.seq recipients (v.behind (key readers) c e) a,
    ap length m,
    ap length (keep-append (unheard c readers) w.rung (rings_of origin now w.hub.seq recipients)),
    length-append (matching c readers w.rung)
        (matching c readers (rings_of origin now w.hub.seq recipients)),
  )
]
  where
    v : Inv w
    v = Reach-Inv h w r

    after : World
    after = record {
      hub = (ring h now recipients origin w.hub).0;
      rung = w.rung ++ rings_of origin now w.hub.seq recipients;
    }

    answer : Answer after readers c (take (key readers) readers after.hub).1
    answer =
        take-Answer h after readers c (next r (rings now recipients origin refl)) p
          (ring-cursors h now recipients origin w.hub (key readers) ∙ e)
