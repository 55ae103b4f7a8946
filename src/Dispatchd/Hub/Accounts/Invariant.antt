-- ===== src/Dispatchd/Hub/Accounts/Invariant.antt =====
-- The account of the rings that each reader set has not heard of, and that every section of the
-- hub keeps it.
use m3_core_rs.Base.{
  ℕ, ◌+◌, ◌≤◌, ◌<◌, ◌≡◌, refl, sym, ap, ◌∙◌, ◌⊎◌, inl, inr, Option, none, some, List, [], ◌∷◌, ◌++◌,
  if◌then◌else◌, Text, length, lookup, insert, remove, lookup-insert, lookup-remove, Uniq,
  insert-Uniq, text_eq, text_eq_iff, keep-append, length-append, arith, Bool-cases, Option-cases,
}
use mathlib.Core.List.{append_assoc}
use mathlib.Core.Path.{subst}
use m3_core_rs.Dispatchd.Hub.{
  Ring, State, Hub, empty, count_of, matching, push_rings, trimmed, ring, resync_if_lost,
}
use m3_core_rs.Dispatchd.Hub.Trimming.{
  readers_of, trim-conserves, trim-unregistered, trim-positive, trim-suffix, rings_of,
  push_rings-rings_of,
}
use m3_core_rs.Dispatchd.Hub.Accounts.Order.{Asc, Asc-append, rings_of-Asc, matching_past}

-- The hub's state, and every ring that was ever committed to it.
pub record World : Type 0 where
  pub hub : State
  pub rung : List Ring

pub record Inv (w : World) : Type 0 where
  pub uniq : Uniq w.hub.cursors
  pub ordered : Asc 0 w.rung w.hub.seq
  pub dropped : List Ring
  pub suffix : w.rung ≡ dropped ++ w.hub.log
  pub behind : (k : Text) (c : ℕ) → lookup k w.hub.cursors ≡ some c → c ≤ w.hub.seq
  pub accounted :
      (k : Text) (c : ℕ)
      → lookup k w.hub.cursors ≡ some c
      → length (matching c (readers_of k) w.rung)
        ≡ length (matching c (readers_of k) w.hub.log) + count_of k w.hub.lost
  pub unmarked : (k : Text) → lookup k w.hub.cursors ≡ none → lookup k w.hub.lost ≡ none
  pub marked : (k : Text) (n : ℕ) → lookup k w.hub.lost ≡ some n → 0 < n

pub empty-Inv : Inv (record { hub = empty; rung = [] })
unfolding empty lookup
empty-Inv = record {
  uniq = tt;
  ordered = omega arith;
  dropped = [];
  suffix = refl;
  behind = λ k c e. cc;
  accounted = λ k c e. cc;
  unmarked = λ k e. refl;
  marked = λ k n e. cc;
}

-- A call of `ring` before its trimming.
pushed-Inv :
    (origin : Option Text) (now : ℕ) (ts : List Text) (w : World)
    → Inv w
    → Inv (record {
      hub = push_rings origin now ts w.hub;
      rung = w.rung ++ rings_of origin now w.hub.seq ts;
    })
pushed-Inv origin now ts w v =
    let new_rings = rings_of origin now w.hub.seq ts in
    rw (push_rings-rings_of origin now ts w.hub) (record {
      uniq = v.uniq;
      ordered =
          Asc-append 0 w.hub.seq _ w.rung new_rings v.ordered
            (rings_of-Asc origin now w.hub.seq ts);
      dropped = v.dropped;
      suffix = rw v.suffix (append_assoc v.dropped w.hub.log new_rings);
      behind = λ k c e. omega (arith, v.behind k c e);
      accounted = λ k c e.
          rw (keep-append _ w.rung new_rings, keep-append _ w.hub.log new_rings)
            (omega (
              arith,
              length-append {0} (matching c (readers_of k) w.rung)
                  (matching c (readers_of k) new_rings),
              length-append {0} (matching c (readers_of k) w.hub.log)
                  (matching c (readers_of k) new_rings),
              v.accounted k c e,
            ));
      unmarked = v.unmarked;
      marked = v.marked;
    })

marked_or_none :
    (w : World) → Inv w → (k : Text) → (lookup k w.hub.lost ≡ none) ⊎ (0 < count_of k w.hub.lost)
marked_or_none w v k = elim (Option-cases (lookup k w.hub.lost)) [
  | inl e ↦ inl e
  | inr (n, e) ↦ inr (rw e (v.marked k n e))
]

trimmed-Inv :
    (h : Hub) (now : ℕ) (w : World)
    → Inv w
    → Inv (record { hub = trimmed h now w.hub; rung = w.rung })
unfolding trimmed
trimmed-Inv h now w v =
    let st = w.hub in
    let (gone, split) = trim-suffix h now st.cursors v.uniq st.log st.lost in
    record {
      uniq = v.uniq;
      ordered = v.ordered;
      dropped = v.dropped ++ gone;
      suffix = v.suffix ∙ ap (◌++◌ v.dropped) split ∙ sym (append_assoc v.dropped gone _);
      behind = v.behind;
      accounted =
          λ k c e. v.accounted k c e ∙ trim-conserves h now st.cursors v.uniq st.log st.lost k c e;
      unmarked =
          λ k e. trim-unregistered h now st.cursors v.uniq st.log st.lost k e ∙ v.unmarked k e;
      marked = λ k n e.
          trim-positive h now st.cursors v.uniq st.log st.lost k n (marked_or_none w v k) e;
    }

pub ring-Inv :
    (h : Hub) (now : ℕ) (ts : List Text) (origin : Option Text) (w : World)
    → Inv w
    → Inv (record {
      hub = (ring h now ts origin w.hub).0;
      rung = w.rung ++ rings_of origin now w.hub.seq ts;
    })
unfolding ring
ring-Inv h now ts origin w v =
    trimmed-Inv h now
      (record {
        hub = push_rings origin now ts w.hub;
        rung = w.rung ++ rings_of origin now w.hub.seq ts;
      })
      (pushed-Inv origin now ts w v)

append-eq-nil_right {ℓ} : {A : Type ℓ} (xs ys : List A) → xs ++ ys ≡ [] → ys ≡ []
append-eq-nil_right [] ys e = e
append-eq-nil_right (x ∷ xs) ys e = cc

-- Nothing pending in the history is nothing pending in the log.
pub pending_log :
    (w : World) (v : Inv w) (c : ℕ) (readers : List Text)
    → matching c readers w.rung ≡ []
    → matching c readers w.hub.log ≡ []
pending_log w v c readers e =
    append-eq-nil_right (matching c readers v.dropped) _
      (sym (keep-append _ v.dropped w.hub.log) ∙ ap (matching c readers) (sym v.suffix) ∙ e)

-- A cursor at the last number agrees on history and log.
pub caught_up :
    (w : World) (v : Inv w) (readers : List Text)
    → matching w.hub.seq readers w.rung ≡ matching w.hub.seq readers w.hub.log
caught_up w v readers =
    let past = matching_past readers w.hub.seq 0 w.hub.seq w.rung v.ordered (omega arith) in
    past ∙ sym (pending_log w v w.hub.seq readers past)

module _ (w : World) (v : Inv w) (k : Text) (c' : ℕ) (le : c' ≤ w.hub.seq)
    (agree : matching c' (readers_of k) w.rung ≡ matching c' (readers_of k) w.hub.log)
    (lost' : List (Text × ℕ))
    (cleared : (j : Text)
      → lookup j lost' ≡ (if text_eq k j then none else lookup j w.hub.lost)) where
  moved_account :
      (j : Text) (c : ℕ)
      → lookup j (insert k c' w.hub.cursors) ≡ some c
      → (c ≤ w.hub.seq)
        × (length (matching c (readers_of j) w.rung)
            ≡ length (matching c (readers_of j) w.hub.log) + count_of j lost')
  moved_account j c e = elim (Bool-cases (text_eq k j)) [
    | inl same ↦
        let at_key : k ≡ j = (text_eq_iff k j).0 same in
        let moved : c' ≡ c = ground (arith, lookup-insert k j c' w.hub.cursors) in
        let same_rings : matching c (readers_of j) w.rung ≡ matching c (readers_of j) w.hub.log =
          rw (← at_key, ← moved) agree in
        (omega arith, ground (arith, cleared j, ap length same_rings))
    | inr other ↦
        let old : lookup j w.hub.cursors ≡ some c =
          ground (arith, lookup-insert k j c' w.hub.cursors) in
        (v.behind j c old, v.accounted j c old ∙ (ground (arith, cleared j)))
  ]

  pub moved-Inv :
      (ws wt : List (Text × ℕ))
      → Inv (record {
        hub = record w.hub {
          cursors = insert k c' w.hub.cursors;
          lost = lost';
          wakes = ws;
          waiting = wt;
        };
        rung = w.rung;
      })
  moved-Inv ws wt = record {
    uniq = insert-Uniq k c' w.hub.cursors v.uniq;
    ordered = v.ordered;
    dropped = v.dropped;
    suffix = v.suffix;
    behind = λ j c e. (moved_account j c e).0;
    accounted = λ j c e. (moved_account j c e).1;
    unmarked = λ j e. ground (arith, lookup-insert k j c' w.hub.cursors, cleared j, v.unmarked j);
    marked = λ j n e. ground (arith, cleared j, v.marked j n);
  }

-- The waits' counters are no part of the account.
pub counted-Inv :
    (w : World) (wt : List (Text × ℕ))
    → Inv w
    → Inv (record { hub = record w.hub { waiting = wt }; rung = w.rung })
counted-Inv w wt v = record {
  uniq = v.uniq;
  ordered = v.ordered;
  dropped = v.dropped;
  suffix = v.suffix;
  behind = v.behind;
  accounted = v.accounted;
  unmarked = v.unmarked;
  marked = v.marked;
}

pub resync_if_lost-cases :
    (st : State) (k : Text)
    → ((lookup k st.lost ≡ none) × (resync_if_lost st k ≡ none))
      ⊎ ((n : ℕ) × (lookup k st.lost ≡ some n)
          × (resync_if_lost st k
              ≡ some (record st { lost = remove k st.lost; cursors = insert k st.seq st.cursors })))
unfolding resync_if_lost
resync_if_lost-cases st k = elim (Option-cases (lookup k st.lost)) [
  | inl e ↦ inl (e, rw (e, resync_if_lost) refl)
  | inr (n, e) ↦ inr (n, e, rw (e, resync_if_lost) refl)
]

pub resynced-Inv :
    (w : World) (k : Text)
    → Inv w
    → Inv (record {
      hub = record w.hub { lost = remove k w.hub.lost; cursors = insert k w.hub.seq w.hub.cursors };
      rung = w.rung;
    })
resynced-Inv w k v =
    moved-Inv w v k w.hub.seq (omega arith) (caught_up w v (readers_of k)) (remove k w.hub.lost)
      (λ j. lookup-remove k j w.hub.lost) w.hub.wakes w.hub.waiting

pub recheck-Inv :
    (w : World) (k : Text) (st : State)
    → Inv w
    → resync_if_lost w.hub k ≡ some st
    → Inv (record { hub = st; rung = w.rung })
recheck-Inv w k st v e = elim (resync_if_lost-cases w.hub k) [
  | inl (_, f) ↦ cc
  | inr (n, _, f) ↦
      subst (λ s. Inv (record { hub = s; rung = w.rung })) (ground arith) (resynced-Inv w k v)
]

same_of_length {ℓ} :
    {A : Type ℓ} (xs ys zs : List A) → zs ≡ xs ++ ys → length zs ≡ length ys → zs ≡ ys
same_of_length [] ys zs e h = e
same_of_length (x ∷ xs) ys zs e h = absurd (omega (arith, ap length e, length-append xs ys, h))

-- Where nothing was lost, what a reader set has not heard of is in the log.
pub history_in_log :
    (w : World) (v : Inv w) (k : Text) (c : ℕ)
    → lookup k w.hub.cursors ≡ some c
    → lookup k w.hub.lost ≡ none
    → matching c (readers_of k) w.rung ≡ matching c (readers_of k) w.hub.log
history_in_log w v k c e l =
    same_of_length (matching c (readers_of k) v.dropped) (matching c (readers_of k) w.hub.log) _
      (ap (matching c (readers_of k)) v.suffix ∙ keep-append _ v.dropped w.hub.log)
      (ground (arith, v.accounted k c e))
