-- ===== src/Dispatchd/Hub/Accounts/Reached.antt =====
-- The waits' sections keep the account, so it holds in every world that the hub reaches.
use m3_core_rs.Base.{
  ℕ, ◌≤◌, ◌≡◌, refl, sym, ap, ◌∙◌, inl, inr, false, ◌&&◌, Option, none, some, List, [], ◌∷◌, ◌++◌,
  Text, All, is_empty, lookup, insert, text_eq_iff, arith, Bool-cases, Option-cases,
}
use mathlib.Core.Path.{subst}
use m3_core_rs.Dispatchd.Addressing.{sees}
use m3_core_rs.Dispatchd.Keys.{newline, key}
use m3_core_rs.Dispatchd.Keys.Readers.{Free, any-split-key}
use m3_core_rs.Dispatchd.Hub.{
  Ring, State, Hub, empty, bump, unheard, matching, ring, resync_if_lost, register, admit, enter,
  leave, take, take_known, collected, last_seq,
}
use m3_core_rs.Dispatchd.Hub.Trimming.{readers_of, rings_of}
use m3_core_rs.Dispatchd.Hub.Accounts.Order.{Asc, Asc-suffix, matching-rest, last_seq-bounds}
use m3_core_rs.Dispatchd.Hub.Accounts.Invariant.{
  World, Inv, caught_up, empty-Inv, ring-Inv, recheck-Inv, moved-Inv, counted-Inv,
  resync_if_lost-cases, history_in_log,
}

-- Reader lists whose ids have no newline, so that their key names them.
abbrev pub Plain : List Text → Type 0
Plain = All (Free newline)

sees_nobody : (t : Text) → sees [] t ≡ false
unfolding sees
sees_nobody t = refl

unheard-readers_of :
    (c : ℕ) (readers : List Text) (r : Ring)
    → Plain readers
    → unheard c (readers_of (key readers)) r ≡ unheard c readers r
unheard-readers_of c readers r p =
    ap (◌&&◌ _) (any-split-key (λ rd. sees rd r.recipient) readers (sees_nobody r.recipient) p)

-- A key cuts the log as its readers do.
pub matching-readers_of :
    (c : ℕ) (readers : List Text) (rs : List Ring)
    → Plain readers
    → matching c (readers_of (key readers)) rs ≡ matching c readers rs
matching-readers_of c readers [] p = refl
matching-readers_of c readers (r ∷ rs) p =
    ground (arith, unheard-readers_of c readers r p, matching-readers_of c readers rs p)

abbrev pub at_ : World → State → World
at_ w st = record { hub = st; rung = w.rung }

registered-Inv :
    (w : World) (k : Text)
    → Inv w
    → lookup k w.hub.cursors ≡ none
    → Inv (at_ w (record w.hub { cursors = insert k w.hub.seq w.hub.cursors }))
registered-Inv w k v e =
    moved-Inv w v k w.hub.seq (omega arith) (caught_up w v (readers_of k)) w.hub.lost
      (λ j. ground (arith, text_eq_iff k j, v.unmarked k e)) w.hub.wakes w.hub.waiting

admit-Inv :
    (w : World) (k : Text) (o : Option State)
    → resync_if_lost w.hub k ≡ o
    → Inv w
    → Inv (at_ w (admit k w.hub o).0)
unfolding admit
admit-Inv w k none e v = counted-Inv w (bump k w.hub.waiting) v
admit-Inv w k (some st) e v = recheck-Inv w k st v e

register-Inv :
    (w : World) (k : Text) (o : Option ℕ)
    → lookup k w.hub.cursors ≡ o
    → Inv w
    → Inv (at_ w (register k w.hub o).0)
unfolding register
register-Inv w k none e v = registered-Inv w k v e
register-Inv w k (some c) e v = admit-Inv w k (resync_if_lost w.hub k) refl v

enter-Inv : (w : World) (readers : List Text) → Inv w → Inv (at_ w (enter readers w.hub).0)
unfolding enter
enter-Inv w readers v = elim (Bool-cases (is_empty (key readers))) [
  | inl e ↦ rw e v
  | inr e ↦ rw e (register-Inv w (key readers) (lookup (key readers) w.hub.cursors) refl v)
]

leave-Inv : (w : World) (k : Text) → Inv w → Inv (at_ w (leave k w.hub))
unfolding leave
leave-Inv w k v = elim (Option-cases (lookup k w.hub.waiting)) [
  | inl e ↦ rw (e, leave) v
  | inr (n, e) ↦ rw (e, leave) (counted-Inv w _ v)
]

pub log_in_order : (w : World) (v : Inv w) → Asc 0 w.hub.log w.hub.seq
log_in_order w v =
    Asc-suffix 0 w.hub.seq v.dropped w.hub.log (subst (λ rs. Asc 0 rs w.hub.seq) v.suffix v.ordered)

-- A cursor that moves on agrees on history and log where the old one did.
agree_later :
    (w : World) (v : Inv w) (k : Text) (c d : ℕ)
    → c ≤ d
    → lookup k w.hub.cursors ≡ some c
    → lookup k w.hub.lost ≡ none
    → matching d (readers_of k) w.rung ≡ matching d (readers_of k) w.hub.log
agree_later w v k c d h e l =
    let split = ap (matching c (readers_of k)) v.suffix in
    ap (matching d (readers_of k)) v.suffix
    ∙ matching-rest (readers_of k) c d v.dropped w.hub.log h
        (sym split ∙ history_in_log w v k c e l)

collected-Inv :
    (w : World) (k : Text) (readers : List Text) (c : ℕ) (rs : List Ring)
    → Inv w
    → lookup k w.hub.lost ≡ none
    → lookup k w.hub.cursors ≡ some c
    → matching c readers w.hub.log ≡ rs
    → Inv (at_ w (collected k c rs w.hub).0)
unfolding collected
collected-Inv w k readers c [] v l e m = v
collected-Inv w k readers c (r ∷ rs) v l e m =
    let (low, high) =
      last_seq-bounds readers c 0 w.hub.seq w.hub.log (log_in_order w v) (v.behind k c e) in
    let later : c ≤ last_seq c (r ∷ rs) = subst (λ m. c ≤ last_seq c m) m low in
    moved-Inv w v k (last_seq c (r ∷ rs)) (subst (λ m. last_seq c m ≤ w.hub.seq) m high)
      (agree_later w v k c (last_seq c (r ∷ rs)) later e l) w.hub.lost
      (λ j. ground (arith, text_eq_iff k j)) (bump k w.hub.wakes) w.hub.waiting

take_known-Inv :
    (w : World) (readers : List Text) (c : ℕ) (o : Option State)
    → Inv w
    → lookup (key readers) w.hub.cursors ≡ some c
    → resync_if_lost w.hub (key readers) ≡ o
    → Inv (at_ w (take_known (key readers) readers w.hub o).0)
unfolding take_known
take_known-Inv w readers c (some st) v e f = recheck-Inv w (key readers) st v f
take_known-Inv w readers c none v e f = elim (resync_if_lost-cases w.hub (key readers)) [
  | inr (n, _, g) ↦ cc
  | inl (l, g) ↦ rw e (collected-Inv w (key readers) readers c _ v l e refl)
]

pub take-Inv :
    (w : World) (readers : List Text) (c : ℕ)
    → Inv w
    → lookup (key readers) w.hub.cursors ≡ some c
    → Inv (at_ w (take (key readers) readers w.hub).0)
unfolding take
take-Inv w readers c v e = take_known-Inv w readers c (resync_if_lost w.hub (key readers)) v e refl

-- One section of the hub, by any caller. A wait takes and rechecks for a set that it has entered.
pub data Step (h : Hub) (w w' : World) : Type 0 where
  rings :
      (now : ℕ) (recipients : List Text) (origin : Option Text)
      → w' ≡ record {
        hub = (ring h now recipients origin w.hub).0;
        rung = w.rung ++ rings_of origin now w.hub.seq recipients;
      }
      → Step h w w'
  enters : (readers : List Text) → w' ≡ at_ w (enter readers w.hub).0 → Step h w w'
  rechecks :
      (k : Text) (st : State) → resync_if_lost w.hub k ≡ some st → w' ≡ at_ w st → Step h w w'
  takes :
      (readers : List Text) (c : ℕ)
      → lookup (key readers) w.hub.cursors ≡ some c
      → w' ≡ at_ w (take (key readers) readers w.hub).0
      → Step h w w'
  leaves : (k : Text) → w' ≡ at_ w (leave k w.hub) → Step h w w'

pub data Reach (h : Hub) : World → Type 0 where
  start : {w : World} → w ≡ record { hub = empty; rung = [] } → Reach h w
  next : {w w' : World} → Reach h w → Step h w w' → Reach h w'

pub Step-Inv : (h : Hub) (w w' : World) → Step h w w' → Inv w → Inv w'
Step-Inv h w w' (rings now ts origin e) v = subst Inv (sym e) (ring-Inv h now ts origin w v)
Step-Inv h w w' (enters readers e) v = subst Inv (sym e) (enter-Inv w readers v)
Step-Inv h w w' (rechecks k st f e) v = subst Inv (sym e) (recheck-Inv w k st v f)
Step-Inv h w w' (takes readers c f e) v = subst Inv (sym e) (take-Inv w readers c v f)
Step-Inv h w w' (leaves k e) v = subst Inv (sym e) (leave-Inv w k v)

-- In every world that any interleaving of the sections of rings and waits reaches from a new hub,
-- the unheard rings of each registered key are accounted for: of the rings for the ids that the key
-- splits into, those in the log and those marked as lost make up all that were ever committed behind
-- its cursor.
pub Reach-Inv : (h : Hub) (w : World) → Reach h w → Inv w
Reach-Inv h w (start e) = subst Inv (sym e) empty-Inv
Reach-Inv h w (next {w = u} r s) = Step-Inv h u w s (Reach-Inv h u r)
