-- ===== src/Dispatchd/Hub/Frames.antt =====
-- What one section of the hub keeps of the entries that another reader set relies on.
use m3_core_rs.Base.{
  ℕ, ◌≤◌, ◌<◌, ◌≡◌, refl, sym, ◌∙◌, inl, inr, Bool, true, false, none, some, List, [], ◌∷◌, Text,
  length, is_some, lookup, lookup-insert, lookup-remove, text_eq, text_eq_iff, text_eq_refl, ltb,
  if◌then◌else◌, arith, Bool-cases,
}
use mathlib.Core.Path.{subst}
use m3_core_rs.Dispatchd.Keys.{key}
use m3_core_rs.Dispatchd.Hub.{
  Ring, State, Hub, named, matching, count_of, enter, register, admit, leave, resync_if_lost, take,
  take_known, collected, last_seq, ring,
}
use m3_core_rs.Dispatchd.Hub.Trimming.{ring-cursors}
use m3_core_rs.Dispatchd.Hub.Accounts.Invariant.{World, Inv, resync_if_lost-cases}
use m3_core_rs.Dispatchd.Hub.Accounts.Reached.{
  Step, log_in_order, rings, enters, rechecks, takes, leaves, at_,
}
use m3_core_rs.Dispatchd.Hub.Accounts.Delivery.{Quiet}
use m3_core_rs.Dispatchd.Hub.Accounts.Order.{matching-later, last_seq-bounds}

abbrev pub Registered : Text → State → Type 0
Registered k st = is_some (lookup k st.cursors) ≡ true

abbrev pub Unmarked : Text → State → Type 0
Unmarked k st = lookup k st.lost ≡ none

-- What the other callers' sections keep of a reader set's entries.
pub record Keeps (k : Text) (st st' : State) : Type 0 where
  pub registers : Registered k st → Registered k st'
  pub unmarks : Unmarked k st → Unmarked k st'
  pub stays : Registered k st → Unmarked k st → lookup k st'.cursors ≡ lookup k st.cursors

enter-Keeps : (k : Text) (readers : List Text) (st : State) → Keeps k st (enter readers st).0
unfolding enter register admit resync_if_lost
enter-Keeps k readers st =
    let j = key readers in
    record {
      registers = λ r. ground (arith, lookup-insert j k st.seq st.cursors);
      unmarks = λ u. ground (arith, lookup-remove j k st.lost);
      stays = λ r u. ground (arith, lookup-insert j k st.seq st.cursors, text_eq_iff j k);
    }

pub recheck-Keeps : (k j : Text) (st st' : State) → resync_if_lost st j ≡ some st' → Keeps k st st'
unfolding resync_if_lost
recheck-Keeps k j st st' e = record {
  registers = λ r. ground (arith, lookup-insert j k st.seq st.cursors);
  unmarks = λ u. ground (arith, lookup-remove j k st.lost);
  stays = λ r u. ground (arith, lookup-insert j k st.seq st.cursors, text_eq_iff j k);
}

pub leave-Keeps : (k j : Text) (st : State) → Keeps k st (leave j st)
unfolding leave
leave-Keeps k j st = record {
  registers = λ r. ground arith;
  unmarks = λ u. ground arith;
  stays = λ r u. ground arith;
}

collected-frame :
    (k j : Text) (c : ℕ) (rs : List Ring) (st : State)
    → let st' = (collected j c rs st).0 in
      (Registered k st → Registered k st')
      × (lookup k st'.lost ≡ lookup k st.lost)
      × (text_eq j k ≡ false → lookup k st'.cursors ≡ lookup k st.cursors)
unfolding collected
collected-frame k j c [] st = (λ r. r, refl, λ e. refl)
collected-frame k j c (r ∷ rs) st =
    let put = lookup-insert j k (last_seq c (r ∷ rs)) st.cursors in
    (λ g. ground (arith, put), refl, λ e. ground (arith, put))

pub take-frame :
    (k : Text) (readers : List Text) (st : State)
    → let j = key readers in
      let st' = (take j readers st).0 in
      (Registered k st → Registered k st')
      × (Unmarked k st → Unmarked k st')
      × (text_eq j k ≡ false → lookup k st'.cursors ≡ lookup k st.cursors)
unfolding take take_known
take-frame k readers st =
    let j = key readers in
    elim (resync_if_lost-cases st j) [
      | inl (l, e) ↦
          let (g, l', c) =
            collected-frame k j (count_of j st.cursors)
              (matching (count_of j st.cursors) readers st.log) st in
          rw e (g, (λ u. l' ∙ u), c)
      | inr (n, l, e) ↦
          let put = lookup-insert j k st.seq st.cursors in
          rw e (
            (λ g. ground (arith, put)),
            (λ u. ground (arith, lookup-remove j k st.lost)),
            (λ d. ground (arith, put)),
          )
    ]

Quiet-Keeps :
    (w : World) (readers : List Text) (st : State)
    → Keeps (key readers) w.hub st
    → Quiet w readers
    → Quiet (at_ w st) readers
Quiet-Keeps w readers st k (c, g, m, l) =
    let r : Registered (key readers) w.hub = ground arith in (c, k.stays r l ∙ g, m, k.unmarks l)

collected-Quiet :
    (w : World) (readers : List Text) (c : ℕ) (qs : List Ring)
    → c ≤ last_seq c qs
    → lookup (key readers) w.hub.cursors ≡ some c
    → matching c readers w.rung ≡ []
    → lookup (key readers) w.hub.lost ≡ none
    → Quiet (at_ w (collected (key readers) c qs w.hub).0) readers
unfolding collected
collected-Quiet w readers c [] h g m l = (c, g, m, l)
collected-Quiet w readers c (q ∷ qs) h g m l = (
  last_seq c (q ∷ qs),
  ground (
    arith,
    lookup-insert (key readers) (key readers) (last_seq c (q ∷ qs)) w.hub.cursors,
    text_eq_refl (key readers),
  ),
  matching-later readers c (last_seq c (q ∷ qs)) w.rung h m,
  l,
)

-- A take under the same key, by these or other readers.
same_key-Quiet :
    (w : World) (rs ss : List Text)
    → Inv w
    → Quiet w rs
    → Quiet (at_ w (take (key rs) ss w.hub).0) rs
unfolding take resync_if_lost take_known
same_key-Quiet w rs ss v (c, g, m, l) =
    let (later, _) =
      last_seq-bounds ss c 0 w.hub.seq w.hub.log (log_in_order w v) (v.behind (key rs) c g) in
    rw (l, resync_if_lost) (rw g (collected-Quiet w rs c (matching c ss w.hub.log) later g m l))

take-Quiet :
    (w : World) (rs ss : List Text)
    → Inv w
    → Quiet w rs
    → Quiet (at_ w (take (key ss) ss w.hub).0) rs
take-Quiet w rs ss v u = elim (Bool-cases (text_eq (key ss) (key rs))) [
  | inl same ↦
      subst (λ k. Quiet (at_ w (take k ss w.hub).0) rs)
        (sym ((text_eq_iff (key ss) (key rs)).0 same)) (same_key-Quiet w rs ss v u)
  | inr other ↦
      let (c, g, m, l) = u in
      let (_, unmarks, stays) = take-frame (key rs) ss w.hub in (c, stays other ∙ g, m, unmarks l)
]

-- The rings of the model's other callers have a recipient that is not empty, as the HTTP routes
-- require: only such a ring notifies.
abbrev pub Loud : {h : Hub} {w w' : World} → Step h w w' → Type 0
Loud (rings now recipients origin e) = 0 < length (named recipients)
Loud _ = Unit

-- How many calls of `notify_waiters` are still to come after a section.
abbrev pub notifications : {h : Hub} {w w' : World} → Step h w w' → ℕ
notifications {h} {w} (rings now recipients origin e) =
    if ltb 0 (ring h now recipients origin w.hub).1 then 1 else 0
notifications _ = 0

abbrev pub is_ring : {h : Hub} {w w' : World} → Step h w w' → Bool
is_ring (rings now recipients origin e) = true
is_ring _ = false

pub silent_step :
    {h : Hub} {w w' : World} (s : Step h w w') → Loud s → notifications s ≡ 0 → is_ring s ≡ false
unfolding ring
silent_step (rings now recipients origin e) l n = absurd (ground arith)
silent_step (enters readers e) l n = refl
silent_step (rechecks k st f e) l n = refl
silent_step (takes readers c f e) l n = refl
silent_step (leaves k e) l n = refl

pub Step-Registered :
    {h : Hub} {w w' : World} (k : Text) → Step h w w' → Registered k w.hub → Registered k w'.hub
Step-Registered {h} {w} k (rings now ts origin e) r =
    subst (λ u. Registered k u.hub) (sym e) (rw (ring-cursors h now ts origin w.hub k) r)
Step-Registered {w} k (enters readers e) r =
    subst (λ u. Registered k u.hub) (sym e) ((enter-Keeps k readers w.hub).registers r)
Step-Registered {w} k (rechecks j st f e) r =
    subst (λ u. Registered k u.hub) (sym e) ((recheck-Keeps k j w.hub st f).registers r)
Step-Registered {w} k (takes readers c f e) r =
    subst (λ u. Registered k u.hub) (sym e) ((take-frame k readers w.hub).0 r)
Step-Registered {w} k (leaves j e) r =
    subst (λ u. Registered k u.hub) (sym e) ((leave-Keeps k j w.hub).registers r)

pub Step-Unmarked :
    {h : Hub} {w w' : World} (k : Text) (s : Step h w w')
    → is_ring s ≡ false
    → Unmarked k w.hub
    → Unmarked k w'.hub
Step-Unmarked k (rings now ts origin e) n u = cc
Step-Unmarked {w} k (enters readers e) n u =
    subst (λ v. Unmarked k v.hub) (sym e) ((enter-Keeps k readers w.hub).unmarks u)
Step-Unmarked {w} k (rechecks j st f e) n u =
    subst (λ v. Unmarked k v.hub) (sym e) ((recheck-Keeps k j w.hub st f).unmarks u)
Step-Unmarked {w} k (takes readers c f e) n u =
    subst (λ v. Unmarked k v.hub) (sym e) ((take-frame k readers w.hub).1 u)
Step-Unmarked {w} k (leaves j e) n u =
    subst (λ v. Unmarked k v.hub) (sym e) ((leave-Keeps k j w.hub).unmarks u)

pub Step-Quiet :
    {h : Hub} {w w' : World} (readers : List Text) (s : Step h w w')
    → is_ring s ≡ false
    → Inv w
    → Quiet w readers
    → Quiet w' readers
Step-Quiet rs (rings now ts origin e) n v u = cc
Step-Quiet {w} rs (enters readers e) n v u =
    subst (λ x. Quiet x rs) (sym e) (Quiet-Keeps w rs _ (enter-Keeps (key rs) readers w.hub) u)
Step-Quiet {w} rs (rechecks j st f e) n v u =
    subst (λ x. Quiet x rs) (sym e) (Quiet-Keeps w rs _ (recheck-Keeps (key rs) j w.hub st f) u)
Step-Quiet {w} rs (takes readers c f e) n v u =
    subst (λ x. Quiet x rs) (sym e) (take-Quiet w rs readers v u)
Step-Quiet {w} rs (leaves j e) n v u =
    subst (λ x. Quiet x rs) (sym e) (Quiet-Keeps w rs _ (leave-Keeps (key rs) j w.hub) u)
