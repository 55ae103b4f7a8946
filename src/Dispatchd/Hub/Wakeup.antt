-- ===== src/Dispatchd/Hub/Wakeup.antt =====
-- No lost wakeup: a waiter beside any other callers of the hub, in every interleaving of their
-- sections.
use m3_core_rs.Base.{
  ℕ, ◌+◌, ◌≡◌, refl, sym, ap, inl, inr, Bool, false, ◌&&◌, ◌||◌, Option, none, some, ltb, leb, Text,
  lookup, Option-cases, Bool-cases,
}
use mathlib.Core.Path.{subst}
use m3_core_rs.Dispatchd.Keys.{key}
use m3_core_rs.Dispatchd.Hub.{
  State, Hub, resync, Entry, answered, admitted, enter, leave, resync_if_lost, first_match, take,
}
use m3_core_rs.Dispatchd.Hub.Waiting.{
  Waiter, Pc, entering, arming, checking, looking, sleeping, taking, parked, leaving, done,
  run_section, looked, woken, checked, entered, goto,
}
use m3_core_rs.Dispatchd.Hub.Accounts.Invariant.{World, Inv, resync_if_lost-cases}
use m3_core_rs.Dispatchd.Hub.Accounts.Reached.{
  Plain, enters, rechecks, takes, leaves, Step-Inv, at_, Reach-Inv,
}
use m3_core_rs.Dispatchd.Hub.Accounts.Delivery.{Quiet}
use m3_core_rs.Dispatchd.Hub.Frames.{Registered, Unmarked, recheck-Keeps, take-frame}
use m3_core_rs.Dispatchd.Hub.Moves.{
  System, Move, runs, others, notifies, Runs, start, next, Relies, Good, others-Relies,
  notified-Relies, admitted-Registered, nothing-Quiet,
}

goto-Good :
    (w : World) (due : ℕ) (p : Waiter) (pc : Pc)
    → Inv w
    → Plain p.readers
    → Relies w due p pc
    → Good (record { world = w; waiter = goto p pc; due = due })
unfolding goto
goto-Good w due p (entering limit) v q r = record { inv = v; plain = q; relies = r }
goto-Good w due p looking v q r = record { inv = v; plain = q; relies = r }
goto-Good w due p parked v q r = record { inv = v; plain = q; relies = r }
goto-Good w due p _ v q r = record { inv = v; plain = q; relies = r }

entered-Good :
    (h : Hub) (w : World) (due : ℕ) (p : Waiter) (deadline : ℕ) (o : State × Entry)
    → enter p.readers w.hub ≡ o
    → Inv w
    → Plain p.readers
    → Good (record {
      world = at_ w (entered p deadline o).0;
      waiter = (entered p deadline o).1;
      due = due;
    })
unfolding entered goto
entered-Good h w due p deadline (st, answered a) e v q =
    goto-Good (at_ w st) due p (done a)
      (Step-Inv h w (at_ w st) (enters p.readers (ap (λ (r : State × Entry). at_ w r.0) (sym e))) v)
      q tt
entered-Good h w due p deadline (st, admitted k) e v q = record {
  inv =
      Step-Inv h w (at_ w st) (enters p.readers (ap (λ (r : State × Entry). at_ w r.0) (sym e))) v;
  plain = q;
  relies =
      subst (λ s. Registered (key p.readers) s) (ap (λ (r : State × Entry). r.0) e)
        (admitted-Registered p.readers w.hub k (ap (λ (r : State × Entry). r.1) e));
}

checked-Good :
    (h : Hub) (w : World) (due : ℕ) (p : Waiter) (o : Option State)
    → resync_if_lost w.hub (key p.readers) ≡ o
    → Inv w
    → Plain p.readers
    → Registered (key p.readers) w.hub
    → Good
        (record { world = at_ w (checked p w.hub o).0; waiter = (checked p w.hub o).1; due = due })
unfolding checked goto
checked-Good h w due p (some st) e v q r =
    goto-Good (at_ w st) due p (leaving resync)
      (Step-Inv h w (at_ w st) (rechecks (key p.readers) st e refl) v) q
      ((recheck-Keeps (key p.readers) (key p.readers) w.hub st e).registers r)
checked-Good h w due p none e v q r = goto-Good w due p looking v q (r, λ _ _. unmarked)
  where
    unmarked : Unmarked (key p.readers) w.hub
    unmarked = elim (resync_if_lost-cases w.hub (key p.readers)) [
      | inl (l, _) ↦ l
      | inr (n, _, f) ↦ cc
    ]

looked-Relies :
    (h : Hub) (now : ℕ) (w : World) (due : ℕ) (p : Waiter) (o : Option ℕ)
    → first_match (key p.readers) p.readers w.hub ≡ o
    → Inv w
    → Plain p.readers
    → Relies w due p looking
    → Relies w due p (looked h now p o)
unfolding looked
looked-Relies h now w due p (some t) e v q r = elim (Bool-cases (ltb now (t + h.window))) [
  | inl early ↦ rw early r.0
  | inr late ↦ rw late r.0
]
looked-Relies h now w due p none e v q r = elim (Bool-cases (leb p.deadline now)) [
  | inl over ↦ rw over r.0
  | inr waits ↦ rw waits (r.0, λ f d. nothing-Quiet w p.readers v q r.0 (r.1 f d) e)
]

woken-Relies :
    (now : ℕ) (pick : Bool) (w : World) (due : ℕ) (p : Waiter)
    → Relies w due p parked
    → Relies w due p (woken now pick p)
unfolding woken
woken-Relies now pick w due p r = elim (Bool-cases (p.notified && (pick || ltb now p.deadline))) [
  | inl again ↦ rw again r.0
  | inr still ↦
      rw still
        (elim (Bool-cases (leb p.deadline now)) [ inl over ↦ rw over r.0 | inr waits ↦ rw waits r ])
]

Registered-some :
    (k : Text) (st : State) → Registered k st → (c : ℕ) × (lookup k st.cursors ≡ some c)
Registered-some k st r = elim (Option-cases (lookup k st.cursors)) [ inl e ↦ cc | inr f ↦ f ]

ran-Good :
    (h : Hub) (now : ℕ) (pick : Bool) (w : World) (due : ℕ) (p : Waiter) (pc : Pc)
    → Inv w
    → Plain p.readers
    → p.pc ≡ pc
    → Relies w due p pc
    → let r = run_section h now pick w.hub p pc in
      Good (record { world = at_ w r.0; waiter = r.1; due = due })
unfolding run_section
ran-Good h now pick w due p (entering limit) v q e r =
    entered-Good h w due p (now + limit) (enter p.readers w.hub) refl v q
ran-Good h now pick w due p arming v q e r = record { inv = v; plain = q; relies = r }
ran-Good h now pick w due p checking v q e r =
    checked-Good h w due p (resync_if_lost w.hub (key p.readers)) refl v q r
ran-Good h now pick w due p looking v q e r =
    goto-Good w due p _ v q
      (looked-Relies h now w due p (first_match (key p.readers) p.readers w.hub) refl v q r)
ran-Good h now pick w due p (sleeping until) v q e r = elim (Bool-cases (ltb now until)) [
  | inl early ↦ rw early (record { inv = v; plain = q; relies = rw e r })
  | inr late ↦ rw late (goto-Good w due p taking v q r)
]
ran-Good h now pick w due p taking v q e r =
    let (c, f) = Registered-some (key p.readers) w.hub r in
    goto-Good (at_ w (take (key p.readers) p.readers w.hub).0) due p (leaving _)
      (Step-Inv h w _ (takes p.readers c f refl) v) q
      ((take-frame (key p.readers) p.readers w.hub).0 r)
ran-Good h now pick w due p parked v q e r =
    goto-Good w due p _ v q (woken-Relies now pick w due p r)
ran-Good h now pick w due p (leaving a) v q e r =
    goto-Good (at_ w (leave (key p.readers) w.hub)) due p (done a)
      (Step-Inv h w _ (leaves (key p.readers) refl) v) q tt
ran-Good h now pick w due p (done a) v q e r = record { inv = v; plain = q; relies = rw e tt }

Move-Good : (h : Hub) (s s' : System) → Move h s s' → Good s → Good s'
Move-Good h s s' (runs now pick e) g =
    subst Good (sym e)
      (ran-Good h now pick s.world s.due s.waiter s.waiter.pc g.inv g.plain refl g.relies)
Move-Good h s s' (others w st loud e) g = subst Good (sym e) (record {
  inv = Step-Inv h s.world w st g.inv;
  plain = g.plain;
  relies = others-Relies s.due s.waiter s.waiter.pc st loud g.inv g.relies;
})
Move-Good h s s' (notifies n d e) g = subst Good (sym e) (record {
  inv = g.inv;
  plain = g.plain;
  relies = notified-Relies s.world s.due n s.waiter s.waiter.pc g.relies;
})

Runs-Good : (h : Hub) (s : System) → Runs h s → Good s
Runs-Good h s (start limit r p e) = record {
  inv = Reach-Inv h s.world r;
  plain = p;
  relies = rw e tt;
}
Runs-Good h s (next {s = t} r m) = Move-Good h t s m (Runs-Good h t r)

-- No lost wakeup: in every interleaving of the sections of a waiter, whose ids have no newline, with
-- those of other callers, whose rings have a recipient that is not empty and notify some time after
-- they leave the lock: a waiter that is parked and not notified, while no ring has its notification
-- still to make, has nothing to hear. Its set is registered, no ring ever committed behind its cursor
-- is for its readers, and none is marked as lost.
pub parked-Quiet :
    (h : Hub) (s : System)
    → Runs h s
    → s.waiter.pc ≡ parked
    → s.waiter.notified ≡ false
    → s.due ≡ 0
    → Quiet s.world s.waiter.readers
parked-Quiet h s r e n d = (subst (Relies s.world s.due s.waiter) e (Runs-Good h s r).relies).1 n d
