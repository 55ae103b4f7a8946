-- ===== src/Dispatchd/Hub/Moves.antt =====
-- A waiter beside any other callers of the hub, section by section, and what it relies on.
use m3_core_rs.Base.{
  ℕ, suc, ◌+◌, ◌≡◌, true, refl, sym, ◌∙◌, inl, inr, Bool, false, Option, none, some, List, [], ◌∷◌,
  Text, unwrap_or, lookup, head?, arith, Option-cases,
}
use mathlib.Core.Path.{subst}
use m3_core_rs.Dispatchd.Keys.{key}
use m3_core_rs.Dispatchd.Hub.{
  Ring, State, Hub, admitted, matching, enter, register, admit, resync_if_lost, first_match,
}
use m3_core_rs.Dispatchd.Hub.Waiting.{
  Waiter, Pc, entering, arming, checking, looking, sleeping, taking, parked, leaving, done,
  run_section,
}
use m3_core_rs.Dispatchd.Hub.Accounts.Invariant.{World, Inv, history_in_log}
use m3_core_rs.Dispatchd.Hub.Accounts.Reached.{Plain, matching-readers_of, Step, at_, Reach}
use m3_core_rs.Dispatchd.Hub.Accounts.Delivery.{Quiet}
use m3_core_rs.Dispatchd.Hub.Frames.{
  Registered, Unmarked, Loud, notifications, silent_step, Step-Registered, Step-Unmarked,
  Step-Quiet,
}

pub record System : Type 0 where
  pub world : World
  pub waiter : Waiter
  -- The calls of `notify_waiters` that rings have yet to make, since they left the lock.
  pub due : ℕ

-- What `notify_waiters` leaves for the waiter.
abbrev pub notify : Waiter → Waiter
notify w = record w { notified = true }

abbrev pub ran : Hub → ℕ → Bool → System → System
ran h now pick s =
    let (st, waiter) = run_section h now pick s.world.hub s.waiter s.waiter.pc in
    record { world = at_ s.world st; waiter = waiter; due = s.due }

-- The waiter's next section, a section of some other caller, or the notification of a ring, which
-- comes some time after its section.
pub data Move (h : Hub) (s s' : System) : Type 0 where
  runs : (now : ℕ) (pick : Bool) → s' ≡ ran h now pick s → Move h s s'
  others :
      (w : World) (step : Step h s.world w)
      → Loud step
      → s' ≡ record { world = w; waiter = s.waiter; due = s.due + notifications step }
      → Move h s s'
  notifies :
      (n : ℕ)
      → s.due ≡ suc n
      → s' ≡ record { world = s.world; waiter = notify s.waiter; due = n }
      → Move h s s'

-- From any world that the hub reaches, with a waiter about to enter, whose ids have no newline.
pub data Runs (h : Hub) : System → Type 0 where
  start :
      {s : System} (limit : ℕ)
      → Reach h s.world
      → Plain s.waiter.readers
      → s.waiter.pc ≡ entering limit
      → Runs h s
  next : {s s' : System} → Runs h s → Move h s s' → Runs h s'

-- What a waiter relies on at each of its sections. What it has seen may change with a ring, which
-- then has its notification due, or has notified the waiter.
abbrev pub Relies : World → ℕ → Waiter → Pc → Type 0
Relies w due p (entering limit) = Unit
Relies w due p (done a) = Unit
Relies w due p looking =
    Registered (key p.readers) w.hub
    × (p.notified ≡ false → due ≡ 0 → Unmarked (key p.readers) w.hub)
Relies w due p parked =
    Registered (key p.readers) w.hub × (p.notified ≡ false → due ≡ 0 → Quiet w p.readers)
Relies w due p arming = Registered (key p.readers) w.hub
Relies w due p checking = Registered (key p.readers) w.hub
Relies w due p (sleeping until) = Registered (key p.readers) w.hub
Relies w due p taking = Registered (key p.readers) w.hub
Relies w due p (leaving a) = Registered (key p.readers) w.hub

pub record Good (s : System) : Type 0 where
  pub inv : Inv s.world
  pub plain : Plain s.waiter.readers
  pub relies : Relies s.world s.due s.waiter s.waiter.pc

pub others-Relies :
    {h : Hub} {w w' : World} (due : ℕ) (p : Waiter) (pc : Pc) (s : Step h w w')
    → Loud s
    → Inv w
    → Relies w due p pc
    → Relies w' (due + notifications s) p pc
others-Relies due p (entering limit) s l v r = tt
others-Relies due p (done a) s l v r = tt
others-Relies due p arming s l v r = Step-Registered (key p.readers) s r
others-Relies due p checking s l v r = Step-Registered (key p.readers) s r
others-Relies due p (sleeping until) s l v r = Step-Registered (key p.readers) s r
others-Relies due p taking s l v r = Step-Registered (key p.readers) s r
others-Relies due p (leaving a) s l v r = Step-Registered (key p.readers) s r
others-Relies due p looking s l v r = (
  Step-Registered (key p.readers) s r.0,
  λ e d. Step-Unmarked (key p.readers) s (silent_step s l (omega arith)) (r.1 e (omega arith)),
)
others-Relies due p parked s l v r = (
  Step-Registered (key p.readers) s r.0,
  λ e d. Step-Quiet p.readers s (silent_step s l (omega arith)) v (r.1 e (omega arith)),
)

pub notified-Relies :
    (w : World) (due n : ℕ) (p : Waiter) (pc : Pc) → Relies w due p pc → Relies w n (notify p) pc
notified-Relies w due n p looking r = (r.0, λ e. cc)
notified-Relies w due n p parked r = (r.0, λ e. cc)
notified-Relies w due n p (entering limit) r = tt
notified-Relies w due n p (done a) r = tt
notified-Relies w due n p arming r = r
notified-Relies w due n p checking r = r
notified-Relies w due n p (sleeping until) r = r
notified-Relies w due n p taking r = r
notified-Relies w due n p (leaving a) r = r

pub admitted-Registered :
    (readers : List Text) (st : State) (k : Text)
    → (enter readers st).1 ≡ admitted k
    → Registered (key readers) (enter readers st).0
unfolding enter register admit resync_if_lost
admitted-Registered readers st k e = ground arith

eq-nil_of_first :
    (rs : List Ring)
    → ◌≡◌ {A = Option ℕ} (elim (head? rs) [ none ↦ none | some r ↦ some r.rung_at ]) none
    → rs ≡ []
eq-nil_of_first [] e = refl
eq-nil_of_first (r ∷ rs) e = cc

pub nothing-Quiet :
    (w : World) (readers : List Text)
    → Inv w
    → Plain readers
    → Registered (key readers) w.hub
    → Unmarked (key readers) w.hub
    → first_match (key readers) readers w.hub ≡ none
    → Quiet w readers
unfolding first_match
nothing-Quiet w readers v p r u e = elim (Option-cases (lookup (key readers) w.hub.cursors)) [
  | inl f ↦ cc
  | inr (c, f) ↦ (
    c,
    f,
    sym (matching-readers_of c readers w.rung p)
        ∙ history_in_log w v (key readers) c f u
        ∙ matching-readers_of c readers w.hub.log p
        ∙ eq-nil_of_first (matching c readers w.hub.log) (
            subst
              (λ (o : Option ℕ).
                ◌≡◌ {A = Option ℕ}
                  (elim (head? (matching (unwrap_or o 0) readers w.hub.log)) [
                    | none ↦ none
                    | some r ↦ some r.rung_at
                  ])
                  none)
              f e),
    u,
  )
]
