-- ===== src/Dispatchd/Hub/Waiting.antt =====
-- crates/m3-dispatchd/src/hub.rs, `Hub::wait` and `Hub::wait_known`: one waiter's sections, between
-- which other callers run. `notified` is what `notify_waiters` leaves for an armed waiter; `pick`
-- is the branch that `select!` prefers where both are ready.
use m3_core_rs.Base.{
  ℕ, ◌+◌, ◌-◌, ◌≤◌, ◌≡◌, refl, sym, zero, suc, min, Bool, false, ◌&&◌, ◌||◌, Option, none, some,
  List, ltb, leb, if◌then◌else◌, Text, arith, Option-cases,
}
use mathlib.Core.Path.{subst}
use m3_core_rs.Dispatchd.Keys.{key}
use m3_core_rs.Dispatchd.Hub.{
  State, Hub, Wake, resync, timeout, Entry, answered, admitted, enter, leave, resync_if_lost,
  first_match, take,
}

pub data Pc : Type 0 where
  entering : ℕ → Pc
  arming checking looking : Pc
  sleeping : ℕ → Pc
  taking parked : Pc
  leaving done : Wake → Pc

pub record Waiter : Type 0 where
  pub readers : List Text
  pub deadline : ℕ
  pub notified : Bool
  pub pc : Pc

unfoldable pub goto : Waiter → Pc → Waiter
goto w pc = record w { pc = pc }

unfoldable pub entered : Waiter → ℕ → State × Entry → State × Waiter
unfolding goto
entered w deadline (st, answered a) = (st, goto w (done a))
entered w deadline (st, admitted k) = (st, record w { deadline = deadline; pc = arming })

unfoldable pub checked : Waiter → State → Option State → State × Waiter
unfolding goto
checked w st none = (st, goto w looking)
checked w st (some st') = (st', goto w (leaving resync))

unfoldable pub looked : Hub → ℕ → Waiter → Option ℕ → Pc
looked h now w none = if leb w.deadline now then leaving timeout else parked
looked h now w (some first_at) =
    if ltb now (first_at + h.window)
    then sleeping (min (first_at + h.window) w.deadline)
    else taking

unfoldable pub woken : ℕ → Bool → Waiter → Pc
woken now pick w =
    if w.notified && (pick || ltb now w.deadline)
    then arming
    else if leb w.deadline now
    then leaving timeout
    else parked

-- The next section of a waiter.
unfoldable pub run_section : Hub → ℕ → Bool → State → Waiter → Pc → State × Waiter
unfolding entered checked looked woken goto
run_section h now pick st w (entering limit) = entered w (now + limit) (enter w.readers st)
run_section h now pick st w arming = (st, record w { notified = false; pc = checking })
run_section h now pick st w checking = checked w st (resync_if_lost st (key w.readers))
run_section h now pick st w looking =
    (st, goto w (looked h now w (first_match (key w.readers) w.readers st)))
run_section h now pick st w (sleeping until) = (st, if ltb now until then w else goto w taking)
run_section h now pick st w taking =
    let (st', a) = take (key w.readers) w.readers st in (st', goto w (leaving a))
run_section h now pick st w parked = (st, goto w (woken now pick w))
run_section h now pick st w (leaving a) = (leave (key w.readers) st, goto w (done a))
run_section h now pick st w (done a) = (st, w)

-- A waiter alone, `n` sections at one instant.
unfoldable pub run_alone : ℕ → Hub → ℕ → Bool → State → Waiter → State × Waiter
run_alone zero h now pick st w = (st, w)
run_alone (suc n) h now pick st w =
    let (st', w') = run_section h now pick st w w.pc in run_alone n h now pick st' w'

-- How many sections a waiter whose deadline has passed needs at most.
abbrev pub sections_left : Pc → ℕ
sections_left (entering limit) = 0
sections_left parked = 7
sections_left arming = 6
sections_left checking = 5
sections_left looking = 4
sections_left (sleeping until) = 3
sections_left taking = 2
sections_left (leaving a) = 1
sections_left (done a) = 0

abbrev pub IsDone : Pc → Type 0
IsDone (done a) = Unit
IsDone _ = ⊥

-- A started waiter, whose sleep ends by its deadline.
abbrev pub IsStarted : ℕ → Pc → Type 0
IsStarted deadline (entering limit) = ⊥
IsStarted deadline (sleeping until) = until ≤ deadline
IsStarted deadline _ = Unit

section-progress :
    (h : Hub) (now : ℕ) (pick : Bool) (st : State) (w : Waiter) (pc : Pc)
    → w.pc ≡ pc
    → w.deadline ≤ now
    → IsStarted w.deadline pc
    → let w' = (run_section h now pick st w pc).1 in
      (w'.deadline ≡ w.deadline)
      × IsStarted w.deadline w'.pc
      × (sections_left w'.pc ≤ sections_left pc - 1)
unfolding run_section
section-progress h now pick st w (entering limit) e d s = absurd s
section-progress h now pick st w arming e d s = (refl, tt, omega arith)
section-progress h now pick st w checking e d s =
    ground (arith, Option-cases (resync_if_lost st (key w.readers)))
section-progress h now pick st w looking e d s =
    ground (arith, Option-cases (first_match (key w.readers) w.readers st))
section-progress h now pick st w (sleeping until) e d s = ground arith
section-progress h now pick st w taking e d s = (refl, tt, omega arith)
section-progress h now pick st w parked e d s = ground arith
section-progress h now pick st w (leaving a) e d s = (refl, tt, omega arith)
section-progress h now pick st w (done a) e d s = rw e (refl, tt, omega arith)

IsDone-of_none : (deadline : ℕ) (pc : Pc) → IsStarted deadline pc → sections_left pc ≤ 0 → IsDone pc
IsDone-of_none deadline (done a) s b = tt
IsDone-of_none deadline (entering limit) s b = absurd s
IsDone-of_none deadline parked s b = absurd (omega arith)
IsDone-of_none deadline arming s b = absurd (omega arith)
IsDone-of_none deadline checking s b = absurd (omega arith)
IsDone-of_none deadline looking s b = absurd (omega arith)
IsDone-of_none deadline (sleeping until) s b = absurd (omega arith)
IsDone-of_none deadline taking s b = absurd (omega arith)
IsDone-of_none deadline (leaving a) s b = absurd (omega arith)

left-le : (pc : Pc) → sections_left pc ≤ 7
left-le parked = omega arith
left-le _ = omega arith

run_alone-IsDone :
    (n : ℕ) (h : Hub) (now : ℕ) (pick : Bool) (st : State) (w : Waiter)
    → w.deadline ≤ now
    → IsStarted w.deadline w.pc
    → sections_left w.pc ≤ n
    → IsDone (run_alone n h now pick st w).1.pc
unfolding run_alone
run_alone-IsDone zero h now pick st w d s b = IsDone-of_none w.deadline w.pc s b
run_alone-IsDone (suc n) h now pick st w d s b =
    let (same, s', b') = section-progress h now pick st w w.pc refl d s in
    let (st', w') = run_section h now pick st w w.pc in
    run_alone-IsDone n h now pick st' w' (omega arith)
      (subst (λ e. IsStarted e w'.pc) (sym same) s') (omega arith)

-- A wait ends: once the deadline of a started waiter has passed, seven of its own sections at most
-- bring it to its answer, whatever the hub holds and whichever branch `select!` prefers.
pub wait_ends :
    (h : Hub) (now : ℕ) (pick : Bool) (st : State) (w : Waiter)
    → w.deadline ≤ now
    → IsStarted w.deadline w.pc
    → IsDone (run_alone 7 h now pick st w).1.pc
wait_ends h now pick st w d s = run_alone-IsDone 7 h now pick st w d s (left-le w.pc)
