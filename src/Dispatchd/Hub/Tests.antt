-- ===== src/Dispatchd/Hub/Tests.antt =====
-- Runs of the hub, and the theorems at worlds that a run reaches.
use m3_core_rs.Base.{
  ◌≡◌, refl, ◌≢◌, ◌↔◌, true, false, none, some, List, [], ◌∷◌, ◌++◌, Text, ascii, lookup, insert,
  remove, text_eq, text_lt, strip_prefix, arith,
}
use m3_core_rs.Dispatchd.Addressing.{split_once, is_qualified, sees}
use m3_core_rs.Dispatchd.Addressing.Rule.{Qualified, is_qualified_iff, Shown, sees_iff}
use m3_core_rs.Dispatchd.Keys.{split_on, join, collect, set_insert, key}
use m3_core_rs.Dispatchd.Keys.Sets.{contains}
use m3_core_rs.Dispatchd.Keys.Readers.{key-eq_iff}
use m3_core_rs.Dispatchd.Hub.{
  Hub, mail, resync, timeout, answered, empty, ring, push_rings, trim, mark_lost, bump, enter,
  leave, take, resync_if_lost, first_match, status, commas,
}
use m3_core_rs.Dispatchd.Hub.Trimming.{rings_of}
use m3_core_rs.Dispatchd.Hub.Accounts.Invariant.{World, Inv}
use m3_core_rs.Dispatchd.Hub.Accounts.Reached.{Reach, start, next, rings, enters, at_, Reach-Inv}
use m3_core_rs.Dispatchd.Hub.Accounts.Delivery.{
  Answer, take-Answer, take-take, ring_is_heard, Quiet,
}
use m3_core_rs.Dispatchd.Hub.Waiting.{
  Waiter, Pc, entering, parked, run_section, run_alone, IsDone, wait_ends,
}
use m3_core_rs.Dispatchd.Hub.Moves.{System, Runs, runs, ran}
use m3_core_rs.Dispatchd.Hub.Wakeup.{parked-Quiet}

-- Everything that a run computes.
hub_runs : Unit {0}
unfolding ring push_rings trim mark_lost bump enter leave take resync_if_lost first_match status
    commas empty lookup insert remove text_eq text_lt strip_prefix split_once is_qualified sees
    split_on join collect set_insert key rings_of run_section run_alone
hub_runs = tt

abbrev small : Hub
small = record { window = 10; keep_for = 60; max_log = 3 }

abbrev a_readers : List Text
a_readers = ascii "a" ∷ []

abbrev registered : World
registered = at_ (record { hub = empty; rung = [] }) (enter a_readers empty).0

abbrev two : List Text
two = ascii "a@1" ∷ ascii "b" ∷ []

abbrev rung_once : World
rung_once = record {
  hub = (ring small 5 two none registered.hub).0;
  rung = registered.rung ++ rings_of none 5 registered.hub.seq two;
}

rung_once-Reach : Reach small rung_once
rung_once-Reach = next (next (start refl) (enters a_readers refl)) (rings 5 two none refl)

rung_once-cursor : lookup (key a_readers) rung_once.hub.cursors ≡ some 0
unfolding hub_runs
rung_once-cursor = refl

sees_tests :
    (sees (ascii "claude-code") (ascii "claude-code@abc") ≡ true)
    × (sees (ascii "claude-code@abc") (ascii "claude-code") ≡ false)
    × (sees (ascii "claude") (ascii "claude-code@abc") ≡ false)
    × (sees (ascii "a@") (ascii "a@@x") ≡ true)
    × (sees (ascii "a@") (ascii "a@x") ≡ false)
unfolding hub_runs
sees_tests = (refl, refl, refl, refl, refl)

new_set_resyncs : (enter a_readers empty).1 ≡ answered resync
unfolding hub_runs
new_set_resyncs = refl

take_test : (take (key a_readers) a_readers rung_once.hub).1 ≡ mail 1 (ascii "a@1" ∷ []) []
unfolding hub_runs
take_test = refl

-- Three later rings push the first one out of a log of three.
trim_test :
    (take
      (key a_readers)
      a_readers
      (ring small 6 (ascii "z" ∷ ascii "z" ∷ ascii "z" ∷ []) none rung_once.hub).0).1
    ≡ resync
unfolding hub_runs
trim_test = refl

-- An id with a newline is not found again in its key: the ring that left the log is not marked.
newline_id_test :
    let odd = ascii "a\nb" ∷ [] in
    let st = (enter odd empty).0 in
    let rung = (ring (record small { max_log = 0 }) 5 odd none st).0 in
    (take (key odd) odd rung).1 ≡ timeout
unfolding hub_runs
newline_id_test = refl

sees_iff_example :
    (sees (ascii "a") (ascii "a@1") ≡ true)
    ↔ ((◌≢◌ {A = Text} (ascii "a") []) × Shown (ascii "a") (ascii "a@1"))
sees_iff_example = sees_iff (ascii "a") (ascii "a@1")

is_qualified_iff_example : (is_qualified (ascii "a@1") ≡ true) ↔ Qualified (ascii "a@1")
is_qualified_iff_example = is_qualified_iff (ascii "a@1")

key-eq_iff_example :
    (key (ascii "b" ∷ ascii "a" ∷ ascii "b" ∷ []) ≡ key (ascii "a" ∷ ascii "b" ∷ [])) ↔ (
      (x : Text)
      → contains x (ascii "b" ∷ ascii "a" ∷ ascii "b" ∷ [])
        ≡ contains x (ascii "a" ∷ ascii "b" ∷ []))
key-eq_iff_example =
    key-eq_iff (ascii "b" ∷ ascii "a" ∷ ascii "b" ∷ []) (ascii "a" ∷ ascii "b" ∷ []) (omega arith)
      (omega arith)

Reach-Inv_example : Inv rung_once
Reach-Inv_example = Reach-Inv small rung_once rung_once-Reach

take-Answer_example : Answer rung_once a_readers 0 (take (key a_readers) a_readers rung_once.hub).1
take-Answer_example =
    take-Answer small rung_once a_readers 0 rung_once-Reach (omega arith) rung_once-cursor

take-take_example :
    take (key a_readers) a_readers (take (key a_readers) a_readers rung_once.hub).0
    ≡ ((take (key a_readers) a_readers rung_once.hub).0, timeout)
take-take_example = take-take small rung_once a_readers rung_once-Reach

ring_is_heard_example :
    (take (key a_readers) a_readers (ring small 7 two none rung_once.hub).0).1 ≢ timeout
unfolding hub_runs
ring_is_heard_example =
    ring_is_heard small rung_once a_readers 0 7 two none rung_once-Reach (omega arith)
      rung_once-cursor refl

abbrev waiter : Pc → Waiter
waiter pc = record { readers = a_readers; deadline = 30; notified = false; pc = pc }

wait_ends_example : IsDone (run_alone 7 small 30 true rung_once.hub (waiter parked)).1.pc
wait_ends_example = wait_ends small 30 true rung_once.hub (waiter parked) (omega arith) tt

-- A waiter of the registered set runs its first four sections at instant 5.
abbrev at_start : System
at_start = record { world = registered; waiter = waiter (entering 25); due = 0 }

abbrev at_park : System
at_park = ran small 5 true (ran small 5 true (ran small 5 true (ran small 5 true at_start)))

at_park-Runs : Runs small at_park
at_park-Runs =
    let reached : Reach small registered = next (start refl) (enters a_readers refl) in
    let begun : Runs small at_start = Runs.start 25 reached (omega arith) refl in
    Runs.next
      (Runs.next (Runs.next (Runs.next begun (runs 5 true refl)) (runs 5 true refl))
        (runs 5 true refl))
      (runs 5 true refl)

parked-Quiet_example : Quiet at_park.world at_park.waiter.readers
parked-Quiet_example = parked-Quiet small at_park at_park-Runs parked_lem unnotified refl
  where
    parked_lem : at_park.waiter.pc ≡ parked
    parked_lem = unfold hub_runs in refl

    unnotified : at_park.waiter.notified ≡ false
    unnotified = unfold hub_runs in refl
