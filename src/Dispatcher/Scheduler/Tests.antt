-- ===== src/Dispatcher/Scheduler/Tests.antt =====
-- A scheduler that takes three jobs and flushes them.
use m3_core_rs.Base.{◌≡◌, refl, none, some, List, [], ◌∷◌, ascii}
use m3_core_rs.Errors.{ok}
use m3_core_rs.Dispatcher.Queue.{jobs_of, push, drain_one}
use m3_core_rs.Dispatcher.Queue
use m3_core_rs.Dispatcher.Batch.{estimate_tokens}
use m3_core_rs.Dispatcher.Scheduler.{
  Event, embeds, sends, receives, advances, new, run, at_rest, advance, pick,
}
use m3_core_rs.Dispatcher.Scheduler.Waiting.{depth_of, run-new-Counted}

-- The second job may wait until 50; the flush begins, and finds it too late at 60.
abbrev arrivals : List Event
arrivals =
    embeds (ok tt) (ascii "one") none none 1
    ∷ embeds (ok tt) (ascii "two") (some 50) (some 7) 2
    ∷ embeds (ok tt) (ascii "three") none (some 900) 3
    ∷ sends 2
    ∷ sends 1
    ∷ receives
    ∷ receives
    ∷ advances 40 2048 (ok tt)
    ∷ advances 60 2048 (ok tt)
    ∷ []

abbrev on : Event
on = advances 60 2048 (ok tt)

-- Two jobs of the iteration and one that is not sent, until the iteration ends.
depth_test :
    let y = run (at_rest (new (64 ∷ 1024 ∷ []) 1)) arrivals in
    (y.scheduler.queued ≡ 3)
    × ((run y (on ∷ on ∷ [])).scheduler.queued ≡ 3)
    × ((run y (on ∷ on ∷ on ∷ [])).scheduler.queued ≡ 1)
unfolding run new advance pick drain_one push Queue.new estimate_tokens
depth_test = (refl, refl, refl)

run-new-Counted_example :
    let y = run (at_rest (new (64 ∷ 1024 ∷ []) 1)) arrivals in y.scheduler.queued ≡ depth_of y
run-new-Counted_example = run-new-Counted (64 ∷ 1024 ∷ []) 1 arrivals
