-- ===== src/Dispatcher/Scheduler.antt =====
-- crates/m3-dispatcher/src/lib.rs, `embed_inner` up to its wait for the reply, with its deadline in
-- `embed_with_deadline`, and the steps of `scheduler_loop`: a job enters the channel, the buckets, and
-- leaves with an iteration of the flush loop. `queued` is the count that `stats` reports; it is
-- unbounded here, and 64 bits wide in the program. The semaphore of the streams is open, since the
-- program never closes it.
pub mod Waiting
mod Tests
use m3_core_rs.Base.{
  ℕ, zero, suc, is_empty, ◌+◌, ◌-◌, ◌*◌, max, Bool, true, false, not, Option, none, some, List, [],
  ◌∷◌, ◌++◌, ltb, leb, if◌then◌else◌, keep, length, Text, ascii,
}
use m3_core_rs.Errors.{M3Error, backend, Result, ok, err, decimal, clone}
use m3_core_rs.Dispatcher.Queue.{Job, LengthBucketQueue, push, drain_one}
use m3_core_rs.Dispatcher.Queue
use m3_core_rs.Dispatcher.Breaker.{Checked}
use m3_core_rs.Dispatcher.Batch.{estimate_tokens}

-- Where an iteration of the flush loop stands: the count of its `Dequeue`, and the jobs it has left.
pub data Round : Type 0 where
  idle : Round
  drained asking acquiring : ℕ → List Job → Round
  ending : ℕ → Round

pub record Scheduler : Type 0 where
  pub channel : List Job
  pub queue : LengthBucketQueue
  pub queued : ℕ
  pub queue_cap : ℕ
  -- The scheduler has dropped the receiver.
  pub stopped : Bool
  pub round : Round

unfoldable pub new : List ℕ → ℕ → Scheduler
new length_buckets streams = record {
  channel = [];
  queue = Queue.new length_buckets;
  queued = 0;
  queue_cap = max streams 1 * 4;
  stopped = false;
  round = idle;
}

full_error : ℕ → ℕ → M3Error
full_error queued cap = backend (
    ascii "dispatcher queue full (backpressure): "
    ++ decimal queued
    ++ ascii " jobs waiting, capacity "
    ++ decimal cap
    ++ ascii "; retry, or raise M3_EMBED_STREAMS (capacity is 4 x streams)")

stopped_error : M3Error
stopped_error =
    backend
      (ascii "dispatcher scheduler has stopped; no further jobs can run (restart the embedder)")

-- How a `try_send` ends.
pub data Sent : Type 0 where
  accepted full closed : Sent

unfoldable pub try_send : Scheduler → Job → Scheduler × Sent
try_send s job =
    if s.stopped
    then (s, closed)
    else if leb s.queue_cap (length s.channel)
    then (s, full)
    else (record s { channel = s.channel ++ job ∷ [] }, accepted)

-- The caller's own `fetch_sub` where the send has failed.
unfoldable pub take_back : Scheduler → Scheduler
take_back s = record s { queued = s.queued - 1 }

-- What the caller then gets, at the count that it reads.
unfoldable pub send_result : ℕ → ℕ → Sent → Checked
unfolding full_error stopped_error
send_result queued cap accepted = ok tt
send_result queued cap full = err (full_error queued cap)
send_result queued cap closed = err stopped_error

hinted : Option ℕ → Text → ℕ
hinted none text = estimate_tokens text
hinted (some token_len) text = token_len

-- Up to the send: the job is counted before that.
unfoldable pub embed_inner :
    Scheduler → Checked → Text → Option ℕ → Option ℕ → ℕ → Scheduler × Result Job
unfolding hinted
embed_inner s (err e) text deadline token_len_hint reply = (s, err e)
embed_inner s (ok u) text deadline token_len_hint reply = (
  record s { queued = s.queued + 1 },
  ok (record {
    text = text;
    token_len = hinted token_len_hint text;
    reply = reply;
    deadline = deadline;
  }),
)

deadline_error : M3Error
deadline_error = backend (ascii "job deadline exceeded")

-- A deadline that has passed is answered before the queue.
unfoldable pub embed_with_deadline : Scheduler → ℕ → Checked → Text → ℕ → ℕ → Scheduler × Result Job
unfolding embed_inner deadline_error
embed_with_deadline s now peeked text deadline reply =
    if leb deadline now
    then (s, err deadline_error)
    else embed_inner s peeked text (some deadline) none reply

-- `rx.recv()`, into the buckets.
received : Scheduler → List Job → Scheduler
received s [] = s
received s (job ∷ jobs) = record s { channel = jobs; queue = push s.queue job }

unfoldable pub receive : Scheduler → Scheduler
unfolding received
receive s = received s s.channel

is_alive : ℕ → Job → Bool
is_alive now job = elim job.deadline [ none ↦ true | some d ↦ ltb now d ]

reply_all : M3Error → List Job → List (ℕ × M3Error)
unfolding clone
reply_all e [] = []
reply_all e (job ∷ jobs) = (job.reply, clone e) ∷ reply_all e jobs

drained_to : Scheduler → LengthBucketQueue × Option (List Job) → Scheduler
drained_to s (q, none) = record s { queue = q }
drained_to s (q, some []) = record s { queue = q }
drained_to s (q, some (job ∷ jobs)) = record s {
  queue = q;
  round = drained (length (job ∷ jobs)) (job ∷ jobs);
}

-- An iteration begins: the jobs leave the buckets and stay counted.
unfoldable pub drain : ℕ → Scheduler → Scheduler
unfolding drained_to
drain max_batch_tokens s = drained_to s (drain_one s.queue max_batch_tokens)

-- The steps of an iteration answer callers, and may hand jobs to a task.
abbrev pub Moved : Type 0
Moved = Scheduler × List (ℕ × M3Error) × List Job

-- Jobs past their deadline are answered; the iteration ends where none is left.
unfoldable pub expire : ℕ → ℕ → List Job → Scheduler → Moved
unfolding is_alive reply_all deadline_error
expire now n jobs s =
    let alive = keep (is_alive now) jobs in
    (
      record s { round = if is_empty alive then ending n else asking n alive },
      reply_all deadline_error (keep (λ j. not (is_alive now j)) jobs),
      [],
    )

-- What the breaker says, some time later.
unfoldable pub ask : Checked → ℕ → List Job → Scheduler → Moved
unfolding reply_all
ask (ok u) n jobs s = (record s { round = acquiring n jobs }, [], [])
ask (err e) n jobs s = (record s { round = ending n }, reply_all e jobs, [])

-- A stream's permit, some time later again: the jobs go to a task.
unfoldable pub spawn : ℕ → List Job → Scheduler → Moved
spawn n jobs s = (record s { round = ending n }, [], jobs)

-- The iteration's `Dequeue` is dropped.
unfoldable pub finish : ℕ → Scheduler → Scheduler
finish n s = record s { queued = s.queued - n; round = idle }

-- The scheduler's next step, at an instant, with a batch's tokens and with what the breaker answers.
unfoldable pub advance : ℕ → ℕ → Checked → Scheduler → Round → Moved
unfolding drain expire ask spawn finish
advance now max_batch_tokens admission s idle = (drain max_batch_tokens s, [], [])
advance now max_batch_tokens admission s (drained n jobs) = expire now n jobs s
advance now max_batch_tokens admission s (asking n jobs) = ask admission n jobs s
advance now max_batch_tokens admission s (acquiring n jobs) = spawn n jobs s
advance now max_batch_tokens admission s (ending n) = (finish n s, [], [])

-- The dispatcher, with the callers whose job is counted and not yet sent, and those whose send has
-- failed and is not yet taken back.
pub record System : Type 0 where
  pub scheduler : Scheduler
  pub counted : List Job
  pub failed : List Sent

pub data Event : Type 0 where
  embeds : Checked → Text → Option ℕ → Option ℕ → ℕ → Event
  embeds_by : ℕ → Checked → Text → ℕ → ℕ → Event
  -- By their place among the callers.
  sends takes_back : ℕ → Event
  receives : Event
  advances : ℕ → ℕ → Checked → Event

begun : System → Scheduler × Result Job → System
begun y (s, err e) = record y { scheduler = s }
begun y (s, ok job) = record y { scheduler = s; counted = job ∷ y.counted }

-- The caller at a place of a list, and the others.
unfoldable pub pick {ℓ} : {A : Type ℓ} → ℕ → List A → Option (A × List A)
pick n [] = none
pick zero (x ∷ xs) = some (x, xs)
pick (suc n) (x ∷ xs) = elim (pick n xs) [ none ↦ none | some (y, ys) ↦ some (y, x ∷ ys) ]

sent_with : System → List Job → Scheduler × Sent → System
sent_with y others (s, accepted) = record y { scheduler = s; counted = others }
sent_with y others (s, failure) = record {
  scheduler = s;
  counted = others;
  failed = failure ∷ y.failed;
}

sent : System → Option (Job × List Job) → System
unfolding sent_with try_send
sent y none = y
sent y (some (job, others)) = sent_with y others (try_send y.scheduler job)

taken_back : System → Option (Sent × List Sent) → System
unfolding take_back
taken_back y none = y
taken_back y (some (failure, others)) = record y {
  scheduler = take_back y.scheduler;
  failed = others;
}

-- The loop receives between two iterations only.
received_in : System → Round → System
unfolding receive
received_in y idle = record y { scheduler = receive y.scheduler }
received_in y _ = y

unfoldable pub step : System → Event → System
unfolding embed_inner embed_with_deadline begun pick sent taken_back received_in advance
step y (embeds peeked text deadline hint reply) =
    begun y (embed_inner y.scheduler peeked text deadline hint reply)
step y (embeds_by now peeked text deadline reply) =
    begun y (embed_with_deadline y.scheduler now peeked text deadline reply)
step y (sends n) = sent y (pick n y.counted)
step y (takes_back n) = taken_back y (pick n y.failed)
step y receives = received_in y y.scheduler.round
step y (advances now max_batch_tokens admission) = record y {
  scheduler = (advance now max_batch_tokens admission y.scheduler y.scheduler.round).0;
}

unfoldable pub run : System → List Event → System
unfolding step
run y [] = y
run y (e ∷ es) = run (step y e) es

abbrev pub at_rest : Scheduler → System
at_rest s = record { scheduler = s; counted = []; failed = [] }
