-- ===== src/Dispatcher/Scheduler/Waiting.antt =====
-- The reported queue depth is the number of jobs that wait.
use m3_core_rs.Base.{
  Text, ℕ, zero, suc, ◌+◌, ◌<◌, ◌≡◌, refl, sym, ap, ◌∙◌, inl, inr, Option, none, some, List, [],
  ◌∷◌, ◌++◌, map, arith, leb, Bool-cases, Option-cases, keep, is_empty, length, length-append,
  length-take, length-drop, drop,
}
use m3_core_rs.Errors.{ok, err}
use m3_core_rs.Dispatcher.Breaker.{Checked}
use m3_core_rs.Dispatcher.Queue
use m3_core_rs.Dispatcher.Queue.{
  Job, LengthBucketQueue, push, push_at, bucket_index, drain_first, drain_one, jobs_of, scan,
}
use m3_core_rs.Dispatcher.Queue.Totals.{new-IsValid, bucket_index-lt-length}
use m3_core_rs.Dispatcher.Scheduler.{
  Round, idle, drained, asking, acquiring, ending, new, Sent, try_send, take_back, embed_inner,
  embed_with_deadline, receive, received, is_alive, drained_to, drain, expire, ask, spawn, finish,
  advance, System, Event, embeds, embeds_by, sends, takes_back, receives, advances, begun, pick,
  sent_with, sent, taken_back, received_in, step, run, at_rest,
}

length-push_at :
    (i : ℕ) (job : Job) (bs : List (List Job))
    → i < length bs
    → (length (jobs_of (push_at i job bs)) ≡ suc (length (jobs_of bs)))
      × (length (push_at i job bs) ≡ length bs)
unfolding push_at
length-push_at i job [] h = absurd (omega arith)
length-push_at zero job (b ∷ bs) h = (
  omega (
    arith,
    length-append (b ++ job ∷ []) (jobs_of bs),
    length-append b (job ∷ []),
    length-append b (jobs_of bs),
  ),
  refl,
)
length-push_at (suc i) job (b ∷ bs) h =
    let (t, l) = length-push_at i job bs (omega arith) in
    (
      omega (arith, length-append b (jobs_of (push_at i job bs)), length-append b (jobs_of bs), t),
      ap suc l,
    )

Kept : List (List Job) → Option (List Job × ℕ × List (List Job)) → Type 0
Kept bs none = Unit
Kept bs (some (out, tokens, rest)) =
    (length (jobs_of bs) ≡ length out + length (jobs_of rest)) × (length rest ≡ length bs)

later-Kept :
    (bs : List (List Job)) (o : Option (List Job × ℕ × List (List Job)))
    → Kept bs o
    → Kept
        ([] ∷ bs)
        (elim o [ none ↦ none | some (out, tokens, rest) ↦ some (out, tokens, [] ∷ rest) ])
unfolding Kept
later-Kept bs none k = tt
later-Kept bs (some (out, tokens, rest)) k = (k.0, ap suc k.1)

drain_first-Kept : (cap : ℕ) (bs : List (List Job)) → Kept bs (drain_first cap bs)
unfolding drain_first Kept
drain_first-Kept cap [] = tt
drain_first-Kept cap ([] ∷ bs) = later-Kept bs (drain_first cap bs) (drain_first-Kept cap bs)
drain_first-Kept cap ((job ∷ jobs) ∷ bs) =
    let count = (scan cap 0 0 (job ∷ jobs)).0 in
    (
      omega (
        arith,
        length-append (job ∷ jobs) (jobs_of bs),
        length-append (drop count (job ∷ jobs)) (jobs_of bs),
        length-take count (job ∷ jobs),
        length-drop count (job ∷ jobs),
      ),
      refl,
    )

-- The jobs of the running iteration.
abbrev pub in_round : Round → ℕ
in_round idle = 0
in_round (drained n jobs) = n
in_round (asking n jobs) = n
in_round (acquiring n jobs) = n
in_round (ending n) = n

abbrev pub depth_of : System → ℕ
depth_of y =
    length y.scheduler.channel
    + length (jobs_of y.scheduler.queue.pending)
    + in_round y.scheduler.round
    + length y.counted
    + length y.failed

-- The count is exact, and every job has a bucket to go to.
pub record Counted (y : System) : Type 0 where
  pub depth : y.scheduler.queued ≡ depth_of y
  pub paired : length y.scheduler.queue.pending ≡ length y.scheduler.queue.buckets
  pub given : 0 < length y.scheduler.queue.buckets

length-pick {ℓ} :
    {A : Type ℓ} (n : ℕ) (xs : List A) {x : A} {others : List A}
    → pick n xs ≡ some (x, others)
    → length xs ≡ suc (length others)
unfolding pick
length-pick n [] e = cc
length-pick zero (x ∷ xs) e = ground arith
length-pick (suc n) (x ∷ xs) e = elim (Option-cases (pick n xs)) [
  | inl f ↦ cc
  | inr ((y, ys), f) ↦ ground (arith, length-pick n xs f)
]

embed_inner-Counted :
    (y : System) (peeked : Checked) (text : Text) (deadline hint : Option ℕ) (reply : ℕ)
    → Counted y
    → Counted (begun y (embed_inner y.scheduler peeked text deadline hint reply))
unfolding embed_inner begun
embed_inner-Counted y (err e) text deadline hint reply c = record {
  depth = c.depth;
  paired = c.paired;
  given = c.given;
}
embed_inner-Counted y (ok u) text deadline hint reply c = record {
  depth = omega (arith, c.depth);
  paired = c.paired;
  given = c.given;
}

embed_with_deadline-Counted :
    (y : System) (now : ℕ) (peeked : Checked) (text : Text) (deadline reply : ℕ)
    → Counted y
    → Counted (begun y (embed_with_deadline y.scheduler now peeked text deadline reply))
unfolding embed_with_deadline begun
embed_with_deadline-Counted y now peeked text deadline reply c =
    elim (Bool-cases (leb deadline now)) [
      | inl late ↦ rw late (record { depth = c.depth; paired = c.paired; given = c.given })
      | inr early ↦ rw early (embed_inner-Counted y peeked text (some deadline) none reply c)
    ]

sent-Counted :
    (y : System) (job : Job) (others : List Job)
    → length y.counted ≡ suc (length others)
    → Counted y
    → Counted (sent y (some (job, others)))
unfolding sent sent_with try_send
sent-Counted y job others l c = elim (Bool-cases y.scheduler.stopped) [
  | inl gone ↦
      rw gone (record { depth = omega (arith, c.depth); paired = c.paired; given = c.given })
  | inr runs ↦ elim (Bool-cases (leb y.scheduler.queue_cap (length y.scheduler.channel))) [
    | inl at_cap ↦
        rw (runs, at_cap)
          (record { depth = omega (arith, c.depth); paired = c.paired; given = c.given })
    | inr room ↦
        rw (runs, room)
          (record {
            depth = omega (arith, c.depth, length-append y.scheduler.channel (job ∷ []));
            paired = c.paired;
            given = c.given;
          })
  ]
]

sends-Counted :
    (y : System) (o : Option (Job × List Job)) (n : ℕ)
    → pick n y.counted ≡ o
    → Counted y
    → Counted (sent y o)
unfolding sent
sends-Counted y none n e c = c
sends-Counted y (some (job, others)) n e c =
    unfold sent in sent-Counted y job others (length-pick n y.counted e) c

takes_back-Counted :
    (y : System) (o : Option (Sent × List Sent)) (n : ℕ)
    → pick n y.failed ≡ o
    → Counted y
    → Counted (taken_back y o)
unfolding taken_back take_back
takes_back-Counted y none n e c = c
takes_back-Counted y (some (failure, others)) n e c =
    let l = length-pick n y.failed e in
    record { depth = omega (arith, c.depth, l); paired = c.paired; given = c.given }

received-Counted :
    (y : System) (jobs : List Job)
    → y.scheduler.channel ≡ jobs
    → Counted y
    → Counted (record y { scheduler = received y.scheduler jobs })
unfolding received push
received-Counted y [] e c = record { depth = c.depth; paired = c.paired; given = c.given }
received-Counted y (job ∷ jobs) e c =
    let q = y.scheduler.queue in
    let (t, l) =
      length-push_at (bucket_index q.buckets job.token_len) job q.pending
        (omega (arith, bucket_index-lt-length q.buckets job.token_len c.given, c.paired)) in
    let n : length y.scheduler.channel ≡ suc (length jobs) = ap length e in
    record { depth = omega (arith, c.depth, t, n); paired = l ∙ c.paired; given = c.given }

receives-Counted : (y : System) (r : Round) → Counted y → Counted (received_in y r)
unfolding received_in receive
receives-Counted y idle c = received-Counted y y.scheduler.channel refl c
receives-Counted y _ c = c

abbrev Shrunk : LengthBucketQueue → LengthBucketQueue × Option (List Job) → Type 0
Shrunk q (q', none) = q' ≡ q
Shrunk q (q', some jobs) =
    (length (jobs_of q.pending) ≡ length jobs + length (jobs_of q'.pending))
    × (length q'.pending ≡ length q.pending)
    × (q'.buckets ≡ q.buckets)

drained-Shrunk :
    (q : LengthBucketQueue) (max_tokens : ℕ) (o : Option (List Job × ℕ × List (List Job)))
    → drain_first max_tokens q.pending ≡ o
    → Kept q.pending o
    → Shrunk q (drain_one q max_tokens)
unfolding Kept drain_one
drained-Shrunk q max_tokens none e k = rw (e, drain_one) refl
drained-Shrunk q max_tokens (some (out, tokens, rest)) e k = rw (e, drain_one) (k.0, k.1, refl)

drain_one-Shrunk : (q : LengthBucketQueue) (max_tokens : ℕ) → Shrunk q (drain_one q max_tokens)
drain_one-Shrunk q max_tokens =
    drained-Shrunk q max_tokens (drain_first max_tokens q.pending) refl
      (drain_first-Kept max_tokens q.pending)

drained-Counted :
    (y : System) (r : LengthBucketQueue × Option (List Job))
    → y.scheduler.round ≡ idle
    → Shrunk y.scheduler.queue r
    → Counted y
    → Counted (record y { scheduler = drained_to y.scheduler r })
unfolding drained_to
drained-Counted y (q, none) i k c = record {
  depth = omega (arith, c.depth, ap (λ p. length (jobs_of p.pending)) k);
  paired = rw k c.paired;
  given = rw k c.given;
}
drained-Counted y (q, some []) i k c = record {
  depth = omega (arith, c.depth, k.0);
  paired = k.1 ∙ c.paired ∙ ap length (sym k.2);
  given = rw k.2 c.given;
}
drained-Counted y (q, some (job ∷ jobs)) i k c = record {
  depth = omega (arith, c.depth, k.0, ap in_round i);
  paired = k.1 ∙ c.paired ∙ ap length (sym k.2);
  given = rw k.2 c.given;
}

-- A step that leaves the queue and the count takes the iteration's jobs on.
same_count :
    (y : System) (r : Round)
    → in_round y.scheduler.round ≡ in_round r
    → Counted y
    → Counted (record y { scheduler = record y.scheduler { round = r } })
same_count y r e c = record {
  depth = omega (arith, c.depth, e);
  paired = c.paired;
  given = c.given;
}

advance-Counted :
    (y : System) (now max_tokens : ℕ) (admission : Checked) (r : Round)
    → y.scheduler.round ≡ r
    → Counted y
    → Counted (record y { scheduler = (advance now max_tokens admission y.scheduler r).0 })
unfolding advance drain expire ask spawn finish
advance-Counted y now max_tokens admission idle e c =
    drained-Counted y (drain_one y.scheduler.queue max_tokens) e
      (drain_one-Shrunk y.scheduler.queue max_tokens) c
advance-Counted y now max_tokens admission (drained n jobs) e c =
    elim (Bool-cases (is_empty (keep (is_alive now) jobs))) [
      | inl over ↦ rw over (same_count y (ending n) (ap in_round e) c)
      | inr more ↦ rw more (same_count y (asking n (keep (is_alive now) jobs)) (ap in_round e) c)
    ]
advance-Counted y now max_tokens (ok u) (asking n jobs) e c =
    same_count y (acquiring n jobs) (ap in_round e) c
advance-Counted y now max_tokens (err x) (asking n jobs) e c =
    same_count y (ending n) (ap in_round e) c
advance-Counted y now max_tokens admission (acquiring n jobs) e c =
    same_count y (ending n) (ap in_round e) c
advance-Counted y now max_tokens admission (ending n) e c = record {
  depth = omega (arith, c.depth, ap in_round e);
  paired = c.paired;
  given = c.given;
}

step-Counted : (y : System) (e : Event) → Counted y → Counted (step y e)
unfolding step
step-Counted y (embeds peeked text deadline hint reply) c =
    embed_inner-Counted y peeked text deadline hint reply c
step-Counted y (embeds_by now peeked text deadline reply) c =
    embed_with_deadline-Counted y now peeked text deadline reply c
step-Counted y (sends n) c = sends-Counted y (pick n y.counted) n refl c
step-Counted y (takes_back n) c = takes_back-Counted y (pick n y.failed) n refl c
step-Counted y receives c = receives-Counted y y.scheduler.round c
step-Counted y (advances now max_tokens admission) c =
    advance-Counted y now max_tokens admission y.scheduler.round refl c

run-Counted : (y : System) (es : List Event) → Counted y → Counted (run y es)
unfolding run
run-Counted y [] c = c
run-Counted y (e ∷ es) c = run-Counted (step y e) es (step-Counted y e c)

no_jobs : (cs : List ℕ) → length (jobs_of (map (λ _. []) cs)) ≡ 0
no_jobs [] = refl
no_jobs (c ∷ cs) = no_jobs cs

new-Counted :
    (length_buckets : List ℕ) (streams : ℕ) → Counted (at_rest (new length_buckets streams))
unfolding new Queue.new
new-Counted length_buckets streams =
    let v = new-IsValid length_buckets in
    record {
      depth = omega (arith, no_jobs (Queue.new length_buckets).buckets);
      paired = v.paired;
      given = v.given;
    }

-- In every interleaving of the callers' atomic steps with those of a new dispatcher's scheduler,
-- whatever is refused, expired or handed on, the queue depth that it reports is the number of the jobs
-- in the channel, in the buckets and of the flush iteration that is running, up to its end, and of
-- those that are counted and not yet sent, or not yet taken back after a send that failed.
pub run-new-Counted :
    (length_buckets : List ℕ) (streams : ℕ) (es : List Event)
    → let y = run (at_rest (new length_buckets streams)) es in y.scheduler.queued ≡ depth_of y
run-new-Counted length_buckets streams es =
    (run-Counted (at_rest (new length_buckets streams)) es
      (new-Counted length_buckets streams)).depth
