-- ===== src/Dispatcher/Queue/Totals.antt =====
-- The token total that the scheduler reads without the lock, and the order in which jobs leave.
use m3_core_rs.Base.{
  ℕ, zero, suc, ◌+◌, ◌<◌, ◌≡◌, refl, sym, ap, ◌∙◌, Option, none, some, List, [], ◌∷◌, ◌++◌, map,
  length, u64_max, arith, length-map,
}
use m3_core_rs.Dispatcher.Queue.{
  Job, LengthBucketQueue, new, bucket_index, push_at, push, jobs_of, tokens_of, wrap, sort,
  insert_sorted,
}
use m3_core_rs.Dispatcher.Queue.Draining.{Drained}

-- The atomic total is the sum of the pending tokens, and each job has a bucket to go to.
pub record IsValid (q : LengthBucketQueue) : Type 0 where
  pub total : q.total_tokens ≡ tokens_of (jobs_of q.pending)
  pub below : tokens_of (jobs_of q.pending) < wrap
  pub paired : length q.pending ≡ length q.buckets
  pub given : 0 < length q.buckets

tokens_of-append : (xs ys : List Job) → tokens_of (xs ++ ys) ≡ tokens_of xs + tokens_of ys
tokens_of-append [] ys = omega arith
tokens_of-append (x ∷ xs) ys = omega (arith, tokens_of-append xs ys)

pushed_tokens :
    (i : ℕ) (job : Job) (bs : List (List Job))
    → i < length bs
    → (tokens_of (jobs_of (push_at i job bs)) ≡ tokens_of (jobs_of bs) + job.token_len)
      × (length (push_at i job bs) ≡ length bs)
unfolding push_at
pushed_tokens i job [] h = absurd (omega arith)
pushed_tokens zero job (b ∷ bs) h = (
  omega (
    arith,
    tokens_of-append (b ++ job ∷ []) (jobs_of bs),
    tokens_of-append b (job ∷ []),
    tokens_of-append b (jobs_of bs),
  ),
  refl,
)
pushed_tokens (suc i) job (b ∷ bs) h =
    let (t, l) = pushed_tokens i job bs (omega arith) in
    (
      omega (
        arith,
        tokens_of-append b (jobs_of (push_at i job bs)),
        tokens_of-append b (jobs_of bs),
        t,
      ),
      ap suc l,
    )

pub bucket_index-lt-length :
    (buckets : List ℕ) (token_len : ℕ)
    → 0 < length buckets
    → bucket_index buckets token_len < length buckets
unfolding bucket_index
bucket_index-lt-length buckets token_len h = omega arith

pub length-insert_sorted : (c : ℕ) (cs : List ℕ) → length (insert_sorted c cs) ≡ suc (length cs)
unfolding insert_sorted
length-insert_sorted c [] = refl
length-insert_sorted c (d ∷ ds) = ground (arith, length-insert_sorted c ds)

jobs_of-idle : (cs : List ℕ) → jobs_of (map (λ _. []) cs) ≡ []
jobs_of-idle [] = refl
jobs_of-idle (c ∷ cs) = jobs_of-idle cs

sorted_some : (c : ℕ) (cs : List ℕ) → 0 < length (sort (c ∷ cs))
unfolding sort
sorted_some c cs = omega (arith, length-insert_sorted c (sort cs))

of_ceilings :
    (cs : List ℕ)
    → 0 < length cs
    → IsValid (record { buckets = cs; pending = map (λ _. []) cs; total_tokens = 0 })
of_ceilings cs h = record {
  total = sym (ap tokens_of (jobs_of-idle cs));
  below = rw (jobs_of-idle cs) (omega arith);
  paired = length-map cs (λ _. []);
  given = h;
}

pub new-IsValid : (ceilings : List ℕ) → IsValid (new ceilings)
unfolding new
new-IsValid [] = of_ceilings _ (sorted_some u64_max [])
new-IsValid (c ∷ cs) = of_ceilings _ (sorted_some c cs)

push-IsValid :
    (q : LengthBucketQueue) (job : Job)
    → tokens_of (jobs_of q.pending) + job.token_len < wrap
    → IsValid q
    → IsValid (push q job)
unfolding push
push-IsValid q job h v =
    let i = bucket_index q.buckets job.token_len in
    let lt : i < length q.pending =
      omega (arith, bucket_index-lt-length q.buckets job.token_len v.given, v.paired) in
    let (t, l) = pushed_tokens i job q.pending lt in
    record {
      total = omega (arith, t, v.total);
      below = omega (arith, t);
      paired = l ∙ v.paired;
      given = v.given;
    }

-- What one call of `drain_one` does with a queue: nothing is pending and nothing changes, or a
-- batch leaves the front of the first bucket with work.
pub data DrainedOne (max_tokens : ℕ) (q : LengthBucketQueue)
    : LengthBucketQueue → Option (List Job) → Type 0 where
  nothing :
      {q' : LengthBucketQueue} {o : Option (List Job)}
      → jobs_of q.pending ≡ []
      → q' ≡ q
      → o ≡ none
      → DrainedOne max_tokens q q' o
  batch :
      {q' : LengthBucketQueue} {o : Option (List Job)} (out : List Job) (tokens : ℕ)
      → Drained max_tokens q.pending out tokens q'.pending
      → jobs_of q.pending ≡ out ++ jobs_of q'.pending
      → o ≡ some out
      → DrainedOne max_tokens q q' o

-- Pushing a job that leaves the total below 2^64 keeps a valid queue valid, and a new queue is
-- valid whatever its ceilings.
pub new-push-IsValid :
    (ceilings : List ℕ) (q : LengthBucketQueue) (job : Job)
    → IsValid q
    → tokens_of (jobs_of q.pending) + job.token_len < wrap
    → IsValid (new ceilings) × IsValid (push q job)
new-push-IsValid ceilings q job v h = (new-IsValid ceilings, push-IsValid q job h v)
