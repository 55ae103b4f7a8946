-- ===== src/Dispatcher/Queue.antt =====
-- crates/m3-dispatcher/src/lib.rs, `LengthBucketQueue`: pending jobs by token length. `usize` is 64
-- bits wide; the atomic total wraps there. A job's reply channel is the number of its caller.
pub mod Totals
pub mod Flushing
pub mod Draining
pub mod Buckets
mod Tests
use m3_core_rs.Base.{
  ℕ, zero, suc, ◌+◌, ◌-◌, ◌%◌, ◌^◌, min, Bool, ◌&&◌, Option, none, some, List, [], ◌∷◌, ◌++◌, map,
  ltb, leb, if◌then◌else◌, Text, length, take, drop, u64_max,
}

pub record Job : Type 0 where
  pub text : Text
  pub token_len : ℕ
  pub reply : ℕ
  pub deadline : Option ℕ

pub record LengthBucketQueue : Type 0 where
  pub buckets : List ℕ
  pub pending : List (List Job)
  pub total_tokens : ℕ

-- `sort_unstable` on numbers.
pub insert_sorted : ℕ → List ℕ → List ℕ
insert_sorted c [] = c ∷ []
insert_sorted c (d ∷ ds) = if leb c d then c ∷ d ∷ ds else d ∷ insert_sorted c ds

unfoldable pub sort : List ℕ → List ℕ
unfolding insert_sorted
sort [] = []
sort (c ∷ cs) = insert_sorted c (sort cs)

bucket_list : List ℕ → List ℕ
bucket_list [] = u64_max ∷ []
bucket_list (c ∷ cs) = c ∷ cs

unfoldable pub new : List ℕ → LengthBucketQueue
unfolding bucket_list sort
new buckets =
    let sorted = sort (bucket_list buckets) in
    record { buckets = sorted; pending = map (λ _. []) sorted; total_tokens = 0 }

-- `partition_point(|c| c < token_len)` on ascending ceilings.
unfoldable pub partition_point : ℕ → List ℕ → ℕ
partition_point token_len [] = 0
partition_point token_len (c ∷ cs) =
    if ltb c token_len then suc (partition_point token_len cs) else 0

unfoldable pub bucket_index : List ℕ → ℕ → ℕ
unfolding partition_point
bucket_index buckets token_len = min (partition_point token_len buckets) (length buckets - 1)

unfoldable pub push_at : ℕ → Job → List (List Job) → List (List Job)
push_at i job [] = []
push_at zero job (b ∷ bs) = (b ++ job ∷ []) ∷ bs
push_at (suc i) job (b ∷ bs) = b ∷ push_at i job bs

abbrev pub wrap : ℕ
wrap = 2 ^ 64

unfoldable pub push : LengthBucketQueue → Job → LengthBucketQueue
unfolding bucket_index push_at
push q job = record q {
  total_tokens = (q.total_tokens + job.token_len) % wrap;
  pending = push_at (bucket_index q.buckets job.token_len) job q.pending;
}

-- The scan of `drain_one`: how many jobs fit under the cap, and their tokens. The first always does.
unfoldable pub scan : ℕ → ℕ → ℕ → List Job → ℕ × ℕ
scan cap count tokens [] = (count, tokens)
scan cap count tokens (job ∷ jobs) =
    let rest = scan cap (count + 1) (tokens + job.token_len) jobs in
    if ltb 0 count && ltb cap (tokens + job.token_len) then (count, tokens) else rest

-- The first bucket with work: its drained jobs, their tokens, and the buckets that are left.
unfoldable pub drain_first : ℕ → List (List Job) → Option (List Job × ℕ × List (List Job))
unfolding scan
drain_first cap [] = none
drain_first cap ([] ∷ bs) = elim (drain_first cap bs) [
  | none ↦ none
  | some (out, tokens, rest) ↦ some (out, tokens, [] ∷ rest)
]
drain_first cap ((job ∷ jobs) ∷ bs) =
    let (count, tokens) = scan cap 0 0 (job ∷ jobs) in
    some (take count (job ∷ jobs), tokens, drop count (job ∷ jobs) ∷ bs)

unfoldable pub drain_one : LengthBucketQueue → ℕ → LengthBucketQueue × Option (List Job)
unfolding drain_first
drain_one q cap = elim (drain_first cap q.pending) [
  | none ↦ (q, none)
  | some (out, tokens, rest) ↦ (
    record q { pending = rest; total_tokens = (q.total_tokens + wrap - tokens) % wrap },
    some out,
  )
]

-- Every pending job, in the order of the buckets.
abbrev pub jobs_of : List (List Job) → List Job
jobs_of [] = []
jobs_of (b ∷ bs) = b ++ jobs_of bs

abbrev pub tokens_of : List Job → ℕ
tokens_of [] = 0
tokens_of (job ∷ jobs) = job.token_len + tokens_of jobs

-- The flush loop of `scheduler_loop`, over the queue alone: batches until none is left.
unfoldable pub drain_all : ℕ → LengthBucketQueue → ℕ → List (List Job) × LengthBucketQueue
drain_all zero q max_tokens = ([], q)
drain_all (suc f) q max_tokens =
    let (q', batch) = drain_one q max_tokens in
    elim batch [
      | none ↦ ([], q')
      | some jobs ↦ let (batches, q'') = drain_all f q' max_tokens in (jobs ∷ batches, q'')
    ]
