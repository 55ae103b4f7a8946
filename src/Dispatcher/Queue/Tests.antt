-- ===== src/Dispatcher/Queue/Tests.antt =====
-- A queue with jobs in it, and the theorems at inputs that meet their hypotheses.
use m3_core_rs.Base.{ℕ, ◌+◌, ◌≡◌, ◌<◌, refl, none, List, [], ◌∷◌, arith}
use m3_core_rs.Dispatcher.Queue.{
  Job, LengthBucketQueue, new, bucket_index, push, jobs_of, tokens_of, wrap, sort,
}
use m3_core_rs.Dispatcher.Queue.Totals.{new-IsValid, IsValid, new-push-IsValid}

abbrev ceilings : List ℕ
ceilings = 256 ∷ 64 ∷ 1024 ∷ []

abbrev job : ℕ → ℕ → Job
job reply tokens = record { text = []; token_len = tokens; reply = reply; deadline = none }

abbrev first : LengthBucketQueue
first = push (new ceilings) (job 1 65)

abbrev filled : LengthBucketQueue
filled = push first (job 2 200)

bucket_test : bucket_index (new ceilings).buckets 65 ≡ 1
unfolding bucket_index new sort
bucket_test = refl

filled_test : jobs_of filled.pending ≡ job 1 65 ∷ job 2 200 ∷ []
unfolding push new sort
filled_test = refl

new_room : tokens_of (jobs_of (new ceilings).pending) + 65 < wrap
unfolding new sort
new_room = omega arith

first_room : tokens_of (jobs_of first.pending) + 200 < wrap
unfolding new sort push
first_room = omega arith

first-IsValid : IsValid first
first-IsValid =
    (new-push-IsValid ceilings (new ceilings) (job 1 65) (new-IsValid ceilings) new_room).1

new-push-IsValid_example : IsValid (new ceilings) × IsValid (push first (job 2 200))
new-push-IsValid_example = new-push-IsValid ceilings first (job 2 200) first-IsValid first_room
