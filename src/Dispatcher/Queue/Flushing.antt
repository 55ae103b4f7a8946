-- ===== src/Dispatcher/Queue/Flushing.antt =====
-- A flush empties the queue, batch by batch.
use m3_core_rs.Base.{◌≡◌, List, []}
use m3_core_rs.Dispatcher.Queue.{Job, LengthBucketQueue, jobs_of}

abbrev Flushes : List Job → List (List Job) × LengthBucketQueue → Type 0
Flushes jobs r = (jobs_of r.0 ≡ jobs) × (jobs_of r.1.pending ≡ [])
