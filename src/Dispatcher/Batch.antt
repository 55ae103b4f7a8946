-- ===== src/Dispatcher/Batch.antt =====
-- crates/m3-dispatcher/src/lib.rs: one batch on its way through the backend, on the coalesced path
-- (the task that `scheduler_loop` spawns) and on the direct one (`run_direct`). The backend is not
-- part of the program; it is a function of the call's number and the batch. What a task does to
-- the shared breaker and latency ring is the list of its records, since other tasks act in between.
pub mod Answers
pub mod Isolation
mod Tests
use m3_core_rs.Base.{
  get_elem?, remove_at, ℕ, zero, suc, ◌+◌, ◌-◌, ◌*◌, ◌/◌, max, Bool, true, false, not, ◌&&◌, Option,
  none, some, List, [], ◌∷◌, ◌++◌, map, ltb, ◌==◌, if◌then◌else◌, Text, ascii, length, keep,
}
use m3_core_rs.Errors.{M3Error, input_too_long, backend, Result, ok, err, decimal, clone}

pub record Batch : Type 0 where
  pub texts : List Text
  pub token_len_hint : ℕ

abbrev pub special_tokens : ℕ
special_tokens = 2

-- `chars().count()`: the bytes that do not continue a character.
starts_char : ℕ → Bool
starts_char b = not (b / 64 == 2)

char_count : Text → ℕ
unfolding starts_char
char_count text = length (keep starts_char text)

unfoldable pub estimate_tokens : Text → ℕ
unfolding char_count
estimate_tokens [] = special_tokens
estimate_tokens text = max (length text / 3) (char_count text) + special_tokens

estimate_all : List Text → ℕ
unfolding estimate_tokens
estimate_all [] = 0
estimate_all (text ∷ texts) = estimate_tokens text + estimate_all texts

unfoldable pub batch_of : List Text → Batch
unfolding estimate_all
batch_of texts = record { texts = texts; token_len_hint = estimate_all texts }

unfoldable pub is_client_error : M3Error → Bool
is_client_error (input_too_long tokens n_ctx index) = true
is_client_error _ = false

-- What a task tells the shared breaker.
pub data Report : Type 0 where
  success : Report
  failure_because : M3Error → Report

-- A caller's text and the channel that answers it.
pub record Asked : Type 0 where
  pub text : Text
  pub reply : ℕ

unfoldable pub blame : M3Error → List Report
unfolding is_client_error
blame e = if is_client_error e then [] else failure_because e ∷ []

-- The three arms behind a backend call.
pub data Verdict (Row : Type 0) : Type 0 where
  served : List Row → Verdict Row
  over_long : Asked → ℕ → ℕ → ℕ → Verdict Row
  failed : M3Error → Verdict Row

-- What a task leaves behind: its answers, its reports, and the duration of each backend call.
pub record Effects (Row : Type 0) : Type 0 where
  pub replies : List (ℕ × Result Row)
  pub reports : List Report
  pub samples : List ℕ

module _ {Row : Type 0} where
  unfoldable pub checked_rows : List Row → ℕ → Result (List Row)
  checked_rows rows sent =
      if length rows == sent
      then ok rows
      else err (
          backend (
            ascii "backend returned "
            ++ decimal (length rows)
            ++ ascii " embedding rows for "
            ++ decimal sent
            ++ ascii " input texts"))

  unfoldable pub settled : Result (List Row) → ℕ → Result (List Row)
  unfolding checked_rows
  settled (ok rows) sent = checked_rows rows sent
  settled (err e) sent = err e

  unfoldable pub found : Option Asked → ℕ → ℕ → ℕ → Verdict Row
  found none tokens n_ctx i = failed (input_too_long tokens n_ctx (some i))
  found (some j) tokens n_ctx i = over_long j tokens n_ctx i

  -- `jobs.len() > 1 && i < jobs.len()` is that the batch has a job at `i` and more than one.
  unfoldable pub named : M3Error → List Asked → Verdict Row
  unfolding found
  named (input_too_long tokens n_ctx (some i)) jobs =
      if ltb 1 (length jobs)
      then found (get_elem? jobs i) tokens n_ctx i
      else failed (input_too_long tokens n_ctx (some i))
  named e jobs = failed e

  unfoldable pub judge : Result (List Row) → List Asked → Verdict Row
  unfolding named
  judge (ok rows) jobs = served rows
  judge (err e) jobs = named e jobs

  unfoldable pub zip_replies : List Asked → List Row → List (ℕ × Result Row)
  zip_replies [] rows = []
  zip_replies (j ∷ jobs) [] = []
  zip_replies (j ∷ jobs) (row ∷ rows) = (j.reply, ok row) ∷ zip_replies jobs rows

  -- Each of `jobs` gets the same error.
  unfoldable pub fail_all : M3Error → List Asked → List (ℕ × Result Row)
  unfolding clone
  fail_all e [] = []
  fail_all e (j ∷ jobs) = (j.reply, err (clone e)) ∷ fail_all e jobs

  unfoldable pub nothing : Effects Row
  nothing = record { replies = []; reports = []; samples = [] }

  -- What is left of a round, with the rounds on the rest of the jobs behind it.
  unfoldable pub after : Verdict Row → List Asked → ℕ → (ℕ → Effects Row) → Effects Row
  unfolding zip_replies fail_all blame
  after (served rows) jobs elapsed later = record {
    replies = zip_replies jobs rows;
    reports = success ∷ [];
    samples = elapsed ∷ [];
  }
  after (over_long asked tokens n_ctx i) jobs elapsed later = record {
    replies = (asked.reply, err (input_too_long tokens n_ctx (some 0))) ∷ (later i).replies;
    reports = (later i).reports;
    samples = elapsed ∷ (later i).samples;
  }
  after (failed e) jobs elapsed later = record {
    replies = fail_all e jobs;
    reports = blame e;
    samples = elapsed ∷ [];
  }

  module _ (call : ℕ → Batch → Result (List Row) × ℕ) where
    -- The loop of the task. Every round but the last answers one job, so that as many rounds as
    -- jobs are enough.
    unfoldable pub coalesced : ℕ → ℕ → List Asked → Effects Row
    unfolding nothing batch_of judge settled after
    coalesced zero k jobs = nothing
    coalesced (suc f) k [] = nothing
    coalesced (suc f) k (j ∷ jobs) =
        let (res, elapsed) = call k (batch_of (map (λ a. a.text) (j ∷ jobs))) in
        after (judge (settled res (length (j ∷ jobs))) (j ∷ jobs)) (j ∷ jobs) elapsed
          (λ i. coalesced f (suc k) (remove_at i (j ∷ jobs)))

    -- The task, with a round for each of its jobs.
    unfoldable pub task : List Asked → Effects Row
    unfolding coalesced
    task jobs = coalesced (length jobs) 0 jobs

  direct_reports : Result (List Row) → List Report
  unfolding blame
  direct_reports (ok rows) = success ∷ []
  direct_reports (err e) = blame e

  -- The direct path behind its admission: the caller's answer, and the reports.
  unfoldable pub run_direct :
      (Batch → Result (List Row)) → List Text → ℕ → Result (List Row) × List Report
  unfolding settled direct_reports
  run_direct call texts token_len =
      let res =
        settled (call (record { texts = texts; token_len_hint = token_len })) (length texts) in
      (res, direct_reports res)
