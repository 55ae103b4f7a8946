-- ===== src/Dispatcher/Batch/Answers.antt =====
-- Every job of a batch is answered, once.
use m3_core_rs.Base.{
  get_elem?, remove_at, ℕ, zero, suc, ◌≤◌, ◌<◌, ◌≡◌, refl, ap, inl, inr, some, List, [], ◌∷◌, map,
  arith, ltb, ◌==◌, Bool-cases, length, Option-cases,
}
use mathlib.Core.List.{Perm}
use mathlib.Core.List.Perm
use m3_core_rs.Errors.{M3Error, input_too_long, Result, ok, err}
use m3_core_rs.Dispatcher.Batch.{
  Batch, Asked, checked_rows, settled, Verdict, served, over_long, failed, judge, zip_replies,
  fail_all, blame, Effects, nothing, after, found, named, coalesced, task, batch_of,
}

abbrev pub callers : List Asked → List ℕ
callers jobs = map (λ j. j.reply) jobs

pub removed :
    (i : ℕ) (jobs : List Asked) (a : Asked)
    → get_elem? jobs i ≡ some a
    → Perm jobs (a ∷ remove_at i jobs) × (length jobs ≡ suc (length (remove_at i jobs)))
removed i [] a h = cc
removed zero (j ∷ jobs) a h = let e : j ≡ a = ground (arith, h) in rw e (Perm.refl (a ∷ jobs), refl)
removed (suc i) (j ∷ jobs) a h =
    let (p, l) = removed i jobs a h in (Perm.trans (Perm.cons j p) (Perm.swap a j _), ap suc l)

module _ {Row : Type 0} where
  abbrev pub answered : List (ℕ × Result Row) → List ℕ
  answered [] = []
  answered ((c, r) ∷ replies) = c ∷ answered replies

module _ (Row : Type 0) where
  pub answered-fail_all :
      (e : M3Error) (jobs : List Asked) → answered (fail_all {Row = Row} e jobs) ≡ callers jobs
  unfolding fail_all
  answered-fail_all e [] = refl
  answered-fail_all e (j ∷ jobs) = ap (◌∷◌ j.reply) (answered-fail_all e jobs)

  pub answered-zip_replies :
      (jobs : List Asked) (rows : List Row)
      → length rows ≡ length jobs
      → answered (zip_replies jobs rows) ≡ callers jobs
  unfolding zip_replies
  answered-zip_replies [] rows h = refl
  answered-zip_replies (j ∷ jobs) [] h = absurd (omega (arith, h))
  answered-zip_replies (j ∷ jobs) (row ∷ rows) h =
      ap (◌∷◌ j.reply) (answered-zip_replies jobs rows (omega (arith, h)))

  -- What a round's verdict says of its jobs.
  abbrev pub Sound : List Asked → Verdict Row → Type 0
  Sound jobs (served rows) = length rows ≡ length jobs
  Sound jobs (over_long a tokens n_ctx i) =
      Perm jobs (a ∷ remove_at i jobs) × (length jobs ≡ suc (length (remove_at i jobs)))
  Sound jobs (failed e) = Unit

  found-Sound :
      (i tokens n_ctx : ℕ) (jobs : List Asked)
      → Sound jobs (found (get_elem? jobs i) tokens n_ctx i)
  unfolding found
  found-Sound i tokens n_ctx jobs = elim (Option-cases (get_elem? jobs i)) [
    | inl e ↦ rw e tt
    | inr (a, e) ↦ rw e (removed i jobs a e)
  ]

  named-Sound : (e : M3Error) (jobs : List Asked) → Sound jobs (named e jobs)
  unfolding named
  named-Sound (input_too_long tokens n_ctx (some i)) jobs =
      elim (Bool-cases (ltb 1 (length jobs))) [
        | inl more ↦ rw more (found-Sound i tokens n_ctx jobs)
        | inr one ↦ rw one tt
      ]
  named-Sound _ jobs = tt

  pub judge-Sound :
      (res : Result (List Row)) (jobs : List Asked)
      → Sound jobs (judge (settled res (length jobs)) jobs)
  unfolding settled judge checked_rows
  judge-Sound (ok rows) jobs = elim (Bool-cases (length rows == length jobs)) [
    | inl same ↦ rw same (ground arith)
    | inr other ↦ rw other tt
  ]
  judge-Sound (err e) jobs = named-Sound e jobs

  length-blame : (e : M3Error) → length (blame e) ≤ 1
  unfolding blame
  length-blame e = ground arith

  -- Everyone of `jobs` is answered once, with at most one backend call for each and at most one
  -- report.
  abbrev pub Answers : List Asked → Effects Row → Type 0
  Answers jobs out =
      Perm (answered out.replies) (callers jobs)
      × (length out.samples ≤ length jobs)
      × (length out.reports ≤ 1)

  after-Answers :
      (v : Verdict Row) (jobs : List Asked) (elapsed : ℕ) (later : ℕ → Effects Row)
      → Sound jobs v
      → 0 < length jobs
      → ((i : ℕ) → length (remove_at i jobs) < length jobs → Answers (remove_at i jobs) (later i))
      → Answers jobs (after v jobs elapsed later)
  unfolding after
  after-Answers (served rows) jobs elapsed later s p h =
      (rw (answered-zip_replies jobs rows s) (Perm.refl _), p, omega arith)
  after-Answers (over_long a tokens n_ctx i) jobs elapsed later s p h =
      let (q, l, r) = h i (omega (arith, s.1)) in
      (
        Perm.trans (Perm.cons a.reply q) (Perm.symm (Perm.map (λ j. j.reply) s.0)),
        omega (arith, l, s.1),
        r,
      )
  after-Answers (failed e) jobs elapsed later s p h =
      (rw (answered-fail_all e jobs) (Perm.refl _), p, length-blame e)

  coalesced-Answers :
      (call : ℕ → Batch → Result (List Row) × ℕ) (f k : ℕ) (jobs : List Asked)
      → length jobs ≤ f
      → Answers jobs (coalesced call f k jobs)
  unfolding coalesced nothing
  coalesced-Answers call zero k [] h = (Perm.refl [], omega arith, omega arith)
  coalesced-Answers call zero k (j ∷ jobs) h = absurd (omega arith)
  coalesced-Answers call (suc f) k [] h = (Perm.refl [], omega arith, omega arith)
  coalesced-Answers call (suc f) k (j ∷ jobs) h =
      let r = (call k (batch_of (map (λ a. a.text) (j ∷ jobs)))).0 in
      after-Answers (judge (settled r (length (j ∷ jobs))) (j ∷ jobs)) (j ∷ jobs)
        (call k (batch_of (map (λ a. a.text) (j ∷ jobs)))).1
        (λ i. coalesced call f (suc k) (remove_at i (j ∷ jobs))) (judge-Sound r (j ∷ jobs))
        (omega arith)
        (λ i l. coalesced-Answers call f (suc k) (remove_at i (j ∷ jobs)) (omega arith))

-- Whatever the backend answers, a task ends with every job's caller answered exactly once, after at
-- most one backend call for each job, and with at most one report to the breaker.
pub task-answers :
    (Row : Type 0) (call : ℕ → Batch → Result (List Row) × ℕ) (jobs : List Asked)
    → let out = task call jobs in
      Perm (answered out.replies) (callers jobs)
      × (length out.samples ≤ length jobs)
      × (length out.reports ≤ 1)
unfolding task
task-answers Row call jobs = coalesced-Answers Row call (length jobs) 0 jobs (omega arith)
