-- ===== src/Dispatcher/Queue/Draining.antt =====
-- What `drain_one` takes: a front of the first bucket with work, as long as the cap lets it be.
use m3_core_rs.Base.{
  ℕ, zero, suc, ◌+◌, ◌≤◌, ◌<◌, ◌≡◌, refl, sym, ap, ◌⊎◌, inl, inr, ◌&&◌, Option, none, some, List,
  [], ◌∷◌, ◌++◌, ltb, length, take, drop, arith, Bool-cases, take-append-drop,
}
use m3_core_rs.Dispatcher.Queue.{Job, scan, drain_first, jobs_of, tokens_of}

-- A scan of `jobs` behind `count` jobs with `tokens` tokens: what it adds, and why it stops.
pub record Scanned (cap count tokens : ℕ) (jobs : List Job) : Type 0 where
  pub more : ℕ
  pub fits : more ≤ length jobs
  pub result : scan cap count tokens jobs ≡ (count + more, tokens + tokens_of (take more jobs))
  pub under : (more ≡ 0) ⊎ ((tokens + tokens_of (take more jobs) ≤ cap) ⊎ (count + more ≡ 1))
  pub first : (count ≡ 0) → (0 < length jobs) → 0 < more
  pub full :
      (drop more jobs ≡ [])
      ⊎ ((job : Job) × (rest : List Job) × (drop more jobs ≡ job ∷ rest)
          × (cap < tokens + tokens_of (take more jobs) + job.token_len))

scan-Scanned : (cap count tokens : ℕ) (jobs : List Job) → Scanned cap count tokens jobs
unfolding scan
scan-Scanned cap count tokens [] = record {
  more = 0;
  fits = omega arith;
  result = ground arith;
  under = inl refl;
  first = λ z h. absurd (omega arith);
  full = inl refl;
}
scan-Scanned cap count tokens (job ∷ jobs) =
    elim (Bool-cases (ltb 0 count && ltb cap (tokens + job.token_len))) [
      | inl stop ↦ record {
        more = 0;
        fits = omega arith;
        result = ground arith;
        under = inl refl;
        first = λ z h. absurd (ground arith);
        full = inr (job, jobs, refl, ground arith);
      }
      | inr go ↦
          let s = scan-Scanned cap (count + 1) (tokens + job.token_len) jobs in
          record {
            more = suc s.more;
            fits = omega (arith, s.fits);
            result = ground (arith, s.result);
            under = ground (arith, s.under);
            first = λ z h. omega arith;
            full = ground (arith, s.full);
          }
    ]

-- A drain of the buckets `pending`: `out` is the front of the first bucket with work.
pub record Drained (cap : ℕ) (pending : List (List Job)) (out : List Job) (tokens : ℕ)
    (rest : List (List Job)) : Type 0 where
  pub idle : List (List Job)
  pub left : List Job
  pub others : List (List Job)
  pub idle_empty : jobs_of idle ≡ []
  pub before : pending ≡ idle ++ (out ++ left) ∷ others
  pub after : rest ≡ idle ++ left ∷ others
  pub counted : tokens ≡ tokens_of out
  pub some_out : 0 < length out
  pub under_cap : (tokens_of out ≤ cap) ⊎ (length out ≡ 1)
  pub maximal :
      (left ≡ [])
      ⊎ ((job : Job) × (more : List Job) × (left ≡ job ∷ more)
          × (cap < tokens_of out + job.token_len))

abbrev pub DrainResult : ℕ → List (List Job) → Option (List Job × ℕ × List (List Job)) → Type 0
DrainResult cap pending none = jobs_of pending ≡ []
DrainResult cap pending (some (out, tokens, rest)) = Drained cap pending out tokens rest

length-take_le : (n : ℕ) (jobs : List Job) → n ≤ length jobs → length (take n jobs) ≡ n
length-take_le zero jobs h = refl
length-take_le (suc n) [] h = absurd (omega arith)
length-take_le (suc n) (job ∷ jobs) h = ap suc (length-take_le n jobs (omega arith))

taken_here :
    (cap : ℕ) (job : Job) (jobs : List Job) (bs : List (List Job))
    → let s = scan cap 0 0 (job ∷ jobs) in
      Drained cap ((job ∷ jobs) ∷ bs) (take s.0 (job ∷ jobs)) s.1 (drop s.0 (job ∷ jobs) ∷ bs)
taken_here cap job jobs bs =
    let s = scan-Scanned cap 0 0 (job ∷ jobs) in
    let count : (scan cap 0 0 (job ∷ jobs)).0 ≡ s.more = ground (arith, s.result) in
    let size = length-take_le s.more (job ∷ jobs) s.fits in
    rw count (record {
      idle = [];
      left = drop s.more (job ∷ jobs);
      others = bs;
      idle_empty = refl;
      before = ap (λ b. b ∷ bs) (sym (take-append-drop s.more (job ∷ jobs)));
      after = refl;
      counted = ground (arith, s.result);
      some_out = omega (arith, size, s.first refl (omega arith));
      under_cap = ground (arith, s.under, size, s.first refl);
      maximal = ground (arith, s.full);
    })

drained_later :
    (cap : ℕ) (bs : List (List Job)) (o : Option (List Job × ℕ × List (List Job)))
    → drain_first cap bs ≡ o
    → DrainResult cap bs o
    → DrainResult cap ([] ∷ bs) (drain_first cap ([] ∷ bs))
unfolding drain_first
drained_later cap bs none e d = rw (e, drain_first) d
drained_later cap bs (some (out, tokens, rest)) e d =
    rw (e, drain_first)
      (record {
        idle = [] ∷ d.idle;
        left = d.left;
        others = d.others;
        idle_empty = d.idle_empty;
        before = ap (◌∷◌ []) d.before;
        after = ap (◌∷◌ []) d.after;
        counted = d.counted;
        some_out = d.some_out;
        under_cap = d.under_cap;
        maximal = d.maximal;
      })

pub drain_first-DrainResult :
    (cap : ℕ) (pending : List (List Job)) → DrainResult cap pending (drain_first cap pending)
drain_first-DrainResult cap [] = unfold drain_first in refl
drain_first-DrainResult cap ([] ∷ bs) =
    drained_later cap bs (drain_first cap bs) refl (drain_first-DrainResult cap bs)
drain_first-DrainResult cap ((job ∷ jobs) ∷ bs) = unfold drain_first in taken_here cap job jobs bs
