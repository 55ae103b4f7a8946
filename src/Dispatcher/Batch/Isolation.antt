-- ===== src/Dispatcher/Batch/Isolation.antt =====
-- An over-long text fails only its own caller.
use m3_core_rs.Base.{
  ℕ, zero, suc, ◌≤◌, ◌<◌, ◌≡◌, refl, ap, ◌∙◌, ◌⊎◌, inl, inr, Bool, true, false, some, List, [], ◌∷◌,
  map, arith, ltb, leb, ◌==◌, if◌then◌else◌, Bool-cases, length, length-map, all, get_elem?,
  remove_at, get_elem?-map, Text,
}
use mathlib.Core.List.{Perm}
use mathlib.Core.List.Perm
use m3_core_rs.Errors.{input_too_long, Result, ok, err}
use m3_core_rs.Dispatcher.Batch.{
  Batch, success, Asked, is_client_error, checked_rows, settled, Verdict, served, over_long, failed,
  judge, named, found, zip_replies, fail_all, blame, Effects, nothing, after, coalesced, task,
  batch_of,
}
use m3_core_rs.Dispatcher.Batch.Answers.{removed}

abbrev pub texts : List Asked → List Text
texts jobs = map (λ a. a.text) jobs

module _ {Row : Type 0} (tokens : Text → ℕ) (n_ctx : ℕ) (embed : Text → Row) where
  abbrev pub fits : Text → Bool
  fits text = leb (tokens text) n_ctx

  -- A backend that embeds a batch in which every text fits, and names a text that does not.
  pub record Serves (call : ℕ → Batch → Result (List Row) × ℕ) : Type 0 where
    pub embeds :
        (k : ℕ) (b : Batch) → all fits b.texts ≡ true → (call k b).0 ≡ ok (map embed b.texts)
    pub names :
        (k : ℕ) (b : Batch)
        → all fits b.texts ≡ false
        → (i : ℕ) × (text : Text) × (get_elem? b.texts i ≡ some text)
          × (fits text ≡ false)
          × ((call k b).0 ≡ err (input_too_long (tokens text) n_ctx (some i)))

  -- What each caller is due: the row of its text, or that the text is too long, by index 0 of the
  -- caller's one text.
  abbrev pub due : Asked → ℕ × Result Row
  due j = (
    j.reply,
    if fits j.text then ok (embed j.text) else err (input_too_long (tokens j.text) n_ctx (some 0)),
  )

  -- What a round's verdict is under such a backend.
  Exact : List Asked → Verdict Row → Type 0
  Exact jobs (served rows) = (rows ≡ map embed (texts jobs)) × (all fits (texts jobs) ≡ true)
  Exact jobs (over_long a t n i) =
      (get_elem? jobs i ≡ some a) × (fits a.text ≡ false) × (t ≡ tokens a.text) × (n ≡ n_ctx)
  Exact jobs (failed e) =
      (a : Asked) × (jobs ≡ a ∷ [])
      × (fits a.text ≡ false)
      × (e ≡ input_too_long (tokens a.text) n_ctx (some 0))

  served-Exact :
      (jobs : List Asked)
      → all fits (texts jobs) ≡ true
      → Exact jobs (judge (settled (ok (map embed (texts jobs))) (length jobs)) jobs)
  unfolding Exact judge settled checked_rows
  served-Exact jobs h =
      let n : length (map embed (texts jobs)) ≡ length jobs =
        length-map (texts jobs) embed ∙ length-map jobs (λ a. a.text) in
      let same : (length (map embed (texts jobs)) == length jobs) ≡ true = ground (arith, n) in
      rw same (refl, h)

  named-Exact :
      (j : Asked) (jobs : List Asked) (i : ℕ) (a : Asked)
      → get_elem? (j ∷ jobs) i ≡ some a
      → fits a.text ≡ false
      → Exact (j ∷ jobs) (named (input_too_long (tokens a.text) n_ctx (some i)) (j ∷ jobs))
  unfolding Exact named found
  named-Exact j [] zero a e h = (a, ap (λ o. o) (ground (arith, e)), h, refl)
  named-Exact j [] (suc i) a e h = cc
  named-Exact j (j' ∷ jobs) i a e h =
      let more : ltb 1 (length (j ∷ j' ∷ jobs)) ≡ true = ground arith in
      rw (more, e) (e, h, refl, refl)

  told :
      (j : Asked) (jobs : List Asked) (i : ℕ) (text : Text) (a : Asked) (n : ℕ)
      → get_elem? (j ∷ jobs) i ≡ some a
      → a.text ≡ text
      → fits text ≡ false
      → Exact
          (j ∷ jobs)
          (judge (settled (err (input_too_long (tokens text) n_ctx (some i))) n) (j ∷ jobs))
  unfolding judge settled
  told j jobs i text a n at same long = rw (← same) (named-Exact j jobs i a at (rw same long))

  zip_replies-due :
      (jobs : List Asked)
      → all fits (texts jobs) ≡ true
      → zip_replies jobs (map embed (texts jobs)) ≡ map due jobs
  unfolding zip_replies
  zip_replies-due [] h = refl
  zip_replies-due (j ∷ jobs) h =
      let here : fits j.text ≡ true = ground arith in
      let rest : all fits (texts jobs) ≡ true = ground arith in
      rw here (ap (◌∷◌ (j.reply, ok (embed j.text))) (zip_replies-due jobs rest))

  Due : List Asked → Effects Row → Type 0
  Due jobs out =
      Perm out.replies (map due jobs) × ((out.reports ≡ []) ⊎ (out.reports ≡ success ∷ []))

  after-Due :
      (v : Verdict Row) (jobs : List Asked) (elapsed : ℕ) (later : ℕ → Effects Row)
      → Exact jobs v
      → ((i : ℕ) → length (remove_at i jobs) < length jobs → Due (remove_at i jobs) (later i))
      → Due jobs (after v jobs elapsed later)
  unfolding after Exact Due fail_all blame is_client_error
  after-Due (served rows) jobs elapsed later x h =
      (rw (x.0, zip_replies-due jobs x.1) (Perm.refl _), inr refl)
  after-Due (over_long a t n i) jobs elapsed later (at, long, e, e') h =
      let (p, l) = removed i jobs a at in
      let (q, r) = h i (omega (arith, l)) in
      let same : (a.reply, err (input_too_long t n (some 0))) ≡ due a = rw (e, e', long) refl in
      (Perm.trans (rw same (Perm.cons (due a) q)) (Perm.symm (Perm.map due p)), r)
  after-Due (failed e) jobs elapsed later (a, one, long, e') h =
      rw (one, e', long) (Perm.refl _, inl refl)

  judge-Exact :
      (call : ℕ → Batch → Result (List Row) × ℕ) (k : ℕ) (j : Asked) (jobs : List Asked)
      → Serves call
      → Exact
          (j ∷ jobs)
          (judge (settled (call k (batch_of (texts (j ∷ jobs)))).0 (length (j ∷ jobs))) (j ∷ jobs))
  unfolding batch_of
  judge-Exact call k j jobs s = elim (Bool-cases (all fits (texts (j ∷ jobs)))) [
    | inl all_fit ↦
        rw (s.embeds k (batch_of (texts (j ∷ jobs))) all_fit) (served-Exact (j ∷ jobs) all_fit)
    | inr one_long ↦
        let (i, text, at, long, e) = s.names k (batch_of (texts (j ∷ jobs))) one_long in
        let n = length (j ∷ jobs) in
        let (a, at', same) = get_elem?-map (λ b. b.text) (j ∷ jobs) i text at in
        rw e (told j jobs i text a n at' same long)
  ]

  coalesced-Due :
      (call : ℕ → Batch → Result (List Row) × ℕ) (f k : ℕ) (jobs : List Asked)
      → Serves call
      → length jobs ≤ f
      → Due jobs (coalesced call f k jobs)
  unfolding coalesced nothing Due
  coalesced-Due call zero k [] s h = (Perm.refl [], inl refl)
  coalesced-Due call zero k (j ∷ jobs) s h = absurd (omega arith)
  coalesced-Due call (suc f) k [] s h = (Perm.refl [], inl refl)
  coalesced-Due call (suc f) k (j ∷ jobs) s h =
      let r = (call k (batch_of (texts (j ∷ jobs)))).0 in
      after-Due (judge (settled r (length (j ∷ jobs))) (j ∷ jobs)) (j ∷ jobs)
        (call k (batch_of (texts (j ∷ jobs)))).1
        (λ i. coalesced call f (suc k) (remove_at i (j ∷ jobs))) (judge-Exact call k j jobs s)
        (λ i l. coalesced-Due call f (suc k) (remove_at i (j ∷ jobs)) s (omega arith))

  -- With a backend that embeds a batch in which every text fits and names one that does not, a task
  -- gives each caller whose text fits the row of its text and each other one the error that its own
  -- text is too long, and it never reports a failure to the breaker.
  pub task-isolates :
      (call : ℕ → Batch → Result (List Row) × ℕ) (jobs : List Asked)
      → Serves call
      → let out = task call jobs in
        Perm out.replies (map due jobs) × ((out.reports ≡ []) ⊎ (out.reports ≡ success ∷ []))
  unfolding task Due
  task-isolates call jobs s = coalesced-Due call (length jobs) 0 jobs s (omega arith)
