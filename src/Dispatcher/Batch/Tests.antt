-- ===== src/Dispatcher/Batch/Tests.antt =====
-- A backend that counts bytes, with room for three, and batches that run through it.
use m3_core_rs.Base.{
  ℕ, suc, ◌+◌, ◌≡◌, ◌≤◌, refl, ap, ◌∙◌, ◌⊎◌, inl, inr, true, false, some, List, [], ◌∷◌, map, arith,
  leb, if◌then◌else◌, Bool-cases, length, all, get_elem?, Text, ascii,
}
use mathlib.Core.List.{Perm}
use m3_core_rs.Errors.{input_too_long, Result, ok, err}
use m3_core_rs.Dispatcher.Batch.{Batch, success, Asked, task, estimate_tokens}
use m3_core_rs.Dispatcher.Batch.Answers.{callers, answered, task-answers}
use m3_core_rs.Dispatcher.Batch.Isolation.{Serves, due, fits, task-isolates}

-- The first text that is too long, as the backend names it.
abbrev answer : List Text → List Text → ℕ → Result (List ℕ)
answer all_texts [] i = ok (map length all_texts)
answer all_texts (t ∷ ts) i =
    let rest = answer all_texts ts (suc i) in
    if leb (length t) 3 then rest else err (input_too_long (length t) 3 (some i))

abbrev counting : ℕ → Batch → Result (List ℕ) × ℕ
counting k b = (answer b.texts b.texts 0, 10)

answer-fits :
    (whole ts : List Text) (i : ℕ)
    → all (fits length 3 length) ts ≡ true
    → answer whole ts i ≡ ok (map length whole)
answer-fits whole [] i h = refl
answer-fits whole (t ∷ ts) i h = ground (arith, answer-fits whole ts (suc i))

answer-long :
    (whole ts : List Text) (i : ℕ)
    → all (fits length 3 length) ts ≡ false
    → (d : ℕ) × (text : Text) × (get_elem? ts d ≡ some text)
      × (fits length 3 length text ≡ false)
      × (answer whole ts i ≡ err (input_too_long (length text) 3 (some (i + d))))
answer-long whole [] i h = cc
answer-long whole (t ∷ ts) i h = elim (Bool-cases (leb (length t) 3)) [
  | inl short ↦
      let (d, text, at, long, e) = answer-long whole ts (suc i) (ground arith) in
      let n : suc i + d ≡ i + suc d = omega arith in (suc d, text, at, long, rw (short, ← n) e)
  | inr long ↦
      let n : i ≡ i + 0 = omega arith in
      (0, t, refl, long, rw long (ap (λ m. err (input_too_long (length t) 3 (some m))) n))
]

counting-Serves : Serves length 3 length counting
counting-Serves = record {
  embeds = λ k b h. answer-fits b.texts b.texts 0 h;
  names = λ k b h.
      let (d, text, at, long, e) = answer-long b.texts b.texts 0 h in
      let n : 0 + d ≡ d = omega arith in
      (d, text, at, long, e ∙ ap (λ m. err (input_too_long (length text) 3 (some m))) n);
}

abbrev asked : List Asked
asked =
    record { text = ascii "one"; reply = 1 }
    ∷ record { text = ascii "three"; reply = 2 }
    ∷ record { text = ascii "4"; reply = 3 }
    ∷ []

task_test :
    (task counting asked).replies
    ≡ (2, err (input_too_long 5 3 (some 0))) ∷ (1, ok 3) ∷ (3, ok 1) ∷ []
unfolding task
task_test = refl

estimate_test : estimate_tokens (ascii "four") ≡ 6
unfolding estimate_tokens
estimate_test = refl

task-answers_example :
    Perm (answered (task counting asked).replies) (callers asked)
    × (length (task counting asked).samples ≤ 3)
    × (length (task counting asked).reports ≤ 1)
task-answers_example = task-answers ℕ counting asked

task-isolates_example :
    Perm (task counting asked).replies (map (due length 3 length) asked)
    × (((task counting asked).reports ≡ []) ⊎ ((task counting asked).reports ≡ success ∷ []))
task-isolates_example = task-isolates length 3 length counting asked counting-Serves
