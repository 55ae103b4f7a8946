-- ===== src/EmbedServer/Bearer/Rejections.antt =====
-- The count of refused requests, in every interleaving of the threads' atomic steps.
use m3_core_rs.Base.{
  ℕ, suc, ◌+◌, ◌*◌, ◌^◌, ◌≤◌, ◌<◌, ◌≡◌, refl, Bool, true, false, List, [], ◌∷◌, arith,
  if◌then◌else◌,
}
use m3_core_rs.EmbedServer.Bearer.{
  AuthFailure, Entry, warned, debugged, Rejects, claim, report, count, warned_or_counted,
  warn_rejected,
}

-- One atomic step of a thread that refuses a request: first it claims the warning, then it reports
-- or counts.
pub data Step : Type 0 where
  claims : ℕ → ℕ → Step
  reports counts : AuthFailure → Step

abbrev pub step : Step → Rejects → Rejects
unfolding claim report count
step (claims last now) st = (claim last now st).1
step (reports why) st = report why st
step (counts why) st = count why st

abbrev pub run : List Step → Rejects → Rejects
run [] st = st
run (s ∷ ss) st = run ss (step s st)

abbrev pub rejections : List Step → ℕ
rejections [] = 0
rejections (claims last now ∷ ss) = rejections ss
rejections (reports why ∷ ss) = suc (rejections ss)
rejections (counts why ∷ ss) = suc (rejections ss)

-- The refusals that the warnings of the log tell of.
abbrev pub told : List Entry → ℕ
told [] = 0
told (warned why quiet ∷ log) = suc quiet + told log
told (debugged why ∷ log) = told log

-- The claims that succeed.
abbrev pub claimed : List Step → Rejects → ℕ
unfolding claim
claimed [] st = 0
claimed (claims last now ∷ ss) st =
    let rest = claimed ss (claim last now st).1 in if (claim last now st).0 then suc rest else rest
claimed (reports why ∷ ss) st = claimed ss (step (reports why) st)
claimed (counts why ∷ ss) st = claimed ss (step (counts why) st)

claim_lem :
    (last now : ℕ) (st : Rejects)
    → let r = claim last now st in
      (told r.1.log ≡ told st.log)
      × (r.1.rejects_unreported ≡ st.rejects_unreported)
      × ((if r.0 then st.last_reject_warn_s + 10 else st.last_reject_warn_s)
          ≤ r.1.last_reject_warn_s)
unfolding claim
claim_lem last now st = ground arith

-- In every interleaving of the threads' atomic steps, each refused request is accounted for once:
-- by the warnings of the log, which tell of those they count and of their own, or by the counter
-- that the next warning reads. It holds as long as there are fewer than 2^64 refusals.
pub run-told :
    (ss : List Step) (st : Rejects)
    → st.rejects_unreported + rejections ss < 2 ^ 64
    → told (run ss st).log + (run ss st).rejects_unreported
      ≡ told st.log + st.rejects_unreported + rejections ss
unfolding claim report count
run-told [] st b = omega arith
run-told (claims last now ∷ ss) st b =
    let (a, u, l) = claim_lem last now st in
    let later = run-told ss (claim last now st).1 (omega (arith, u, b)) in
    omega (arith, later, a, u)
run-told (reports why ∷ ss) st b = omega (arith, run-told ss (report why st) (omega (arith, b)))
run-told (counts why ∷ ss) st b = omega (arith, b, run-told ss (count why st) (omega (arith, b)))

spaced :
    (b : Bool) (x y z n : ℕ)
    → (if b then x + 10 else x) ≤ y
    → y + 10 * n ≤ z
    → x + 10 * (if b then suc n else n) ≤ z
spaced true x y z n h k = omega arith
spaced false x y z n h k = omega arith

-- In every interleaving a warning is claimed at most once in 10 s: that many claims move the time
-- of the last one by 10 s each.
pub run-claimed :
    (ss : List Step) (st : Rejects)
    → st.last_reject_warn_s + 10 * claimed ss st ≤ (run ss st).last_reject_warn_s
unfolding claim report count
run-claimed [] st = omega arith
run-claimed (claims last now ∷ ss) st =
    let (a, u, l) = claim_lem last now st in
    spaced (claim last now st).0 _ _ _ _ l (run-claimed ss (claim last now st).1)
run-claimed (reports why ∷ ss) st = run-claimed ss (report why st)
run-claimed (counts why ∷ ss) st = run-claimed ss (count why st)

thread :
    (why : AuthFailure) (c : Bool × Rejects)
    → warned_or_counted why c ≡ step (if c.0 then reports why else counts why) c.1
unfolding warned_or_counted step
thread why (true, st) = refl
thread why (false, st) = refl

-- A thread's refusal is a claim, and a report or a count behind it.
warn_rejected-run :
    (last now : ℕ) (why : AuthFailure) (st : Rejects)
    → warn_rejected last now why st ≡ (
        run (claims last now ∷ (if (claim last now st).0 then reports why else counts why) ∷ []) st)
unfolding warn_rejected warned_or_counted
warn_rejected-run last now why st = thread why (claim last now st)
