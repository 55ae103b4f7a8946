-- ===== src/EmbedServer/Bearer.antt =====
-- crates/m3-embed-server/src/security.rs: the bearer token of a request, and the log of refused
-- requests, which several threads share. `to_str` gives visible ASCII only, so that a character of
-- it is a byte.

pub mod Admission
pub mod Rejections
use m3_core_rs.Base.{
  ℕ, ◌+◌, ◌-◌, ◌%◌, ◌^◌, ◌≡◌, ◌↔◌, Bool, true, false, not, ◌&&◌, Option, none, some, List, [], ◌∷◌,
  ◌++◌, leb, ◌==◌, if◌then◌else◌, Text, ascii, text_eq, Chars, eq_ignore_ascii_case, trim,
}
use m3_core_rs.EmbedServer.{Outcome, ok, err, ◌>>=◌, refuse_if}

-- aws-lc-rs and the http crate.
pub record Crypto : Type 0 where
  pub sha256 : Text → List ℕ
  -- `HeaderValue::to_str`.
  pub to_str : List ℕ → Option Chars
  pub verify_slices_are_equal : List ℕ → List ℕ → Bool
  pub verify_slices_are_equal_iff : (a b : List ℕ) → (verify_slices_are_equal a b ≡ true) ↔ (a ≡ b)

pub data AuthFailure : Type 0 where
  no_header not_bearer wrong_token : AuthFailure

ok_or {ℓ} : {A : Type ℓ} → AuthFailure → Option A → Outcome AuthFailure A
ok_or why none = err why
ok_or why (some a) = ok a

behind : ℕ → Option (Chars × Chars) → Option (Chars × Chars)
behind c none = none
behind c (some (a, b)) = some (c ∷ a, b)

-- `split_once(' ')`.
unfoldable pub split_once : Chars → Option (Chars × Chars)
unfolding behind
split_once [] = none
split_once (c ∷ s) = let rest = split_once s in if c == b' ' then some ([], s) else behind c rest

token_of : Option (Chars × Chars) → Outcome AuthFailure Chars
unfolding eq_ignore_ascii_case
token_of none = err not_bearer
token_of (some (scheme, t)) =
    if eq_ignore_ascii_case scheme (ascii "bearer") then ok t else err not_bearer

module _ (lib : Crypto) where
  open lib use {sha256, to_str, verify_slices_are_equal}

  unfoldable pub token_digest : Text → List ℕ
  token_digest token = sha256 token

  unfoldable pub check_bearer : Option (List ℕ) → List ℕ → Outcome AuthFailure (Unit {0})
  unfolding ok_or token_of token_digest
  check_bearer value want = do
    bytes ← ok_or no_header value
    text ← ok_or not_bearer (to_str bytes)
    token ← token_of (split_once text)
    let d = token_digest (trim token)
    refuse_if (not (verify_slices_are_equal d want)) wrong_token

abbrev pub reject_warn_every_s : ℕ
reject_warn_every_s = 10

pub data Entry : Type 0 where
  -- A warning, with the refusals that were only counted since the last one.
  warned : AuthFailure → ℕ → Entry
  debugged : AuthFailure → Entry

-- The two atomics, and the log with the newest entry first.
pub record Rejects : Type 0 where
  pub last_reject_warn_s : ℕ
  pub rejects_unreported : ℕ
  pub log : List Entry

-- The test on the value of `last` that was loaded, and the exchange, which fails if another thread
-- has stored a value since.
unfoldable pub claim : ℕ → ℕ → Rejects → Bool × Rejects
claim last now st =
    if leb reject_warn_every_s (now - last) && st.last_reject_warn_s == last
    then (
      true,
      record { last_reject_warn_s = now; rejects_unreported = st.rejects_unreported; log = st.log },
    )
    else (false, st)

unfoldable pub report : AuthFailure → Rejects → Rejects
report why st = record {
  last_reject_warn_s = st.last_reject_warn_s;
  rejects_unreported = 0;
  log = warned why st.rejects_unreported ∷ st.log;
}

unfoldable pub count : AuthFailure → Rejects → Rejects
count why st = record {
  last_reject_warn_s = st.last_reject_warn_s;
  rejects_unreported = (st.rejects_unreported + 1) % 2 ^ 64;
  log = debugged why ∷ st.log;
}

warned_or_counted : AuthFailure → Bool × Rejects → Rejects
unfolding report count
warned_or_counted why (true, st) = report why st
warned_or_counted why (false, st) = count why st

-- `last` is the value that the thread has loaded.
unfoldable pub warn_rejected : ℕ → ℕ → AuthFailure → Rejects → Rejects
unfolding warned_or_counted claim
warn_rejected last now why st = warned_or_counted why (claim last now st)

pub record Request : Type 0 where
  pub path : Text
  pub authorization : Option (List ℕ)

pub data Answer : Type 0 where
  -- The request goes on to its route.
  runs : Answer
  unauthorized : AuthFailure → Answer

answer : ℕ → ℕ → Outcome AuthFailure (Unit {0}) → Rejects → Rejects × Answer
unfolding warn_rejected
answer last now (ok u) st = (st, runs)
answer last now (err why) st = (warn_rejected last now why st, unauthorized why)

module _ (lib : Crypto) where
  unfoldable pub require_bearer : List ℕ → ℕ → ℕ → Request → Rejects → Rejects × Answer
  unfolding answer check_bearer
  require_bearer want last now req st =
      if text_eq req.path (ascii "/health")
      then (st, runs)
      else answer last now (check_bearer lib req.authorization want) st
