-- ===== src/Dispatchd/Api.antt =====
-- crates/m3-dispatchd/src/api.rs: the guards of the HTTP routes in front of the hub. An error reply
-- keeps what its message counts. A request that is no JSON of the wanted shape never gets here.
pub mod Guards
mod Tests
use m3_core_rs.Base.{
  ℕ, ◌*◌, min, Bool, true, false, not, ◌&&◌, ◌||◌, Option, none, some, List, [], ◌∷◌, ltb, leb,
  ◌==◌, if◌then◌else◌, Text, length, keep, all, is_empty, Floats,
}
use m3_core_rs.Dispatchd.Hub.{Hub, State}
use m3_core_rs.Dispatchd.Hub

-- An hour, in nanoseconds.
abbrev pub max_wait : ℕ
max_wait = 3600 * 1_000_000_000

abbrev pub max_recipients : ℕ
max_recipients = 1000

abbrev pub max_origin : ℕ
max_origin = 128

pub data ApiError : Type 0 where
  recipient_count all_empty origin_bytes : ℕ → ApiError
  no_reader bad_timeout : ApiError

pub data Reply : Type 0 where
  no_content : Reply
  bad_request : ApiError → Reply
  -- The wait goes to the hub, with this timeout.
  waits : ℕ → Reply
  panics : Reply

-- `char::is_control` over UTF-8: the bytes below 32 and 127, and U+0080 to U+009F, whose bytes are
-- 0xC2 and one of 0x80 to 0x9F.
unfoldable pub has_control : Text → Bool
has_control [] = false
has_control (c ∷ []) = ltb c 32 || c == 127
has_control (c ∷ d ∷ s) =
    (ltb c 32 || c == 127 || (c == 0xC2 && leb 0x80 d && leb d 0x9F)) || has_control (d ∷ s)

bad_origin : Text → Bool
unfolding has_control
bad_origin o = is_empty o || ltb max_origin (length o) || has_control o

origin_refused : Option Text → Option ApiError
unfolding bad_origin
origin_refused none = none
origin_refused (some o) = if bad_origin o then some (origin_bytes (length o)) else none

-- The route's checks in their order.
refusal : List Text → Option Text → Option ApiError
unfolding origin_refused
refusal recipients origin =
    let empties = length (keep is_empty recipients) in
    if is_empty recipients || ltb max_recipients (length recipients)
    then some (recipient_count (length recipients))
    else if empties == length recipients
    then some (all_empty empties)
    else origin_refused origin

rung : Option ApiError → Hub → ℕ → List Text → Option Text → State → State × Reply
rung (some e) h now recipients origin st = (st, bad_request e)
rung none h now recipients origin st = ((Hub.ring h now recipients origin st).0, no_content)

unfoldable pub ring : Hub → ℕ → List Text → Option Text → State → State × Reply
unfolding refusal rung
ring h now recipients origin st = rung (refusal recipients origin) h now recipients origin st

module _ (fl : Floats) where
  open fl use {F64, ge, of_ℕ, is_finite, from_secs}

  timeout_of : Option ℕ → Reply
  timeout_of none = panics
  timeout_of (some d) = waits (min d max_wait)

  unfoldable pub wait : List Text → F64 → Reply
  unfolding timeout_of
  wait readers timeout_s =
      if all is_empty readers
      then bad_request no_reader
      else if not (is_finite timeout_s && ge timeout_s (of_ℕ 0))
      then bad_request bad_timeout
      else timeout_of (from_secs timeout_s)
