-- ===== src/Dispatchd/Addressing.antt =====
-- crates/m3-dispatchd/src/addressing.rs: which inbox reads see a message to a recipient.
pub mod Rule
use m3_core_rs.Base.{
  ℕ, Bool, true, false, not, ◌&&◌, Option, none, some, [], ◌∷◌, ltb, ◌==◌, if◌then◌else◌, Text,
  length, drop, is_empty, is_some, text_eq, strip_prefix,
}

abbrev pub agent_sep : ℕ
agent_sep = b'@'

cons_head : ℕ → Option (Text × Text) → Option (Text × Text)
cons_head c none = none
cons_head c (some (head, tail)) = some (c ∷ head, tail)

-- `split_once`: the text before and behind the first separator.
unfoldable pub split_once : ℕ → Text → Option (Text × Text)
unfolding cons_head
split_once sep [] = none
split_once sep (c ∷ s) = if c == sep then some ([], s) else cons_head c (split_once sep s)

tail_given : Option (Text × Text) → Bool
tail_given none = false
tail_given (some (head, tail)) = not (is_empty tail)

unfoldable pub is_qualified : Text → Bool
unfolding split_once tail_given
is_qualified agent_id = tail_given (split_once agent_sep agent_id)

abbrev starts_with : Text → Text → Bool
starts_with s p = is_some (strip_prefix p s)

unfoldable pub sees : Text → Text → Bool
unfolding is_qualified
sees reader recipient =
    if is_empty reader
    then false
    else if text_eq reader recipient
    then true
    else not (is_qualified reader)
      && ltb (length reader) (length recipient)
      && starts_with recipient reader
      && starts_with (drop (length reader) recipient) (agent_sep ∷ [])
