-- ===== src/EmbedServer/Digest.antt =====
-- crates/m3-embed-server/src/security.rs: the bearer token's SHA-256, read from the 64 hexadecimal
-- digits of the setting. The text is its characters; behind the first guard each is one byte long.
pub mod Printed
use m3_core_rs.Base.{
  ℕ, suc, ◌+◌, ◌-◌, ◌*◌, Bool, not, ◌&&◌, ◌||◌, Option, none, some, List, [], ◌∷◌, ltb, leb, ◌==◌,
  if◌then◌else◌, length, position, Chars, trim,
}
use m3_core_rs.EmbedServer.{Outcome, ok, err}

pub data DigestError : Type 0 where
  -- The position, from 1, and the number of characters.
  not_hex : ℕ → ℕ → DigestError
  not_64 : ℕ → DigestError

-- `char::is_ascii_hexdigit`.
unfoldable pub is_ascii_hexdigit : ℕ → Bool
is_ascii_hexdigit c =
    leb b'0' c && leb c b'9' || leb b'a' c && leb c b'f' || leb b'A' c && leb c b'F'

-- `u8::from_str_radix(_, 16)` of one digit.
unfoldable pub digit_value : ℕ → ℕ
digit_value c = if ltb b'9' c then (if ltb b'F' c then c - 87 else c - 55) else c - b'0'

-- `chunks(2)`, each read as a byte.
unfoldable pub bytes : Chars → List ℕ
unfolding digit_value
bytes [] = []
bytes (a ∷ []) = digit_value a ∷ []
bytes (a ∷ b ∷ s) = (16 * digit_value a + digit_value b) ∷ bytes s

unfoldable pub checked : Chars → Option ℕ → Outcome DigestError (List ℕ)
unfolding bytes
checked hex (some pos) = err (not_hex (pos + 1) (length hex))
checked hex none = if not (length hex == 64) then err (not_64 (length hex)) else ok (bytes hex)

unfoldable pub parse_digest : Chars → Outcome DigestError (List ℕ)
unfolding checked is_ascii_hexdigit
parse_digest s = let hex = trim s in checked hex (position (λ c. not (is_ascii_hexdigit c)) hex)
