-- ===== src/Config/Carets.antt =====
-- crates/m3-config/src/settings.rs: `carets_to_toml`, which reads the text of a `--set` once from
-- left to right, as the machine of its loops' states.
pub mod Quoting
use m3_core_rs.Base.{
  ℕ, suc, ◌+◌, ◌/◌, ◌%◌, ◌≡◌, Bool, ◌&&◌, ◌||◌, Option, none, some, List, [], ◌∷◌, ◌++◌, ltb, ◌==◌,
  if◌then◌else◌, Chars, ascii,
}

pub data State : Type 0 where
  plain : State
  -- Inside `^…^`: where it starts, and what it holds up to here.
  caret : ℕ → Chars → State
  -- Behind a `^` inside, which ends the string unless another one follows.
  closing : ℕ → Chars → State
  -- Inside a TOML string, and behind a backslash in one.
  quoted : ℕ → State
  escaped : State

-- The character, counted from 1, at which a string starts that is not closed.
pub data Translated : Type 0 where
  ok : Chars → Translated
  not_closed : ℕ → Translated

hex_digit : ℕ → ℕ
hex_digit n = if ltb n 10 then b'0' + n else 87 + n

unfoldable pub escape : ℕ → Chars
unfolding hex_digit
escape c =
    if c == b'"'
    then ascii "\\\""
    else if c == b'\\'
    then ascii "\\\\"
    else if ltb c 0x20 || c == 0x7F
    then ascii "\\u00" ++ hex_digit (c / 16) ∷ hex_digit (c % 16) ∷ []
    else c ∷ []

unfoldable pub escape_all : Chars → Chars
unfolding escape
escape_all [] = []
escape_all (c ∷ s) = escape c ++ escape_all s

-- A TOML basic string.
unfoldable pub literal : Chars → Chars
unfolding escape_all
literal buf = b'"' ∷ (escape_all buf ++ b'"' ∷ [])

-- What a character outside a string gives, and the state behind it.
outside : ℕ → ℕ → Chars × State
outside at c =
    if c == b'^'
    then ([], caret at [])
    else if c == b'"' || c == b'\''
    then (c ∷ [], quoted c)
    else (c ∷ [], plain)

behind : Chars → Chars × State → Chars × State
behind out (more, state) = (out ++ more, state)

unfoldable pub step : ℕ → ℕ → State → Chars × State
unfolding outside behind literal
step at c plain = outside at c
step at c (caret start buf) =
    if c == b'^' then ([], closing start buf) else ([], caret start (buf ++ c ∷ []))
step at c (closing start buf) =
    if c == b'^' then ([], caret start (buf ++ b'^' ∷ [])) else behind (literal buf) (outside at c)
step at c (quoted q) =
    if c == q
    then (c ∷ [], plain)
    else if q == b'"' && c == b'\\'
    then (c ∷ [], escaped)
    else (c ∷ [], quoted q)
step at c escaped = (c ∷ [], quoted b'"')

unfoldable pub finish : State → Translated
unfolding literal
finish plain = ok []
finish (caret start buf) = not_closed (start + 1)
finish (closing start buf) = ok (literal buf)
finish (quoted q) = ok []
finish escaped = ok []

unfoldable pub prepend : Chars → Translated → Translated
prepend out (ok more) = ok (out ++ more)
prepend out (not_closed at) = not_closed at

unfoldable pub run : ℕ → State → Chars → Translated
unfolding step finish prepend
run at state [] = finish state
run at state (c ∷ s) = prepend (step at c state).0 (run (suc at) (step at c state).1 s)

unfoldable pub carets_to_toml : Chars → Translated
unfolding run
carets_to_toml text = run 0 plain text
