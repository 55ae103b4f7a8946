-- ===== src/Base/Unicode.antt =====
-- A string as its code points, with the standard library's cuts at white space.
use Prim.Native.Nat.{ℕ, ◌+◌}
use mathlib.Core.Bool.{Bool, ◌&&◌, ◌||◌}
use mathlib.Core.List.{List, [], ◌∷◌, ◌++◌, map}
use m3_core_rs.Base.Tests.{leb, ◌==◌, if◌then◌else◌}
use m3_core_rs.Base.Lists.{is_empty}
use m3_core_rs.Base.Texts.{text_eq}

abbrev pub Chars : Type 0
Chars = List ℕ

abbrev between : ℕ → ℕ → ℕ → Bool
between a b c = leb a c && leb c b

-- `char::is_whitespace`, the property White_Space.
unfoldable pub is_whitespace : ℕ → Bool
is_whitespace c =
    between 9 13 c
    || c == 32
    || c == 0x85
    || c == 0xA0
    || c == 0x1680
    || between 0x2000 0x200A c
    || between 0x2028 0x2029 c
    || c == 0x202F
    || c == 0x205F
    || c == 0x3000

-- `char::to_ascii_lowercase`.
abbrev pub to_ascii_lowercase : ℕ → ℕ
to_ascii_lowercase c = if between b'A' b'Z' c then c + 32 else c

unfoldable pub eq_ignore_ascii_case : Chars → Chars → Bool
eq_ignore_ascii_case s t = text_eq (map to_ascii_lowercase s) (map to_ascii_lowercase t)

unfoldable pub trim_start : Chars → Chars
trim_start [] = []
trim_start (c ∷ s) = if is_whitespace c then trim_start s else c ∷ s

unfoldable pub trim_end : Chars → Chars
trim_end [] = []
trim_end (c ∷ s) =
    let rest = trim_end s in if is_whitespace c && is_empty rest then [] else c ∷ rest

abbrev pub trim : Chars → Chars
trim s = trim_end (trim_start s)

-- The words behind a word that is being read.
unfoldable pub words : Chars → Chars → List Chars
words word [] = if is_empty word then [] else word ∷ []
words word (c ∷ s) =
    let next = words [] s in
    let more = words (word ++ c ∷ []) s in
    if is_whitespace c then (if is_empty word then next else word ∷ next) else more

unfoldable pub split_whitespace : Chars → List Chars
unfolding words
split_whitespace s = words [] s
