-- ===== src/EmbedServer/Digest/Printed.antt =====
-- The digest that is read is the one that prints as the text.
use m3_core_rs.Base.{
  ℕ, zero, suc, ◌+◌, ◌*◌, ◌/◌, ◌%◌, ◌<◌, ◌≡◌, refl, sym, ap, ◌↔◌, Bool, true, false, not, Option,
  none, some, List, [], ◌∷◌, map, arith, ltb, ◌==◌, if◌then◌else◌, length, all, position, All,
  Chars, to_ascii_lowercase, trim, ==_iff,
}
use m3_core_rs.EmbedServer.{ok, err}
use m3_core_rs.EmbedServer.Digest.{is_ascii_hexdigit, digit_value, bytes, checked, parse_digest}

abbrev digit : ℕ → ℕ
digit n = if ltb n 10 then b'0' + n else 87 + n

-- `{b:02x}` of every byte.
abbrev pub hex : List ℕ → Chars
hex [] = []
hex (b ∷ d) = digit (b / 16) ∷ digit (b % 16) ∷ hex d

abbrev pub Byte : ℕ → Type 0
Byte b = b < 256

digit_value_lem :
    (c : ℕ)
    → is_ascii_hexdigit c ≡ true
    → (digit_value c < 16) × (to_ascii_lowercase c ≡ digit (digit_value c))
unfolding is_ascii_hexdigit digit_value
digit_value_lem c h = ground arith

digit_lem :
    (c n : ℕ)
    → n < 16
    → to_ascii_lowercase c ≡ digit n
    → (is_ascii_hexdigit c ≡ true) × (digit_value c ≡ n)
unfolding is_ascii_hexdigit digit_value
digit_lem c n b h = ground arith

bytes_lem :
    (n : ℕ) (s : Chars)
    → length s ≡ 2 * n
    → all is_ascii_hexdigit s ≡ true
    → (length (bytes s) ≡ n) × All Byte (bytes s) × (map to_ascii_lowercase s ≡ hex (bytes s))
unfolding bytes
bytes_lem zero [] l h = (refl, tt, refl)
bytes_lem (suc n) [] l h = absurd (omega (arith, l))
bytes_lem n (a ∷ []) l h = absurd (omega (arith, l))
bytes_lem zero (a ∷ b ∷ s) l h = absurd (omega (arith, l))
bytes_lem (suc n) (a ∷ b ∷ s) l h =
    let more = bytes_lem n s (omega (arith, l)) (ground arith) in
    ground (arith, digit_value_lem a, digit_value_lem b, more)

hex_lem :
    (d : List ℕ) (s : Chars)
    → All Byte d
    → map to_ascii_lowercase s ≡ hex d
    → (length s ≡ 2 * length d) × (all is_ascii_hexdigit s ≡ true) × (bytes s ≡ d)
unfolding bytes
hex_lem [] [] u h = (refl, refl, refl)
hex_lem [] (a ∷ s) u h = cc
hex_lem (b ∷ d) [] u h = cc
hex_lem (b ∷ d) (a ∷ []) u h = cc
hex_lem (b ∷ d) (a ∷ c ∷ s) u h =
    let (da, ea) = digit_lem a (b / 16) (omega (arith, u.0)) (ground arith) in
    let (dc, ec) = digit_lem c (b % 16) (omega arith) (ground arith) in
    let (l, all_hex, e) = hex_lem d s u.1 (ground arith) in
    (omega (arith, l), ground arith, ground arith)

position_lem :
    (s : Chars)
    → (position (λ c. not (is_ascii_hexdigit c)) s ≡ none) ↔ (all is_ascii_hexdigit s ≡ true)
position_lem [] = (λ _. refl, λ _. refl)
position_lem (c ∷ s) = ground (arith, position_lem s)

accepted :
    {E A : Type 0} (b : Bool) (x : E) (y d : A)
    → (if not b then err x else ok y) ≡ ok d
    → (b ≡ true) × (y ≡ d)
accepted true x y d e = (refl, ground arith)
accepted false x y d e = cc

checked-none : (s : Chars) (d : List ℕ) → checked s none ≡ ok d → (length s ≡ 64) × (bytes s ≡ d)
unfolding checked
checked-none s d e =
    let (n, same) = accepted (length s == 64) _ (bytes s) d e in ((==_iff _ 64).0 n, same)

checked_iff :
    (s : Chars) (o : Option ℕ) (d : List ℕ)
    → (o ≡ none) ↔ (all is_ascii_hexdigit s ≡ true)
    → (checked s o ≡ ok d) ↔ ((length d ≡ 32) × All Byte d × (map to_ascii_lowercase s ≡ hex d))
unfolding checked
checked_iff s (some pos) d p =
    (λ e. cc, λ (l, u, h). let none_bad = p.1 ((hex_lem d s u h).1) in cc)
checked_iff s none d p = (
  λ e.
      let (n, same) = checked-none s d e in
      let (l, u, h) = bytes_lem 32 s n (p.0 refl) in rw (sym same) (l, u, h),
  λ (l, u, h). let (n, hexes, b) = hex_lem d s u h in rw (n, l) (ap ok b),
)

-- A setting is read as a digest exactly if that is 32 bytes which print as the setting, apart from
-- upper case and the white space around it.
pub parse_digest_iff :
    (s : Chars) (d : List ℕ)
    → (parse_digest s ≡ ok d)
      ↔ ((length d ≡ 32) × All Byte d × (map to_ascii_lowercase (trim s) ≡ hex d))
unfolding parse_digest
parse_digest_iff s d = checked_iff (trim s) _ d (position_lem (trim s))
