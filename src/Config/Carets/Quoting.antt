-- ===== src/Config/Carets/Quoting.antt =====
-- A text in carets comes out as a TOML string that TOML reads as the text.
use m3_core_rs.Base.{
  ℕ, zero, suc, ◌+◌, ◌-◌, ◌*◌, ◌/◌, ◌%◌, ◌<◌, ◌≡◌, refl, sym, ap, ◌∙◌, inl, inr, ◌&&◌, ◌||◌, Option,
  none, some, [], ◌∷◌, ◌++◌, arith, ltb, leb, ◌==◌, ==_iff, if◌then◌else◌, Bool-cases, Chars,
  is_empty,
}
use mathlib.Core.List.{append_assoc, append-nil}
use m3_core_rs.Config.Carets.{
  caret, Translated, ok, not_closed, escape, escape_all, literal, step, finish, prepend, run,
  carets_to_toml, hex_digit,
}

-- The carets of a text, doubled.
abbrev pub doubled : Chars → Chars
doubled [] = []
doubled (c ∷ s) = if c == b'^' then b'^' ∷ b'^' ∷ doubled s else c ∷ doubled s

abbrev pub in_carets : Chars → Chars
in_carets s = b'^' ∷ (doubled s ++ b'^' ∷ [])

hex_value : ℕ → Option ℕ
hex_value c =
    if leb b'0' c && leb c b'9'
    then some (c - b'0')
    else if leb b'a' c && leb c b'f'
    then some (c - 87)
    else if leb b'A' c && leb c b'F'
    then some (c - 55)
    else none

-- TOML's reading of a basic string behind its first quote: in its text, behind a backslash, and in
-- the digits of `\u`, of which the next ones are counted from 0.
pub data Reader : Type 0 where
  body slash : Reader
  digits : ℕ → ℕ → Reader

before : ℕ → Option Chars → Option Chars
before c none = none
before c (some s) = some (c ∷ s)

with_digit : Option ℕ → (ℕ → Option Chars) → Option Chars
with_digit none f = none
with_digit (some d) f = f d

reads : Reader → Chars → Option Chars
unfolding before with_digit hex_value
reads r [] = none
reads body (c ∷ s) =
    let text = reads body s in
    let special = reads slash s in
    if c == b'"'
    then (if is_empty s then some [] else none)
    else if c == b'\\'
    then special
    else if ltb c 0x20 || c == 0x7F
    then none
    else before c text
reads slash (c ∷ s) =
    let text = reads body s in
    let number = reads (digits 3 0) s in
    if c == b'"' || c == b'\\' then before c text else if c == b'u' then number else none
reads (digits zero v) (c ∷ s) =
    let text = reads body s in with_digit (hex_value c) (λ d. before (16 * v + d) text)
reads (digits (suc n) v) (c ∷ s) = with_digit (hex_value c) (λ d. reads (digits n (16 * v + d)) s)

-- A text as the value of a TOML basic string.
abbrev pub toml_string : Chars → Option Chars
unfolding reads
toml_string [] = none
toml_string (c ∷ s) = if c == b'"' then reads body s else none

hex_value-hex_digit : (n : ℕ) → n < 16 → hex_value (hex_digit n) ≡ some n
unfolding hex_value hex_digit
hex_value-hex_digit n h = ground arith

reads-escape : (c : ℕ) (rest : Chars) → reads body (escape c ++ rest) ≡ before c (reads body rest)
unfolding reads escape
reads-escape c rest = elim (Bool-cases (c == b'"')) [
  | inl q ↦
      let same : c ≡ b'"' = (==_iff c b'"').0 q in
      rw q (ap (λ d. before d (reads body rest)) (sym same))
  | inr q ↦ elim (Bool-cases (c == b'\\')) [
    | inl b ↦
        let same : c ≡ b'\\' = (==_iff c b'\\').0 b in
        rw (q, b) (ap (λ d. before d (reads body rest)) (sym same))
    | inr b ↦ elim (Bool-cases (ltb c 0x20 || c == 0x7F)) [
      | inl u ↦
          let high : c / 16 < 16 = ground arith in
          let low : c % 16 < 16 = omega arith in
          let number : 16 * (16 * (16 * (16 * 0 + 0) + 0) + c / 16) + c % 16 ≡ c = omega arith in
          rw (q, b, u)
            (rw (hex_value-hex_digit (c / 16) high, hex_value-hex_digit (c % 16) low)
              (ap (λ d. before d (reads body rest)) number))
      | inr u ↦ rw (q, b, u) (rw (q, b, u) refl)
    ]
  ]
]

prepend-nil : (t : Translated) → prepend [] t ≡ t
unfolding prepend
prepend-nil (ok s) = refl
prepend-nil (not_closed at) = refl

run-doubled :
    (at start : ℕ) (buf s : Chars)
    → run at (caret start buf) (doubled s ++ b'^' ∷ []) ≡ ok (literal (buf ++ s))
unfolding run step finish
run-doubled at start buf [] = prepend-nil _ ∙ ap (λ b. ok (literal b)) (sym (append-nil buf))
run-doubled at start buf (c ∷ s) = elim (Bool-cases (c == b'^')) [
  | inl e ↦
      let same : c ≡ b'^' = (==_iff c b'^').0 e in
      rw e (
        prepend-nil _
        ∙ prepend-nil _
        ∙ run-doubled (suc (suc at)) start (buf ++ b'^' ∷ []) s
        ∙ ap (λ b. ok (literal b)) (append_assoc buf (b'^' ∷ []) s)
        ∙ ap (λ d. ok (literal (buf ++ d ∷ s))) (sym same))
  | inr e ↦ rw e (
      rw e (
        prepend-nil _
        ∙ run-doubled (suc at) start (buf ++ c ∷ []) s
        ∙ ap (λ b. ok (literal b)) (append_assoc buf (c ∷ []) s)))
]

closed : reads body (b'"' ∷ []) ≡ some []
unfolding reads
closed = refl

before_some : (c : ℕ) (s : Chars) → before c (some s) ≡ some (c ∷ s)
unfolding before
before_some c s = refl

reads-escape_all : (s : Chars) → reads body (escape_all s ++ b'"' ∷ []) ≡ some s
unfolding escape_all
reads-escape_all [] = closed
reads-escape_all (c ∷ s) =
    ap (reads body) (append_assoc (escape c) (escape_all s) (b'"' ∷ []))
    ∙ reads-escape c (escape_all s ++ b'"' ∷ [])
    ∙ ap (before c) (reads-escape_all s)
    ∙ before_some c s

-- A text that is written in carets, with its own carets doubled, is translated to a TOML basic string
-- that TOML reads as the text, whatever characters it has.
pub carets_to_toml-in_carets :
    (s : Chars)
    → (carets_to_toml (in_carets s) ≡ ok (literal s)) × (toml_string (literal s) ≡ some s)
unfolding carets_to_toml run step literal toml_string reads
carets_to_toml-in_carets s = (prepend-nil _ ∙ run-doubled 1 0 [] s, reads-escape_all s)
