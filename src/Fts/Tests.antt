-- ===== src/Fts/Tests.antt =====
-- Queries over the ASCII part of the Unicode tables.
use m3_core_rs.Base.{
  ℕ, ◌+◌, ◌≡◌, refl, ◌↔◌, ◌⊎◌, Bool, true, false, ◌&&◌, ◌||◌, some, [], ◌∷◌, map, arith, leb, ◌==◌,
  if◌then◌else◌, Chars, ascii, is_whitespace, text_eq, trim_end, trim_start, split_whitespace,
}
use m3_core_rs.Fts.{
  Unicode, is_exact_query, inner, cleaned, compile_terms, compile_fts_query, sanitize_fts,
  is_operator, starts_with, ends_with,
}
use m3_core_rs.Fts.Quoting.{unquote, compile_fts_query-cases}
use m3_core_rs.Fts.Operators.{has_operator, sanitize_fts-operators}

abbrev letter_or_digit : ℕ → Bool
letter_or_digit c =
    (leb b'a' c && leb c b'z') || (leb b'A' c && leb c b'Z') || (leb b'0' c && leb c b'9')

abbrev latin : Unicode
latin = record {
  is_word = λ c. letter_or_digit c || c == b'_';
  is_alphanumeric = letter_or_digit;
  to_lowercase = map (λ c. if leb b'A' c && leb c b'Z' then c + 32 else c);
}

latin_apart : (c : ℕ) → is_whitespace c ≡ true → latin.is_word c ≡ false
unfolding is_whitespace
latin_apart c h = ground arith

compile_test :
    compile_fts_query latin (ascii "gpt-4o AND NOT x") (ascii "fts5")
    ≡ (ascii "gpt OR 4o OR x", true)
unfolding compile_fts_query starts_with trim_end trim_start is_operator text_eq is_whitespace
    split_whitespace
compile_test = refl

exact_test :
    compile_fts_query latin (34 ∷ 65 ∷ 34 ∷ 66 ∷ 34 ∷ []) (ascii "fts5")
    ≡ (34 ∷ 65 ∷ 34 ∷ 34 ∷ 66 ∷ 34 ∷ [], true)
unfolding compile_fts_query starts_with ends_with
exact_test = refl

abbrev phrase : Chars
phrase = 34 ∷ 65 ∷ 34 ∷ 66 ∷ 34 ∷ []

compile_fts_query-cases_example :
    let r = compile_fts_query latin phrase (ascii "fts5") in
    ((is_exact_query phrase ≡ true) × (unquote r.0 ≡ some (inner phrase)) × (r.1 ≡ true))
    ⊎ ((is_exact_query phrase ≡ false)
        × ((r.1 ≡ false) ↔ (cleaned latin phrase ≡ []))
        × ((r.1 ≡ true) → (r.0 ≡ compile_terms latin (cleaned latin phrase) (ascii "fts5"))))
compile_fts_query-cases_example = compile_fts_query-cases latin phrase (ascii "fts5")

sanitize_fts-operators_example :
    has_operator latin [] (sanitize_fts latin (ascii "a-b OR c") 20) ≡ false
sanitize_fts-operators_example = sanitize_fts-operators latin (ascii "a-b OR c") 20 latin_apart
