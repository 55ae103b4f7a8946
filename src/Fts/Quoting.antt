-- ===== src/Fts/Quoting.antt =====
-- A phrase that is passed on verbatim is one FTS5 string.
use m3_core_rs.Base.{
  ◌≡◌, refl, ◌↔◌, ◌⊎◌, inl, inr, Bool, true, false, Option, none, some, [], ◌∷◌, ◌++◌, arith, ◌==◌,
  if◌then◌else◌, is_empty, Chars, Bool-cases,
}
use m3_core_rs.Fts.{
  Unicode, double_quote, is_exact_query, inner, doubled, quoted, cleaned, compile_terms,
  compile_fts_query,
}

-- FTS5 reads a string behind its opening quote: two quotes are one, and a single one ends it.
abbrev pub read_string : Bool → Chars → Option Chars
read_string false [] = none
read_string true [] = some []
read_string false (c ∷ s) =
    let quote = read_string true s in
    let more = read_string false s in
    if c == double_quote then quote else elim more [ none ↦ none | some t ↦ some (c ∷ t) ]
read_string true (c ∷ s) =
    let more = read_string false s in
    if c == double_quote then elim more [ none ↦ none | some t ↦ some (double_quote ∷ t) ] else none

-- The phrase that a string literal stands for, when the whole text is one.
abbrev pub unquote : Chars → Option Chars
unquote [] = none
unquote (c ∷ s) = if c == double_quote then read_string false s else none

read_string-doubled : (s : Chars) → read_string false (doubled s ++ double_quote ∷ []) ≡ some s
unfolding doubled
read_string-doubled [] = refl
read_string-doubled (c ∷ s) = ground (arith, read_string-doubled s)

pub unquote-quoted : (s : Chars) → unquote (quoted s) ≡ some s
unfolding quoted
unquote-quoted s = read_string-doubled s

-- The arm behind the quotes.
terms_only :
    (clean terms : Chars)
    → let r : Chars × Bool =
        if◌then◌else◌ {A = Chars × Bool} (is_empty clean) ([], false) (terms, true) in
      ((r.1 ≡ false) ↔ (clean ≡ [])) × ((r.1 ≡ true) → (r.0 ≡ terms))
terms_only [] terms = ground arith
terms_only (c ∷ s) terms = ground arith

-- A query in matching quotes becomes one FTS5 string that stands for exactly the text between its
-- first and last character, whatever quotes that holds; any other query is compiled from its
-- cleaned terms, and is refused exactly when none is left.
pub compile_fts_query-cases :
    (u : Unicode) (query mode : Chars)
    → let r = compile_fts_query u query mode in
      ((is_exact_query query ≡ true) × (unquote r.0 ≡ some (inner query)) × (r.1 ≡ true))
      ⊎ ((is_exact_query query ≡ false)
          × ((r.1 ≡ false) ↔ (cleaned u query ≡ []))
          × ((r.1 ≡ true) → (r.0 ≡ compile_terms u (cleaned u query) mode)))
unfolding compile_fts_query
compile_fts_query-cases u query mode = elim (Bool-cases (is_exact_query query)) [
  | inl exact ↦ rw exact (inl (refl, unquote-quoted (inner query), refl))
  | inr other ↦ rw other (
      inr (
        refl,
        (terms_only (cleaned u query) (compile_terms u (cleaned u query) mode)).0,
        (terms_only (cleaned u query) (compile_terms u (cleaned u query) mode)).1,
      ))
]
