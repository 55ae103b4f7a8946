-- ===== src/Fts.antt =====
-- crates/m3-fts/src/lib.rs: user input as an FTS5 query. Strings are their code points. Unicode's
-- classes and lower case are parameters. `\b(OR|AND|NOT|NEAR)\b` matches the runs of word
-- characters that are such a word, since it starts and ends at a word boundary.
pub mod Quoting
pub mod Sanitized
pub mod Operators
mod Tests
use m3_core_rs.Base.{
  ℕ, zero, suc, ◌+◌, Bool, true, false, not, ◌&&◌, ◌||◌, Option, none, some, List, [], ◌∷◌, ◌++◌,
  map, ltb, ◌==◌, if◌then◌else◌, length, take, any, all, is_empty, Text, ascii, text_eq, Chars,
  is_whitespace, split_whitespace, trim,
}

-- The tables that the program takes from Unicode: `\w`, `char::is_alphanumeric`, `to_lowercase`.
pub record Unicode : Type 0 where
  pub is_word : ℕ → Bool
  pub is_alphanumeric : ℕ → Bool
  pub to_lowercase : Chars → Chars

unfoldable pub is_operator : Chars → Bool
is_operator w =
    text_eq w (ascii "OR")
    || text_eq w (ascii "AND")
    || text_eq w (ascii "NOT")
    || text_eq w (ascii "NEAR")

unfoldable pub stripped_word : Chars → Chars
stripped_word w = if is_operator w then b' ' ∷ [] else w

unfoldable pub searchable_punct : ℕ → Bool
searchable_punct c =
    c == b'?'
    || c == b'!'
    || c == b':'
    || c == b'.'
    || c == b','
    || c == b';'
    || c == b'/'
    || c == b'"'
    || c == 39

unfoldable pub ends_with : ℕ → Chars → Bool
ends_with q [] = false
ends_with q (c ∷ []) = c == q
ends_with q (c ∷ d ∷ s) = ends_with q (d ∷ s)

unfoldable pub starts_with : ℕ → Chars → Bool
starts_with q [] = false
starts_with q (c ∷ s) = c == q

abbrev pub double_quote : ℕ
double_quote = 34

abbrev single_quote : ℕ
single_quote = 39

unfoldable pub is_exact_query : Chars → Bool
is_exact_query query =
    (starts_with double_quote query && ends_with double_quote query)
    || (starts_with single_quote query && ends_with single_quote query)

-- `chars[..chars.len() - 1]`.
unfoldable pub but_last : Chars → Chars
but_last [] = []
but_last (c ∷ []) = []
but_last (c ∷ d ∷ s) = c ∷ but_last (d ∷ s)

unfoldable pub inner : Chars → Chars
unfolding but_last
inner [] = []
inner (c ∷ s) = but_last s

unfoldable pub doubled : Chars → Chars
doubled [] = []
doubled (c ∷ s) =
    if c == double_quote then double_quote ∷ double_quote ∷ doubled s else c ∷ doubled s

unfoldable pub quoted : Chars → Chars
unfolding doubled
quoted s = double_quote ∷ doubled s ++ double_quote ∷ []

join_or : List Chars → Chars
join_or [] = []
join_or (t ∷ []) = t
join_or (t ∷ u ∷ ts) = t ++ ascii " OR " ++ join_or (u ∷ ts)

module _ (u : Unicode) where
  -- The text with its operator words as spaces, behind the word that is being read.
  unfoldable pub strip_operators : Chars → Chars → Chars
  unfolding stripped_word
  strip_operators word [] = stripped_word word
  strip_operators word (c ∷ s) =
      let longer = strip_operators (word ++ c ∷ []) s in
      let next = strip_operators [] s in
      if u.is_word c then longer else stripped_word word ++ c ∷ next

  unfoldable pub strip_non_terms : Chars → Chars
  strip_non_terms = map (λ c. if u.is_word c || is_whitespace c then c else b' ')

  unfoldable pub sanitize_fts : Chars → ℕ → Chars
  unfolding strip_operators strip_non_terms
  sanitize_fts query max_len =
      let truncated = if ltb max_len (length query) then take max_len query else query in
      trim (strip_non_terms (strip_operators [] truncated))

  unfoldable pub sanitize_for_searchable : Chars → Chars
  unfolding searchable_punct
  sanitize_for_searchable [] = []
  sanitize_for_searchable (c ∷ s) =
      map (λ d. if searchable_punct d then b' ' else d) (u.to_lowercase (c ∷ s))

  unfoldable pub is_alnum : Chars → Bool
  is_alnum s = not (is_empty s) && all u.is_alphanumeric s

  wildcarded : Chars → Chars
  unfolding is_alnum
  wildcarded clean = if is_alnum clean then clean ++ b'*' ∷ [] else clean

  unfoldable pub cleaned : Chars → Chars
  unfolding sanitize_fts sanitize_for_searchable
  cleaned query = trim (sanitize_for_searchable (sanitize_fts query 500))

  unfoldable pub compile_terms : Chars → Chars → Chars
  unfolding join_or wildcarded is_alnum
  compile_terms clean mode =
      let toks = split_whitespace clean in
      if text_eq mode (ascii "fts5")
      then (if ltb 1 (length toks) then join_or toks else wildcarded clean)
      else (if not (any (λ c. c == b' ') clean) && is_alnum clean
          then clean ++ b'*' ∷ []
          else clean)

  unfoldable pub compile_fts_query : Chars → Chars → Chars × Bool
  unfolding is_exact_query inner quoted cleaned compile_terms
  compile_fts_query query mode =
      if is_exact_query query
      then (quoted (inner query), true)
      else (if is_empty (cleaned query)
          then ([], false)
          else (compile_terms (cleaned query) mode, true))
