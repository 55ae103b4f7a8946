-- ===== src/Fts/Sanitized.antt =====
-- What is left of user input: terms of word characters, no operators, no longer than allowed.
use m3_core_rs.Base.{
  ℕ, ◌+◌, ◌≤◌, ◌≡◌, refl, inl, inr, Bool, true, ◌||◌, [], ◌∷◌, ◌++◌, arith, ltb, if◌then◌else◌,
  Bool-cases, length, take, length-take, length-map, length-append, all, Chars, is_whitespace, trim,
  trim_start, trim_end, text_eq,
}
use m3_core_rs.Fts.{
  Unicode, is_operator, stripped_word, strip_operators, strip_non_terms, sanitize_fts,
}

all-trim_start : (p : ℕ → Bool) (s : Chars) → all p s ≡ true → all p (trim_start s) ≡ true
unfolding trim_start
all-trim_start p [] h = refl
all-trim_start p (c ∷ s) h = ground (arith, all-trim_start p s)

all-trim_end : (p : ℕ → Bool) (s : Chars) → all p s ≡ true → all p (trim_end s) ≡ true
unfolding trim_end
all-trim_end p [] h = refl
all-trim_end p (c ∷ s) h = ground (arith, all-trim_end p s)

length-trim_start : (s : Chars) → length (trim_start s) ≤ length s
unfolding trim_start
length-trim_start [] = omega arith
length-trim_start (c ∷ s) = ground (arith, length-trim_start s)

length-trim_end : (s : Chars) → length (trim_end s) ≤ length s
unfolding trim_end
length-trim_end [] = omega arith
length-trim_end (c ∷ s) = ground (arith, length-trim_end s)

length-stripped_word : (w : Chars) → length (stripped_word w) ≤ length w
unfolding stripped_word is_operator text_eq
length-stripped_word [] = ground arith
length-stripped_word (c ∷ w) = ground arith

space : is_whitespace b' ' ≡ true
unfolding is_whitespace
space = refl

module _ (u : Unicode) where
  abbrev pub term_or_space : ℕ → Bool
  term_or_space c = u.is_word c || is_whitespace c

  length-strip_non_terms : (s : Chars) → length (strip_non_terms u s) ≡ length s
  unfolding strip_non_terms
  length-strip_non_terms s = length-map s (λ c. if u.is_word c || is_whitespace c then c else b' ')

  all-strip_non_terms : (s : Chars) → all term_or_space (strip_non_terms u s) ≡ true
  unfolding strip_non_terms
  all-strip_non_terms [] = refl
  all-strip_non_terms (c ∷ s) = ground (arith, all-strip_non_terms s, space)

  length-strip_operators : (w s : Chars) → length (strip_operators u w s) ≤ length w + length s
  unfolding strip_operators
  length-strip_operators w [] = omega (arith, length-stripped_word w)
  length-strip_operators w (c ∷ s) = elim (Bool-cases (u.is_word c)) [
    | inl word ↦
        rw word (omega (arith, length-strip_operators (w ++ c ∷ []) s, length-append w (c ∷ [])))
    | inr gap ↦ rw gap (
        omega (
          arith,
          length-append (stripped_word w) (c ∷ strip_operators u [] s),
          length-stripped_word w,
          length-strip_operators [] s,
        ))
  ]

  -- A sanitized query consists of word characters and white space, and is at most as long as the
  -- limit and as the query.
  sanitize_fts-bounded :
      (query : Chars) (max_len : ℕ)
      → let s = sanitize_fts u query max_len in
        (all term_or_space s ≡ true) × (length s ≤ max_len) × (length s ≤ length query)
  unfolding sanitize_fts
  sanitize_fts-bounded query max_len =
      let cut : Chars = if ltb max_len (length query) then take max_len query else query in
      let fits : (length cut ≤ max_len) × (length cut ≤ length query) =
        ground (arith, length-take max_len query) in
      let s = strip_operators u [] cut in
      let t = strip_non_terms u s in
      let n : length t ≡ length s = length-strip_non_terms s in
      let le : length (trim t) ≤ length cut = omega (
        arith,
        length-trim_end (trim_start t),
        length-trim_start t,
        length-strip_operators [] cut,
        n,
      ) in
      (
        all-trim_end term_or_space (trim_start t)
            (all-trim_start term_or_space t (all-strip_non_terms s)),
        omega (arith, le, fits.0),
        omega (arith, le, fits.1),
      )
