-- ===== src/Fts/Operators.antt =====
-- No FTS5 operator is left of user input.
use m3_core_rs.Base.{
  ℕ, ◌≡◌, refl, sym, ap, ◌∙◌, inl, inr, Bool, true, false, ◌&&◌, ◌||◌, List, [], ◌∷◌, ◌++◌, arith,
  ltb, if◌then◌else◌, Bool-cases, take, any, all, is_empty, Chars, is_whitespace, trim_start,
  trim_end, text_eq, length,
}
use mathlib.Core.List.{append_assoc, append-nil}
use m3_core_rs.Fts.{
  Unicode, is_operator, stripped_word, strip_operators, strip_non_terms, sanitize_fts,
}

empty_word : is_operator [] ≡ false
unfolding is_operator text_eq
empty_word = refl

space : is_whitespace b' ' ≡ true
unfolding is_whitespace
space = refl

nil_of_empty : (s : Chars) → is_empty s ≡ true → s ≡ []
nil_of_empty [] h = refl
nil_of_empty (c ∷ s) h = cc

or_false : (b : Bool) → (b || false) ≡ b
or_false b = ground arith

module _ (u : Unicode) where
  -- The runs of word characters of a text, with the empty ones, behind the run that is being read.
  abbrev pub runs : Chars → Chars → List Chars
  runs w [] = w ∷ []
  runs w (c ∷ s) =
      let longer = runs (w ++ c ∷ []) s in
      let next = runs [] s in if u.is_word c then longer else w ∷ next

  abbrev pub has_operator : Chars → Chars → Bool
  has_operator w s = any is_operator (runs w s)

  module _ (apart : (c : ℕ) → is_whitespace c ≡ true → u.is_word c ≡ false) where
    has_operator-gap :
        (v w : Chars) (c : ℕ) (s : Chars)
        → all u.is_word w ≡ true
        → u.is_word c ≡ false
        → has_operator v (w ++ c ∷ s) ≡ (is_operator (v ++ w) || has_operator [] s)
    has_operator-gap v [] c s h g = rw (g, append-nil v) refl
    has_operator-gap v (d ∷ w) c s h g =
        let word : u.is_word d ≡ true = ground arith in
        let rest : all u.is_word w ≡ true = ground arith in
        rw word (
          has_operator-gap (v ++ d ∷ []) w c s rest g
          ∙ ap (λ x. is_operator x || has_operator [] s) (append_assoc v (d ∷ []) w))

    has_operator-word :
        (v w : Chars) → all u.is_word w ≡ true → has_operator v w ≡ is_operator (v ++ w)
    has_operator-word v [] h = rw (append-nil v) (or_false (is_operator v))
    has_operator-word v (d ∷ w) h =
        let word : u.is_word d ≡ true = ground arith in
        let rest : all u.is_word w ≡ true = ground arith in
        rw word
          (has_operator-word (v ++ d ∷ []) w rest ∙ ap is_operator (append_assoc v (d ∷ []) w))

    all-snoc :
        (w : Chars) (c : ℕ)
        → all u.is_word w ≡ true
        → u.is_word c ≡ true
        → all u.is_word (w ++ c ∷ []) ≡ true
    all-snoc [] c h g = ground arith
    all-snoc (d ∷ w) c h g = ground (arith, all-snoc w c)

    has_operator-strip_operators :
        (w s : Chars) → all u.is_word w ≡ true → has_operator [] (strip_operators u w s) ≡ false
    unfolding strip_operators stripped_word
    has_operator-strip_operators w [] h = elim (Bool-cases (is_operator w)) [
      | inl op ↦ rw op (rw (apart b' ' space, empty_word) refl)
      | inr other ↦ rw other (has_operator-word [] w h ∙ other)
    ]
    has_operator-strip_operators w (c ∷ s) h = elim (Bool-cases (u.is_word c)) [
      | inl word ↦ rw word (has_operator-strip_operators (w ++ c ∷ []) s (all-snoc w c h word))
      | inr gap ↦ elim (Bool-cases (is_operator w)) [
        | inl op ↦
            rw (gap, op)
              (rw (apart b' ' space, gap, empty_word) (has_operator-strip_operators [] s refl))
        | inr other ↦
            rw (gap, other)
              (has_operator-gap [] w c (strip_operators u [] s) h gap
                ∙ rw (other, has_operator-strip_operators [] s refl) refl)
      ]
    ]

    has_operator-strip_non_terms :
        (w s : Chars) → has_operator w (strip_non_terms u s) ≡ has_operator w s
    unfolding strip_non_terms
    has_operator-strip_non_terms w [] = refl
    has_operator-strip_non_terms w (c ∷ s) = elim (Bool-cases (u.is_word c)) [
      | inl word ↦ rw word (rw word (has_operator-strip_non_terms (w ++ c ∷ []) s))
      | inr gap ↦ elim (Bool-cases (is_whitespace c)) [
        | inl white ↦
            rw (gap, white) (rw gap (ap (◌||◌ (is_operator w)) (has_operator-strip_non_terms [] s)))
        | inr other ↦
            rw (gap, other)
              (rw (apart b' ' space)
                (ap (◌||◌ (is_operator w)) (has_operator-strip_non_terms [] s)))
      ]
    ]

    has_operator-trim_start : (s : Chars) → has_operator [] (trim_start s) ≡ has_operator [] s
    unfolding trim_start
    has_operator-trim_start [] = refl
    has_operator-trim_start (c ∷ s) = elim (Bool-cases (is_whitespace c)) [
      | inl gap ↦ rw (gap, apart c gap, empty_word) (has_operator-trim_start s)
      | inr other ↦ rw other refl
    ]

    has_operator-trim_end : (w s : Chars) → has_operator w (trim_end s) ≡ has_operator w s
    unfolding trim_end
    has_operator-trim_end w [] = refl
    has_operator-trim_end w (c ∷ s) = elim (Bool-cases (is_whitespace c && is_empty (trim_end s))) [
      | inl last ↦
          let white : is_whitespace c ≡ true = ground arith in
          let none_left : trim_end s ≡ [] = nil_of_empty (trim_end s) (ground arith) in
          let rest : has_operator [] s ≡ false =
            sym (has_operator-trim_end [] s) ∙ rw none_left (rw empty_word refl) in
          rw (last, apart c white, rest) refl
      | inr more ↦ rw more (elim (Bool-cases (u.is_word c)) [
        | inl word ↦ rw word (has_operator-trim_end (w ++ c ∷ []) s)
        | inr gap ↦ rw gap (ap (◌||◌ (is_operator w)) (has_operator-trim_end [] s))
      ])
    ]

  -- Where no white space counts as a word character, no run of word characters of a sanitized query
  -- is one of FTS5's operators.
  pub sanitize_fts-operators :
      (query : Chars) (max_len : ℕ)
      → ((c : ℕ) → is_whitespace c ≡ true → u.is_word c ≡ false)
      → has_operator [] (sanitize_fts u query max_len) ≡ false
  unfolding sanitize_fts
  sanitize_fts-operators query max_len apart =
      let cut : Chars = if ltb max_len (length query) then take max_len query else query in
      let s = strip_operators u [] cut in
      let t = strip_non_terms u s in
      has_operator-trim_end apart [] (trim_start t)
      ∙ has_operator-trim_start apart t
      ∙ has_operator-strip_non_terms apart [] s
      ∙ has_operator-strip_operators apart [] cut refl
