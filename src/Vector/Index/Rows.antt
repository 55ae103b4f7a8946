-- ===== src/Vector/Index/Rows.antt =====
-- The rows of the list of codes, behind a write, an extension and a cut.
use m3_core_rs.Base.{
  ℕ, ◌+◌, ◌-◌, ◌*◌, ◌≤◌, ◌<◌, ◌≡◌, ◌≢◌, sym, ap, ◌∙◌, inl, inr, List, ◌++◌, arith, length, take,
  drop, splice, splice-here, splice-before, splice-behind, rows_apart, drop-append-le,
  take-append-le, take-drop-take, length-drop, ℤ, ◌⊎◌,
}

abbrev pub row_at : ℕ → ℕ → List ℤ → List ℤ
row_at dim i codes = take dim (drop (i * dim) codes)

module _ (dim : ℕ) where
  pub row_at-splice :
      (i : ℕ) (row codes : List ℤ)
      → length row ≡ dim
      → i * dim ≤ length codes
      → row_at dim i (splice (i * dim) row codes) ≡ row
  row_at-splice i row codes e h =
      ap (λ n. take n (drop (i * dim) (splice (i * dim) row codes))) (sym e)
      ∙ splice-here (i * dim) row codes h

  before_or_behind : (i j : ℕ) → i ≢ j → (j < i) ⊎ (i < j)
  before_or_behind i j h = ground arith

  pub row_at-splice_other :
      (i j : ℕ) (row codes : List ℤ)
      → length row ≡ dim
      → i * dim ≤ length codes
      → i ≢ j
      → row_at dim j (splice (i * dim) row codes) ≡ row_at dim j codes
  row_at-splice_other i j row codes e h ne = elim (before_or_behind i j ne) [
    | inl l ↦ splice-before dim (j * dim) (i * dim) row codes (rows_apart j i dim l) h
    | inr l ↦
        let far = rows_apart i j dim l in
        let split : i * dim + length row + (j * dim - (i * dim + dim)) ≡ j * dim = omega arith in
        ap (λ n. take dim (drop n (splice (i * dim) row codes))) (sym split)
        ∙ ap (take dim) (splice-behind (j * dim - (i * dim + dim)) (i * dim) row codes h)
        ∙ ap (λ n. take dim (drop n codes)) split
  ]

  pub row_at-append :
      (j n : ℕ) (codes more : List ℤ)
      → j < n
      → length codes ≡ n * dim
      → row_at dim j (codes ++ more) ≡ row_at dim j codes
  row_at-append j n codes more h e =
      let far = rows_apart j n dim h in
      ap (take dim) (drop-append-le (j * dim) codes more (omega arith))
      ∙ take-append-le dim (drop (j * dim) codes) more (omega (arith, length-drop (j * dim) codes))

  pub row_at-take :
      (j n : ℕ) (codes : List ℤ) → j < n → row_at dim j (take (n * dim) codes) ≡ row_at dim j codes
  row_at-take j n codes h = take-drop-take dim (j * dim) (n * dim) codes (rows_apart j n dim h)
