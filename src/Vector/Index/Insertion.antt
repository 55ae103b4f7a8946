-- ===== src/Vector/Index/Insertion.antt =====
-- What an insertion does to the map.
use m3_core_rs.Base.{
  ℕ, zero, suc, ◌+◌, ◌-◌, ◌*◌, ◌<◌, ◌≡◌, refl, ◌∙◌, inl, inr, false, Option, none, some, List, [],
  ◌∷◌, ◌++◌, arith, ◌==◌, ==_iff, Bool-cases, Option-cases, length, length-append, set_at, splice,
  length-splice, write-splice, put-set_at, get-set_at, get-snoc, get-lt, length-set_at, rows_apart,
  ℤ, int_eq, int_eq_iff,
}
use m3_core_rs.Vector.Index.Rows.{row_at-splice, row_at-splice_other, row_at-append}
use m3_core_rs.Vector.Index.{VectorIndex, place, insert_pos, zeros}
use m3_core_rs.Vector.Index.Valid.{PosOf, Valid, Updated}

length-zeros : (n : ℕ) → length (zeros n) ≡ n
length-zeros zero = refl
length-zeros (suc n) = omega (arith, length-zeros n)

-- A number that no position has is not below the length.
pub insert-PosOf :
    (keys : List ℤ) (at : ℤ → Option ℕ) (key : ℤ)
    → PosOf keys at
    → at key ≡ none
    → PosOf (keys ++ key ∷ []) (insert_pos key (length keys) at)
insert-PosOf keys at key p e k i =
    let (to, from) = int_eq_iff key k in
    let (up, down) = p k i in
    rw (get-snoc keys key i) (elim (Bool-cases (int_eq key k)) [
      | inl h ↦
          let same : key ≡ k = to h in
          let gone : at k ≡ none = rw (← same) e in
          rw h (λ f. ground (arith, same), λ f. ground (arith, gone, down))
      | inr h ↦
          rw h (λ f. ground (arith, up f, get-lt keys i (up f)), λ f. ground (arith, from, down))
    ])

module _ {S : Type 0} where
  place-new :
      (idx : VectorIndex S) (key : ℤ) (row : List ℤ) (scale : S)
      → Valid idx
      → length row ≡ idx.dim
      → place key row scale none idx
        ≡ some (record idx {
          keys = idx.keys ++ key ∷ [];
          codes = splice (length idx.keys * idx.dim) row (idx.codes ++ zeros idx.dim);
          scales = idx.scales ++ scale ∷ [];
          pos_of = insert_pos key (length idx.keys) idx.pos_of;
        })
  unfolding place
  place-new idx key row scale (d, c, s, p) e =
      let longer = idx.codes ++ zeros idx.dim in
      let from = length idx.keys * idx.dim in
      let l : length longer ≡ from + idx.dim =
        omega (arith, length-append idx.codes (zeros idx.dim), length-zeros idx.dim) in
      rw (write-splice from (length longer - from) row longer (omega arith) (omega arith)) refl

  place-old :
      (idx : VectorIndex S) (key : ℤ) (row : List ℤ) (scale : S) (i : ℕ)
      → Valid idx
      → i < length idx.keys
      → length row ≡ idx.dim
      → place key row scale (some i) idx
        ≡ some (record idx {
          codes = splice (i * idx.dim) row idx.codes;
          scales = set_at i scale idx.scales;
        })
  unfolding place
  place-old idx key row scale i (d, c, s, p) h e =
      let room = rows_apart i (length idx.keys) idx.dim h in
      rw
        (
          write-splice (i * idx.dim) idx.dim row idx.codes (omega arith) e,
          put-set_at i scale idx.scales (omega arith),
        )
        refl

  place-new-Updated :
      (idx : VectorIndex S) (key : ℤ) (row : List ℤ) (scale : S)
      → Valid idx
      → length row ≡ idx.dim
      → Updated key
          (row, scale)
          idx
          (record idx {
            keys = idx.keys ++ key ∷ [];
            codes = splice (length idx.keys * idx.dim) row (idx.codes ++ zeros idx.dim);
            scales = idx.scales ++ scale ∷ [];
            pos_of = insert_pos key (length idx.keys) idx.pos_of;
          })
  place-new-Updated idx key row scale (d, c, s, p) e j =
      let n = length idx.keys in
      let longer = idx.codes ++ zeros idx.dim in
      let l = length-append idx.codes (zeros idx.dim) in
      elim (Bool-cases (int_eq key j)) [
        | inl h ↦
            rw (h, get-snoc idx.scales scale n)
              (rw (s, row_at-splice idx.dim n row longer e (omega arith))
                (rw ((==_iff n n).1 refl) refl))
        | inr h ↦ elim (Option-cases (idx.pos_of j)) [
          | inl f ↦ rw (h, f) refl
          | inr (i, f) ↦
              let below = get-lt idx.keys i ((p j i).0 f) in
              let apart : (length idx.scales == i) ≡ false = ground arith in
              rw (h, f, get-snoc idx.scales scale i)
                (rw
                  (
                    row_at-splice_other idx.dim n i row longer e (omega arith)
                        (λ q. absurd (omega arith)),
                    row_at-append idx.dim i n idx.codes (zeros idx.dim) below c,
                  )
                  (rw apart refl))
        ]
      ]

  place-new-Valid :
      (idx : VectorIndex S) (key : ℤ) (row : List ℤ) (scale : S)
      → Valid idx
      → length row ≡ idx.dim
      → idx.pos_of key ≡ none
      → Valid (record idx {
        keys = idx.keys ++ key ∷ [];
        codes = splice (length idx.keys * idx.dim) row (idx.codes ++ zeros idx.dim);
        scales = idx.scales ++ scale ∷ [];
        pos_of = insert_pos key (length idx.keys) idx.pos_of;
      })
  place-new-Valid idx key row scale (d, c, s, p) e gone =
      let n = length idx.keys in
      let longer = idx.codes ++ zeros idx.dim in
      let l = length-append idx.codes (zeros idx.dim) in
      let z = length-zeros idx.dim in
      let k = length-append idx.keys (key ∷ []) in
      let written = length-splice (n * idx.dim) row longer (omega arith) in
      let area : suc n * idx.dim ≡ n * idx.dim + idx.dim = grind arith in
      let count : n + 1 ≡ suc n = omega arith in
      (
        d,
        rw (k, count, area, written) (omega arith),
        omega (arith, k, length-append idx.scales (scale ∷ [])),
        insert-PosOf idx.keys idx.pos_of key p gone,
      )

  place-old-Valid :
      (idx : VectorIndex S) (row : List ℤ) (scale : S) (i : ℕ)
      → Valid idx
      → i < length idx.keys
      → length row ≡ idx.dim
      → Valid (record idx {
        codes = splice (i * idx.dim) row idx.codes;
        scales = set_at i scale idx.scales;
      })
  place-old-Valid idx row scale i (d, c, s, p) h e =
      let room = rows_apart i (length idx.keys) idx.dim h in
      (
        d,
        length-splice (i * idx.dim) row idx.codes (omega arith) ∙ c,
        length-set_at i scale idx.scales ∙ s,
        p,
      )

  place-old-Updated :
      (idx : VectorIndex S) (key : ℤ) (row : List ℤ) (scale : S) (i : ℕ)
      → Valid idx
      → idx.pos_of key ≡ some i
      → length row ≡ idx.dim
      → Updated key
          (row, scale)
          idx
          (record idx {
            codes = splice (i * idx.dim) row idx.codes;
            scales = set_at i scale idx.scales;
          })
  place-old-Updated idx key row scale i (d, c, s, p) at e j =
      let here = (p key i).0 at in
      let h = get-lt idx.keys i here in
      let room = rows_apart i (length idx.keys) idx.dim h in
      elim (Bool-cases (int_eq key j)) [
        | inl q ↦
            let same : key ≡ j = (int_eq_iff key j).0 q in
            let at_j : idx.pos_of j ≡ some i = rw (← same) at in
            rw (q, at_j, get-set_at i i scale idx.scales (omega arith), (==_iff i i).1 refl)
              (rw (row_at-splice idx.dim i row idx.codes e (omega arith)) refl)
        | inr q ↦ elim (Option-cases (idx.pos_of j)) [
          | inl f ↦ rw (q, f) refl
          | inr (k, f) ↦
              let there = (p j k).0 f in
              let apart : (i == k) ≡ false = ground (arith, int_eq_iff key j) in
              rw
                (
                  q,
                  f,
                  get-set_at i k scale idx.scales (omega arith),
                  apart,
                  row_at-splice_other idx.dim i k row idx.codes e (omega arith)
                      (λ w. ground (arith, w)),
                )
                refl
        ]
      ]

  -- From a valid index an insertion does not panic, and leaves a valid index in which the key has the
  -- row and the scale, and every other key what it had.
  pub place-Refines :
      (idx : VectorIndex S) (key : ℤ) (row : List ℤ) (scale : S) (at : Option ℕ)
      → Valid idx
      → length row ≡ idx.dim
      → idx.pos_of key ≡ at
      → (after : VectorIndex S) × (place key row scale at idx ≡ some after)
        × Valid after
        × (after.dim ≡ idx.dim)
        × Updated key (row, scale) idx after
  place-Refines idx key row scale none v e at = (
    _,
    place-new idx key row scale v e,
    place-new-Valid idx key row scale v e at,
    refl,
    place-new-Updated idx key row scale v e,
  )
  place-Refines idx key row scale (some i) v e at =
      let h = get-lt idx.keys i ((v.3 key i).0 at) in
      (
        _,
        place-old idx key row scale i v h e,
        place-old-Valid idx row scale i v h e,
        refl,
        place-old-Updated idx key row scale i v at e,
      )
