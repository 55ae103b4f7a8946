-- ===== src/Vector/Index/Shrinking.antt =====
-- A removal keeps the index valid and takes the key, and only that, from the map.
use m3_core_rs.Base.{
  ℕ, suc, ◌-◌, ◌*◌, ◌<◌, ◌≡◌, ◌≢◌, refl, ◌∙◌, inl, inr, true, false, Option, none, some, is_some,
  ◌++◌, arith, lt→ltb, ◌==◌, ==_iff, if◌then◌else◌, Bool-cases, Option-cases, length, length-append,
  length-take, take, drop, get_elem?, set_at, length-splice, get-set_at, get-take, get-lt, lt-get,
  length-set_at, rows_apart, ℤ, int_eq, int_eq_iff,
}
use m3_core_rs.Vector.Index.Rows.{
  row_at, row_at-splice, row_at-splice_other, row_at-append, row_at-take,
}
use m3_core_rs.Vector.Index.Valid.{view_at, view, Valid, Removed}
use m3_core_rs.Vector.Index.Removal.{
  last_row, move-PosOf, drop-PosOf, dropped, refilled, shrunk, removed-dropped, removed-shrunk,
}
use m3_core_rs.Vector.Index.{VectorIndex, removed_at, remove}

module _ {S : Type 0} where
  dropped-Valid :
      (idx : VectorIndex S) (key : ℤ) (last : ℕ)
      → Valid idx
      → length idx.keys ≡ suc last
      → idx.pos_of key ≡ some last
      → Valid (dropped idx key last)
  dropped-Valid idx key last (d, c, s, p) l a =
      let k : length (take last idx.keys) ≡ last = omega (arith, length-take last idx.keys) in
      let (end, full, cut_len) = last_row idx last (d, c, s, p) l in
      (
        d,
        rw k cut_len,
        omega (arith, length-take last idx.scales, k),
        drop-PosOf idx.keys idx.pos_of key last p l a,
      )

  dropped-Removed :
      (idx : VectorIndex S) (key : ℤ) (last : ℕ)
      → Valid idx
      → length idx.keys ≡ suc last
      → idx.pos_of key ≡ some last
      → Removed key idx (dropped idx key last)
  dropped-Removed idx key last (d, c, s, p) l a j = elim (Bool-cases (int_eq key j)) [
    | inl h ↦ rw h refl
    | inr h ↦ elim (Option-cases (idx.pos_of j)) [
      | inl f ↦ rw (h, f) refl
      | inr (i, f) ↦
          let there = (p j i).0 f in
          let here = (p key last).0 a in
          let within = get-lt idx.keys i there in
          let apart : key ≢ j = λ e. ground (arith, (int_eq_iff key j).1 e) in
          let below : i < last = ground (arith, there, here, apart, within) in
          rw
            (
              h,
              f,
              get-take last i idx.scales,
              lt→ltb i last below,
              row_at-take idx.dim i last idx.codes below,
            )
            refl
    ]
  ]

  length-refilled :
      (idx : VectorIndex S) (i last : ℕ)
      → Valid idx
      → length idx.keys ≡ suc last
      → i < last
      → length (refilled idx i last) ≡ last * idx.dim
  length-refilled idx i last (d, c, s, p) l h =
      let (end, full, cut_len) = last_row idx last (d, c, s, p) l in
      let room = rows_apart i last idx.dim h in
      length-splice (i * idx.dim) (row_at idx.dim last idx.codes) (take (last * idx.dim) idx.codes)
        (omega arith)
      ∙ cut_len

  module _ (idx : VectorIndex S) (key moved : ℤ) (scale : S) (i last : ℕ) (v : Valid idx)
      (l : length idx.keys ≡ suc last) (a : idx.pos_of key ≡ some i) (h : i < last)
      (m : get_elem? idx.keys last ≡ some moved) (g : get_elem? idx.scales last ≡ some scale) where
    shrunk-Valid : Valid (shrunk idx key moved scale i last)
    shrunk-Valid =
        let (d, c, s, p) = v in
        let tail = drop (last * idx.dim) idx.codes in
        let k : length (take last (set_at i moved idx.keys)) ≡ last =
          omega
            (arith, length-take last (set_at i moved idx.keys), length-set_at i moved idx.keys) in
        (
          d,
          rw k (
              omega (
                arith,
                length-take (last * idx.dim) (refilled idx i last ++ tail),
                length-append (refilled idx i last) tail,
                length-refilled idx i last v l h,
              )),
          omega (
            arith,
            length-take last (set_at i scale idx.scales),
            length-set_at i scale idx.scales,
            k,
          ),
          move-PosOf idx.keys idx.pos_of key moved i last p l a m h,
        )

    -- A row in front of the last place.
    shrunk_row :
        (j : ℕ)
        → j < last
        → row_at idx.dim j
            (take (last * idx.dim) (refilled idx i last ++ drop (last * idx.dim) idx.codes))
          ≡ row_at idx.dim j (refilled idx i last)
    shrunk_row j b =
        row_at-take idx.dim j last (refilled idx i last ++ drop (last * idx.dim) idx.codes) b
        ∙ row_at-append idx.dim j last (refilled idx i last) (drop (last * idx.dim) idx.codes) b
            (length-refilled idx i last v l h)

    shrunk-other :
        (j : ℤ)
        → int_eq moved j ≡ false
        → view (shrunk idx key moved scale i last) j ≡ (if int_eq key j then none else view idx j)
    shrunk-other j q =
        let (d, c, s, p) = v in
        let (end, full, cut_len) = last_row idx last v l in
        let here = (p key i).0 a in
        let room = rows_apart i last idx.dim h in
        elim (Bool-cases (int_eq key j)) [
          | inl w ↦ rw (q, w) refl
          | inr w ↦ elim (Option-cases (idx.pos_of j)) [
            | inl f ↦ rw (q, w, f) refl
            | inr (k, f) ↦
                let there = (p j k).0 f in
                let within = get-lt idx.keys k there in
                let not_moved : moved ≢ j = λ e. ground (arith, (int_eq_iff moved j).1 e) in
                let not_key : key ≢ j = λ e. ground (arith, (int_eq_iff key j).1 e) in
                let below : k < last = ground (arith, there, m, not_moved, within) in
                let apart : i ≢ k = λ e. ground (arith, there, here, not_key, e) in
                let differ : (i == k) ≡ false = ground arith in
                rw
                  (
                    q,
                    w,
                    f,
                    get-take last k (set_at i scale idx.scales),
                    lt→ltb k last below,
                    get-set_at i k scale idx.scales (omega arith),
                    differ,
                    shrunk_row k below,
                  )
                  (rw
                    (
                      row_at-splice_other idx.dim i k (row_at idx.dim last idx.codes)
                          (take (last * idx.dim) idx.codes) full (omega arith) apart,
                      row_at-take idx.dim k last idx.codes below,
                    )
                    refl)
          ]
        ]

    shrunk-Removed : Removed key idx (shrunk idx key moved scale i last)
    shrunk-Removed j =
        let (d, c, s, p) = v in
        let (end, full, cut_len) = last_row idx last v l in
        let here = (p key i).0 a in
        let room = rows_apart i last idx.dim h in
        elim (Bool-cases (int_eq moved j)) [
          | inl q ↦
              let same : moved ≡ j = (int_eq_iff moved j).0 q in
              let at_j : idx.pos_of j ≡ some last = (p j last).1 (rw (← same) m) in
              let apart : int_eq key j ≡ false = ground (arith, (int_eq_iff key j).0, at_j, a) in
              rw
                (
                  q,
                  apart,
                  at_j,
                  get-take last i (set_at i scale idx.scales),
                  lt→ltb i last h,
                  get-set_at i i scale idx.scales (omega arith),
                  (==_iff i i).1 refl,
                  shrunk_row i h,
                  g,
                )
                (rw
                  (row_at-splice idx.dim i (row_at idx.dim last idx.codes)
                    (take (last * idx.dim) idx.codes) full (omega arith))
                  refl)
          | inr q ↦ shrunk-other j q
        ]

  -- The index behind a removal.
  abbrev pub RemovedFrom : ℤ → VectorIndex S → VectorIndex S → Type 0
  RemovedFrom key idx after = Valid after × (after.dim ≡ idx.dim) × Removed key idx after

  removed_at-Refines :
      (idx : VectorIndex S) (key : ℤ) (at : Option ℕ)
      → Valid idx
      → idx.pos_of key ≡ at
      → (after : VectorIndex S) × (removed_at key at idx ≡ some (after, is_some (view_at idx at)))
        × RemovedFrom key idx after
  unfolding removed_at
  removed_at-Refines idx key none v e =
      let absent : Removed key idx idx = λ j.
        let gone : int_eq key j ≡ true → idx.pos_of j ≡ none =
          λ q. let same = (int_eq_iff key j).0 q in rw (← same) e in
        elim (Bool-cases (int_eq key j)) [ inl q ↦ rw (q, gone q) refl | inr q ↦ rw q refl ] in
      (idx, refl, (v, refl, absent))
  removed_at-Refines idx key (some i) v e =
      let (d, c, s, p) = v in
      let within = get-lt idx.keys i ((p key i).0 e) in
      let last = length idx.keys - 1 in
      let l : length idx.keys ≡ suc last = omega arith in
      let (scale, g) = lt-get idx.scales last (omega arith) in
      let (moved, m) = lt-get idx.keys last (omega arith) in
      let (own, o) = lt-get idx.scales i (omega arith) in
      elim (Bool-cases (i == last)) [
        | inl q ↦
            let same : i ≡ last = (==_iff i last).0 q in
            let at_last : idx.pos_of key ≡ some last = rw (← same) e in
            (
              dropped idx key last,
              rw (o, same) (removed-dropped idx key last l (s ∙ l)),
              (
                dropped-Valid idx key last v l at_last,
                refl,
                dropped-Removed idx key last v l at_last,
              ),
            )
        | inr q ↦
            let below : i < last = ground arith in
            (
              shrunk idx key moved scale i last,
              rw o (removed-shrunk idx key moved scale i last v l below m g),
              (
                shrunk-Valid idx key moved scale i last v l e below m g,
                refl,
                shrunk-Removed idx key moved scale i last v l e below m g,
              ),
            )
      ]

  -- From a valid index a removal does not panic: it answers whether the key was there, and leaves a
  -- valid index in which that key has no row and every other key what it had.
  pub remove-Refines :
      (idx : VectorIndex S) (key : ℤ)
      → Valid idx
      → (after : VectorIndex S) × (remove key idx ≡ some (after, is_some (view idx key)))
        × RemovedFrom key idx after
  unfolding remove
  remove-Refines idx key v = removed_at-Refines idx key (idx.pos_of key) v refl
