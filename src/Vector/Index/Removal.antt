-- ===== src/Vector/Index/Removal.antt =====
-- What a removal does to the map: the last row moves to the place of the one that goes.
use m3_core_rs.Base.{
  ℕ, suc, ◌+◌, ◌-◌, ◌*◌, ◌≤◌, ◌<◌, ◌≡◌, ◌≢◌, refl, inl, inr, true, false, Option, some, List, ◌++◌,
  arith, lt→ltb, ◌==◌, ==_iff, Bool-cases, length, length-take, length-drop, take, drop, get_elem?,
  set_at, splice, write-splice, put-set_at, slice-take, get-set_at, get-take, get-lt, length-set_at,
  rows_apart, ℤ, int_eq, int_eq_iff,
}
use m3_core_rs.Vector.Index.Rows.{row_at}
use m3_core_rs.Vector.Index.Valid.{PosOf, Valid}
use m3_core_rs.Vector.Index.{VectorIndex, insert_pos, remove_pos, move_last, cut, removed_at}

-- The positions when the last key moves to place i, or when it is the one that goes.
pub move-PosOf :
    (keys : List ℤ) (at : ℤ → Option ℕ) (key moved : ℤ) (i last : ℕ)
    → PosOf keys at
    → length keys ≡ suc last
    → at key ≡ some i
    → get_elem? keys last ≡ some moved
    → i < last
    → PosOf (take last (set_at i moved keys)) (insert_pos moved i (remove_pos key at))
move-PosOf keys at key moved i last p l a m h k j =
    rw (get-take last j (set_at i moved keys), get-set_at i j moved keys (omega arith))
      (let (up, down) = p k j in
        let there = (p key i).0 a in
        elim (Bool-cases (int_eq moved k)) [
          | inl g ↦
              let same : moved ≡ k = (int_eq_iff moved k).0 g in
              let at_k : at k ≡ some last = (p k last).1 (rw (← same) m) in
              rw g (λ f. ground (arith, same), λ f. ground (arith, at_k, down))
          | inr g ↦
              let other : moved ≢ k = λ e. ground (arith, (int_eq_iff moved k).1 e) in
              elim (Bool-cases (int_eq key k)) [
                | inl q ↦
                    let same : key ≡ k = (int_eq_iff key k).0 q in
                    let at_k : at k ≡ some i = rw (← same) a in
                    rw (g, q) (λ f. cc, λ f. absurd (ground (arith, at_k, down, other)))
                | inr q ↦
                    let apart : key ≢ k = λ e. ground (arith, (int_eq_iff key k).1 e) in
                    rw (g, q)
                      (
                        λ f. ground (arith, up f, get-lt keys j (up f), there, apart, other, m),
                        λ f. ground (arith, down, other),
                      )
              ]
        ])

pub drop-PosOf :
    (keys : List ℤ) (at : ℤ → Option ℕ) (key : ℤ) (last : ℕ)
    → PosOf keys at
    → length keys ≡ suc last
    → at key ≡ some last
    → PosOf (take last keys) (remove_pos key at)
drop-PosOf keys at key last p l a k j = rw (get-take last j keys) (
    let (up, down) = p k j in
    let there = (p key last).0 a in
    elim (Bool-cases (int_eq key k)) [
      | inl h ↦
          let same : key ≡ k = (int_eq_iff key k).0 h in
          let at_k : at k ≡ some last = rw (← same) a in
          rw h (λ f. cc, λ f. absurd (ground (arith, at_k, down)))
      | inr h ↦
          let apart : key ≢ k = λ e. ground (arith, (int_eq_iff key k).1 e) in
          rw h (
            λ f. ground (arith, up f, get-lt keys j (up f), there, apart),
            λ f. ground (arith, down),
          )
    ])

module _ {S : Type 0} where
  -- The index without its last row.
  abbrev pub dropped : VectorIndex S → ℤ → ℕ → VectorIndex S
  dropped idx key last = record {
    dim = idx.dim;
    keys = take last idx.keys;
    codes = take (last * idx.dim) idx.codes;
    scales = take last idx.scales;
    pos_of = remove_pos key idx.pos_of;
  }

  -- The codes with the last row in place i.
  abbrev pub refilled : VectorIndex S → ℕ → ℕ → List ℤ
  refilled idx i last =
      splice (i * idx.dim) (row_at idx.dim last idx.codes) (take (last * idx.dim) idx.codes)

  abbrev pub shrunk : VectorIndex S → ℤ → ℤ → S → ℕ → ℕ → VectorIndex S
  shrunk idx key moved scale i last = record {
    dim = idx.dim;
    keys = take last (set_at i moved idx.keys);
    codes = take (last * idx.dim) (refilled idx i last ++ drop (last * idx.dim) idx.codes);
    scales = take last (set_at i scale idx.scales);
    pos_of = insert_pos moved i (remove_pos key idx.pos_of);
  }

  -- The last row is within the codes.
  pub last_row :
      (idx : VectorIndex S) (last : ℕ)
      → Valid idx
      → length idx.keys ≡ suc last
      → (last * idx.dim + idx.dim ≤ length idx.codes)
        × (length (row_at idx.dim last idx.codes) ≡ idx.dim)
        × (length (take (last * idx.dim) idx.codes) ≡ last * idx.dim)
  last_row idx last (d, c, s, p) l =
      let all_rows = rows_apart last (suc last) idx.dim (omega arith) in
      let area : length idx.codes ≡ suc last * idx.dim = rw (← l) c in
      (
        omega arith,
        omega (
          arith,
          length-take idx.dim (drop (last * idx.dim) idx.codes),
          length-drop (last * idx.dim) idx.codes,
        ),
        omega (arith, length-take (last * idx.dim) idx.codes),
      )

  pub removed-dropped :
      (idx : VectorIndex S) (key : ℤ) (last : ℕ)
      → length idx.keys ≡ suc last
      → length idx.scales ≡ suc last
      → removed_at key (some last) idx ≡ some (dropped idx key last, true)
  unfolding removed_at cut
  removed-dropped idx key last l s =
      let one : suc last - 1 ≡ last = omega arith in
      rw (l, (==_iff last last).1 refl) (rw (s, l, one) refl)

  pub removed-shrunk :
      (idx : VectorIndex S) (key moved : ℤ) (scale : S) (i last : ℕ)
      → Valid idx
      → length idx.keys ≡ suc last
      → i < last
      → get_elem? idx.keys last ≡ some moved
      → get_elem? idx.scales last ≡ some scale
      → removed_at key (some i) idx ≡ some (shrunk idx key moved scale i last, true)
  unfolding removed_at cut move_last
  removed-shrunk idx key moved scale i last (d, c, s, p) l h m g =
      let one : suc last - 1 ≡ last = omega arith in
      let apart : (i == last) ≡ false = ground arith in
      let room = rows_apart i last idx.dim h in
      let (end, full, cut_len) = last_row idx last (d, c, s, p) l in
      let before : i * idx.dim + idx.dim ≤ length (take (last * idx.dim) idx.codes) = omega arith in
      rw (l, apart, m, lt→ltb i (suc last) (omega arith), g)
        (rw
          (
            put-set_at i scale idx.scales (omega arith),
            slice-take (last * idx.dim) idx.dim idx.codes end,
            write-splice (i * idx.dim) idx.dim (row_at idx.dim last idx.codes)
                (take (last * idx.dim) idx.codes) before full,
            length-set_at i moved idx.keys,
            length-set_at i scale idx.scales,
            s,
            l,
            one,
          )
          refl)
