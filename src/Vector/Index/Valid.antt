-- ===== src/Vector/Index/Valid.antt =====
-- The index as a map from keys to rows, and the invariant that ties the map of positions to the
-- lists.
use m3_core_rs.Base.{
  ℕ, ◌*◌, ◌<◌, ◌≡◌, ◌↔◌, Option, none, some, List, if◌then◌else◌, length, get_elem?, ℤ, int_eq,
}
use m3_core_rs.Vector.Index.Rows.{row_at}
use m3_core_rs.Vector.Index.{VectorIndex}

abbrev pub PosOf : List ℤ → (ℤ → Option ℕ) → Type 0
PosOf keys at = (k : ℤ) (i : ℕ) → (at k ≡ some i) ↔ (get_elem? keys i ≡ some k)

module _ {S : Type 0} where
  abbrev with_row : List ℤ → Option S → Option (List ℤ × S)
  with_row row none = none
  with_row row (some scale) = some (row, scale)

  abbrev pub view_at : VectorIndex S → Option ℕ → Option (List ℤ × S)
  view_at idx none = none
  view_at idx (some i) = with_row (row_at idx.dim i idx.codes) (get_elem? idx.scales i)

  -- The row and the scale that the index holds for a key.
  abbrev pub view : VectorIndex S → ℤ → Option (List ℤ × S)
  view idx key = view_at idx (idx.pos_of key)

  abbrev pub Valid : VectorIndex S → Type 0
  Valid idx =
      (0 < idx.dim)
      × (length idx.codes ≡ length idx.keys * idx.dim)
      × (length idx.scales ≡ length idx.keys)
      × PosOf idx.keys idx.pos_of

  -- The map behind an insertion.
  abbrev pub Updated : ℤ → List ℤ × S → VectorIndex S → VectorIndex S → Type 0
  Updated key entry idx after =
      (j : ℤ) → view after j ≡ (if int_eq key j then some entry else view idx j)

  -- The map behind a removal.
  abbrev pub Removed : ℤ → VectorIndex S → VectorIndex S → Type 0
  Removed key idx after = (j : ℤ) → view after j ≡ (if int_eq key j then none else view idx j)
