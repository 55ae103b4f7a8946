-- ===== src/Vector/Index.antt =====
-- crates/m3-vector/src/index.rs: the vectors by key, as one row of codes and a scale for each, and
-- their insertion and removal. The codes of all rows are one list; `none` is a panic.
pub mod Rows
pub mod Valid
pub mod Insertion
pub mod Removal
pub mod Shrinking
use m3_core_rs.Base.{
  ℕ, zero, suc, ◌+◌, ◌-◌, ◌*◌, ◌^◌, ◌≡◌, Bool, true, false, not, ◌&&◌, Option, none, some, is_some,
  List, [], ◌∷◌, ◌++◌, map, ltb, leb, ◌==◌, if◌then◌else◌, length, take, drop, is_empty, get_elem?,
  put, slice, write, u64_max, min, ℤ, pos, negsuc, int_eq, Text, ascii,
}
use m3_core_rs.Errors.{M3Error, vector_dim_mismatch, config, Result, ok, err, decimal}
use m3_core_rs.Vector.Single.{Single}

module _ {ℓ κ} {A : Type ℓ} {B : Type κ} where
  infixl 5 ◌>>=◌
  abbrev pub ◌>>=◌ : Option A → (A → Option B) → Option B
  none >>= f = none
  some a >>= f = f a

-- The scales are of a type S.
pub record VectorIndex (S : Type 0) : Type 0 where
  pub dim : ℕ
  pub keys : List ℤ
  pub codes : List ℤ
  pub scales : List S
  pub pos_of : ℤ → Option ℕ

abbrev pub insert_pos : ℤ → ℕ → (ℤ → Option ℕ) → ℤ → Option ℕ
insert_pos key i at j = if int_eq key j then some i else at j

abbrev pub remove_pos : ℤ → (ℤ → Option ℕ) → ℤ → Option ℕ
remove_pos key at j = if int_eq key j then none else at j

-- `resize` with zeros to a longer length.
abbrev pub zeros : ℕ → List ℤ
zeros zero = []
zeros (suc n) = pos 0 ∷ zeros n

-- `len() - 1`, which panics for an empty list.
abbrev pub last_of : ℕ → Option ℕ
last_of zero = none
last_of (suc n) = some n

module _ {S : Type 0} where
  abbrev pub new_index : ℕ → VectorIndex S
  new_index dim = record { dim = dim; keys = []; codes = []; scales = []; pos_of = λ key. none }

  unfoldable pub new : ℕ → Result (VectorIndex S)
  new dim =
      if dim == 0 then err (config (ascii "index dimension must be > 0")) else ok (new_index dim)

  unfoldable pub len : VectorIndex S → ℕ
  len idx = length idx.keys

  unfoldable pub bytes : VectorIndex S → ℕ
  bytes idx = length idx.codes + length idx.scales * 4

  unfoldable pub contains : ℤ → VectorIndex S → Bool
  contains key idx = is_some (idx.pos_of key)

  -- The end of `store`: the row and the scale go to the key's place, or behind the last one.
  unfoldable pub place : ℤ → List ℤ → S → Option ℕ → VectorIndex S → Option (VectorIndex S)
  place key row scale (some i) idx = do
    codes ← write (i * idx.dim) idx.dim row idx.codes
    scales ← put i scale idx.scales
    some (record idx { codes = codes; scales = scales })
  place key row scale none idx = do
    let i = length idx.keys
    let longer = idx.codes ++ zeros idx.dim
    codes ← write (i * idx.dim) (length longer - i * idx.dim) row longer
    some (record idx {
      keys = idx.keys ++ key ∷ [];
      codes = codes;
      scales = idx.scales ++ scale ∷ [];
      pos_of = insert_pos key i idx.pos_of;
    })

  -- The last row moves to place i.
  unfoldable pub move_last : ℕ → ℕ → VectorIndex S → Option (VectorIndex S)
  move_last i last idx = do
    moved ← get_elem? idx.keys last
    keys ← put i moved idx.keys
    scale ← get_elem? idx.scales last
    scales ← put i scale idx.scales
    row ← slice (last * idx.dim) idx.dim idx.codes
    head ← write (i * idx.dim) idx.dim row (take (last * idx.dim) idx.codes)
    some (record idx {
      keys = keys;
      codes = head ++ drop (last * idx.dim) idx.codes;
      scales = scales;
      pos_of = insert_pos moved i idx.pos_of;
    })

  -- `pop` of both lists and `truncate`.
  unfoldable pub cut : ℕ → VectorIndex S → VectorIndex S
  cut last idx = record idx {
    keys = take (length idx.keys - 1) idx.keys;
    codes = take (last * idx.dim) idx.codes;
    scales = take (length idx.scales - 1) idx.scales;
  }

  unfoldable pub removed_at : ℤ → Option ℕ → VectorIndex S → Option (VectorIndex S × Bool)
  unfolding move_last cut
  removed_at key none idx = some (idx, false)
  removed_at key (some i) idx = do
    last ← last_of (length idx.keys)
    let rest = record idx { pos_of = remove_pos key idx.pos_of }
    moved ← if i == last then some rest else move_last i last rest
    some (cut last moved, true)

  unfoldable pub remove : ℤ → VectorIndex S → Option (VectorIndex S × Bool)
  unfolding removed_at
  remove key idx = removed_at key (idx.pos_of key) idx
