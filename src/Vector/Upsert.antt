-- ===== src/Vector/Upsert.antt =====
-- crates/m3-vector/src/index.rs: the checks in front of an insertion, the quantisation of a vector,
-- and the insertion of many, which checks each before it stores the first.
pub mod Accepted
pub mod Stored
use m3_core_rs.Base.{
  ℕ, zero, suc, ◌+◌, ◌-◌, ◌*◌, ◌^◌, min, ◌≡◌, Bool, true, false, not, ◌&&◌, Option, none, some,
  List, [], ◌∷◌, ◌++◌, map, ltb, leb, ◌==◌, if◌then◌else◌, length, take, drop, u64_max, ℤ, pos,
  negsuc, Text, ascii,
}
use m3_core_rs.Errors.{M3Error, vector_dim_mismatch, config, Result, ok, err, decimal}
use m3_core_rs.Vector.Single.{Single}
use m3_core_rs.Vector.Index.{VectorIndex, place, ◌>>=◌}

-- `{key}` of a format string.
shown_key : ℤ → Text
unfolding decimal
shown_key (pos n) = decimal n
shown_key (negsuc n) = b'-' ∷ decimal (suc n)

-- `checked_mul`, and `Some(n) == …` of it.
unfoldable pub is_product : ℕ → ℕ → ℕ → Bool
is_product n a b = ltb (a * b) (2 ^ 64) && n == a * b

module _ (fl : Single) where
  open fl use {
    F32, zero_f, peak_code, least_code, add, mul, div, max_f, abs, sqrt, round, clamp_f, gt,
    is_finite, as_i8, shown,
  }

  -- `enumerate().find(…)` for a component that is not finite, counted from the first argument.
  unfoldable pub find_bad : ℕ → List F32 → Option (ℕ × F32)
  find_bad i [] = none
  find_bad i (x ∷ xs) = let rest = find_bad (suc i) xs in if is_finite x then rest else some (i, x)

  component_error : ℤ → ℕ → Option (ℕ × F32) → Result (Unit {0})
  unfolding shown_key decimal
  component_error key dim none = ok tt
  component_error key dim (some (i, x)) = err (
      config (
        ascii "vector for key "
        ++ shown_key key
        ++ ascii " has a non-finite component "
        ++ shown x
        ++ ascii " at index "
        ++ decimal i
        ++ ascii " (dim "
        ++ decimal dim
        ++ ascii "); the stored embedding is corrupt and must be re-embedded"))

  unfoldable pub check : VectorIndex F32 → ℤ → List F32 → Result (Unit {0})
  unfolding component_error find_bad
  check idx key vec =
      if not (length vec == idx.dim)
      then err (vector_dim_mismatch idx.dim (length vec) none)
      else component_error key idx.dim (find_bad 0 vec)

  -- `sum` and `fold`, from the left.
  unfoldable pub fold : (F32 → F32 → F32) → F32 → List F32 → F32
  fold f a [] = a
  fold f a (x ∷ xs) = fold f (f a x) xs

  unfoldable pub norm_of : List F32 → F32
  unfolding fold
  norm_of vec = sqrt (fold add zero_f (map (λ x. mul x x) vec))

  peak_of : List F32 → F32
  unfolding fold
  peak_of vec = fold (λ m x. max_f m (abs x)) zero_f vec

  -- The scale, and the factor of the codes.
  scale_of : List F32 → F32 × F32
  unfolding norm_of peak_of
  scale_of vec =
      if gt (norm_of vec) zero_f && gt (peak_of vec) zero_f
      then (div (div (peak_of vec) (norm_of vec)) peak_code, div peak_code (peak_of vec))
      else (zero_f, zero_f)

  unfoldable pub code : F32 → F32 → ℤ
  code inv x = as_i8 (clamp_f (round (mul x inv)) least_code peak_code)

  -- The row of codes and the scale of a vector.
  unfoldable pub quantised : List F32 → List ℤ × F32
  unfolding scale_of code
  quantised vec = (map (code (scale_of vec).1) vec, (scale_of vec).0)

  unfoldable pub store : ℤ → List F32 → VectorIndex F32 → Option (VectorIndex F32)
  unfolding place quantised
  store key vec idx = place key (quantised vec).0 (quantised vec).1 (idx.pos_of key) idx

  stored :
      Result (Unit {0})
      → VectorIndex F32
      → Option (VectorIndex F32)
      → Option (VectorIndex F32 × Result (Unit {0}))
  stored (err e) idx after = some (idx, err e)
  stored (ok u) idx none = none
  stored (ok u) idx (some after) = some (after, ok tt)

  unfoldable pub upsert :
      ℤ → List F32 → VectorIndex F32 → Option (VectorIndex F32 × Result (Unit {0}))
  unfolding check store stored
  upsert key vec idx = stored (check idx key vec) idx (store key vec idx)

  -- `chunks_exact` of a length that is not 0, on fuel for one row each.
  unfoldable pub chunks_exact : ℕ → ℕ → List F32 → List (List F32)
  chunks_exact zero n flat = []
  chunks_exact (suc f) n flat =
      let rest = chunks_exact f n (drop n flat) in
      if ltb (length flat) n then [] else take n flat ∷ rest

  -- `zip`.
  unfoldable pub zip : List ℤ → List (List F32) → List (ℤ × List F32)
  zip [] rows = []
  zip (key ∷ keys) [] = []
  zip (key ∷ keys) (row ∷ rows) = (key, row) ∷ zip keys rows

  after_check : Result (Unit {0}) → Result (Unit {0}) → Result (Unit {0})
  after_check (err e) rest = err e
  after_check (ok u) rest = rest

  unfoldable pub check_all : VectorIndex F32 → List (ℤ × List F32) → Result (Unit {0})
  unfolding check after_check
  check_all idx [] = ok tt
  check_all idx ((key, row) ∷ rows) = after_check (check idx key row) (check_all idx rows)

  unfoldable pub store_all : List (ℤ × List F32) → VectorIndex F32 → Option (VectorIndex F32)
  unfolding store
  store_all [] idx = some idx
  store_all ((key, row) ∷ rows) idx = store key row idx >>= store_all rows

  -- `chunks_exact(0)` panics.
  unfoldable pub rows_of : ℕ → List ℤ → List F32 → Option (List (ℤ × List F32))
  unfolding chunks_exact zip
  rows_of zero keys flat = none
  rows_of (suc n) keys flat = some (zip keys (chunks_exact (suc (length flat)) (suc n) flat))

  length_error : ℕ → ℕ → ℕ → M3Error
  unfolding decimal
  length_error n keys dim = config (
      decimal n
      ++ ascii " floats for "
      ++ decimal keys
      ++ ascii " keys of dimension "
      ++ decimal dim
      ++ ascii "; expected "
      ++ decimal (min (keys * dim) u64_max))

  unfoldable pub upsert_rows :
      List (ℤ × List F32) → VectorIndex F32 → Option (VectorIndex F32 × Result (Unit {0}))
  unfolding check_all store_all stored
  upsert_rows rows idx = stored (check_all idx rows) idx (store_all rows idx)

  unfoldable pub upsert_many :
      List ℤ → List F32 → VectorIndex F32 → Option (VectorIndex F32 × Result (Unit {0}))
  unfolding is_product rows_of upsert_rows length_error
  upsert_many keys flat idx =
      if not (is_product (length flat) (length keys) idx.dim)
      then some (idx, err (length_error (length flat) (length keys) idx.dim))
      else (rows_of idx.dim keys flat >>= λ rows. upsert_rows rows idx)
