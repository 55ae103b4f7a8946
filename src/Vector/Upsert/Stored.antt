-- ===== src/Vector/Upsert/Stored.antt =====
-- What the insertion of many does to the map of the index: all of it or nothing.
use m3_core_rs.Base.{
  ℕ, zero, suc, ◌*◌, ◌^◌, ◌≤◌, ◌<◌, ◌≡◌, refl, ◌∙◌, ◌↔◌, ◌⊎◌, inl, inr, true, Option, some, List,
  [], ◌∷◌, arith, if◌then◌else◌, Bool-cases, length, length-map, all, All, ℤ, int_eq,
}
use m3_core_rs.Errors.{Result, ok, err}
use m3_core_rs.Vector.Single.{Single}
use m3_core_rs.Vector.Index.{VectorIndex}
use m3_core_rs.Vector.Index.Valid.{view, Valid, Updated}
use m3_core_rs.Vector.Index.Insertion.{place-Refines}
use m3_core_rs.Vector.Upsert.{
  code, scale_of, quantised, store, store_all, check, check_all, stored, upsert, zip, chunks_exact,
  is_product, rows_of, length_error, upsert_rows, upsert_many,
}
use m3_core_rs.Vector.Upsert.Accepted.{
  Fits, FitsRow, check_iff, check_all_iff, zip_iff, is_product_iff,
}

module _ (fl : Single) where
  open fl use {F32, is_finite}

  length-quantised : (vec : List F32) → length (quantised fl vec).0 ≡ length vec
  unfolding quantised
  length-quantised vec = length-map vec (code fl (scale_of fl vec).1)

  -- The entry of a key behind the rows in their order: the last row of the key counts.
  abbrev pub latest : List (ℤ × List F32) → ℤ → Option (List ℤ × F32) → Option (List ℤ × F32)
  latest [] j old = old
  latest ((key, row) ∷ rows) j old =
      latest rows j (if int_eq key j then some (quantised fl row) else old)

  abbrev pub StoredIn : List (ℤ × List F32) → VectorIndex F32 → VectorIndex F32 → Type 0
  StoredIn rows idx after =
      Valid after × (after.dim ≡ idx.dim) × ((j : ℤ) → view after j ≡ latest rows j (view idx j))

  store-Refines :
      (idx : VectorIndex F32) (key : ℤ) (row : List F32)
      → Valid idx
      → length row ≡ idx.dim
      → (after : VectorIndex F32) × (store fl key row idx ≡ some after)
        × Valid after
        × (after.dim ≡ idx.dim)
        × Updated key (quantised fl row) idx after
  unfolding store
  store-Refines idx key row v l =
      place-Refines idx key (quantised fl row).0 (quantised fl row).1 (idx.pos_of key) v
        (length-quantised row ∙ l) refl

  abbrev pub UpsertedOr :
      ℤ → List F32 → VectorIndex F32 → VectorIndex F32 → Result (Unit {0}) → Type 0
  UpsertedOr key vec idx after r =
      ((r ≡ ok tt) × Valid after × (after.dim ≡ idx.dim) × Updated key (quantised fl vec) idx after)
      ⊎ (((r ≡ ok tt) → ⊥) × (after ≡ idx))

  checked-Refines :
      (idx : VectorIndex F32) (key : ℤ) (vec : List F32) (c : Result (Unit {0}))
      → Valid idx
      → check fl idx key vec ≡ c
      → (after : VectorIndex F32) × (stored fl c idx (store fl key vec idx) ≡ some (after, c))
        × UpsertedOr key vec idx after c
  unfolding stored
  checked-Refines idx key vec (ok u) v e =
      let (l, f) = (check_iff fl idx key vec).0 e in
      let (after, g, w, d, u') = store-Refines idx key vec v l in
      (after, rw g refl, inl (refl, w, d, u'))
  checked-Refines idx key vec (err x) v e = (idx, refl, inr (λ f. cc, refl))

  pub upsert-Refines :
      (idx : VectorIndex F32) (key : ℤ) (vec : List F32)
      → Valid idx
      → (after : VectorIndex F32) × (r : Result (Unit {0})) × (upsert fl key vec idx
          ≡ some (after, r))
        × ((r ≡ ok tt) ↔ Fits fl idx.dim vec)
        × UpsertedOr key vec idx after r
  unfolding upsert
  upsert-Refines idx key vec v =
      let (after, e, o) = checked-Refines idx key vec (check fl idx key vec) v refl in
      (after, check fl idx key vec, e, check_iff fl idx key vec, o)

  store_all-Refines :
      (rows : List (ℤ × List F32)) (idx : VectorIndex F32)
      → Valid idx
      → All (FitsRow fl idx.dim) rows
      → (after : VectorIndex F32) × (store_all fl rows idx ≡ some after) × StoredIn rows idx after
  unfolding store_all
  store_all-Refines [] idx v a = (idx, refl, (v, refl, λ j. refl))
  store_all-Refines ((key, row) ∷ rows) idx v ((l, f), a) =
      let (next, e, w, d, u) = store-Refines idx key row v l in
      let (after, g, (x, d', y)) = store_all-Refines rows next w (rw d a) in
      (after, rw e g, (x, d' ∙ d, λ j. rw (← u j) (y j)))

  -- The rows are stored if the answer is ok, and otherwise the index is as before.
  abbrev pub AllOrNothing :
      List (ℤ × List F32) → VectorIndex F32 → VectorIndex F32 → Result (Unit {0}) → Type 0
  AllOrNothing rows idx after r =
      ((r ≡ ok tt) × StoredIn rows idx after) ⊎ (((r ≡ ok tt) → ⊥) × (after ≡ idx))

  stored-Refines :
      (rows : List (ℤ × List F32)) (idx : VectorIndex F32) (c : Result (Unit {0}))
      → Valid idx
      → check_all fl idx rows ≡ c
      → (after : VectorIndex F32) × (stored fl c idx (store_all fl rows idx) ≡ some (after, c))
        × AllOrNothing rows idx after c
  unfolding stored
  stored-Refines rows idx (ok u) v e =
      let (after, f, s) = store_all-Refines rows idx v ((check_all_iff fl idx rows).0 e) in
      (after, rw f refl, inl (refl, s))
  stored-Refines rows idx (err x) v e = (idx, refl, inr (λ f. cc, refl))

  rows_of-some :
      (dim : ℕ) (keys : List ℤ) (flat : List F32)
      → 0 < dim
      → rows_of fl dim keys flat ≡ some (zip fl keys (chunks_exact fl (suc (length flat)) dim flat))
  unfolding rows_of
  rows_of-some zero keys flat h = absurd (omega arith)
  rows_of-some (suc n) keys flat h = refl

  many : (k n : ℕ) → 0 < n → k ≤ k * n
  many k zero h = absurd (omega arith)
  many k (suc n) h = grind arith

  -- The rows of the call.
  abbrev pub given : ℕ → List ℤ → List F32 → List (ℤ × List F32)
  given dim keys flat = zip fl keys (chunks_exact fl (suc (length flat)) dim flat)

  abbrev pub Wellformed : ℕ → List ℤ → List F32 → Type 0
  Wellformed dim keys flat =
      (length flat ≡ length keys * dim) × (length flat < 2 ^ 64) × (all is_finite flat ≡ true)

  -- From a valid index `upsert_many` does not panic. It accepts exactly as many floats as the keys
  -- take, fewer than 2^64, all of them finite. It then leaves a valid index in which each key of the
  -- call has the codes and the scale of its last row and every other key what it had; a call that it
  -- refuses leaves the index as it was.
  pub upsert_many-Refines :
      (idx : VectorIndex F32) (keys : List ℤ) (flat : List F32)
      → Valid idx
      → (after : VectorIndex F32) × (r : Result (Unit {0})) × (upsert_many fl keys flat idx
          ≡ some (after, r))
        × ((r ≡ ok tt) ↔ Wellformed idx.dim keys flat)
        × AllOrNothing (given idx.dim keys flat) idx after r
  unfolding upsert_many upsert_rows
  upsert_many-Refines idx keys flat v =
      let (d, c, s, p) = v in
      let (up, down) = is_product_iff fl (length flat) (length keys) idx.dim in
      elim (Bool-cases (is_product (length flat) (length keys) idx.dim)) [
        | inl e ↦
            let (l, b) = up e in
            let few : length keys < suc (length flat) =
              omega (arith, many (length keys) idx.dim d) in
            let rows = given idx.dim keys flat in
            let (after, f, g) = stored-Refines rows idx (check_all fl idx rows) v refl in
            let (to, from) = check_all_iff fl idx rows in
            let (finite, back) = zip_iff fl idx.dim keys (suc (length flat)) flat d few l in
            (
              after,
              check_all fl idx rows,
              rw (e, rows_of-some idx.dim keys flat d) f,
              (λ o. (l, b, finite (to o)), λ (_, _, h). from (back h)),
              g,
            )
        | inr e ↦ (
          idx,
          err (length_error fl (length flat) (length keys) idx.dim),
          rw e refl,
          (λ o. cc, λ (l, b, h). absurd (ground (arith, down (l, b)))),
          inr (λ o. cc, refl),
        )
      ]
