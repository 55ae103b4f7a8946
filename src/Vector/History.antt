-- ===== src/Vector/History.antt =====
-- The index over its life: any sequence of insertions and removals from a new one.
use m3_core_rs.Base.{
  ℕ, ◌*◌, ◌^◌, ◌<◌, ◌≡◌, refl, ap, ◌∙◌, ◌↔◌, inl, inr, Bool, true, false, ◌&&◌, Option, none, some,
  List, [], ◌∷◌, arith, ltb, ◌==◌, if◌then◌else◌, Bool-cases, length, all, ℤ, int_eq,
}
use m3_core_rs.Errors.{Result, ok}
use m3_core_rs.Vector.Single.{Single}
use m3_core_rs.Vector.Index.{VectorIndex, new, new_index, remove, ◌>>=◌}
use m3_core_rs.Vector.Index.Valid.{view, Valid, PosOf}
use m3_core_rs.Vector.Index.Shrinking.{remove-Refines}
use m3_core_rs.Vector.Upsert.{quantised, upsert, upsert_many}
use m3_core_rs.Vector.Upsert.Accepted.{Fits}
use m3_core_rs.Vector.Upsert.Stored.{
  latest, AllOrNothing, Wellformed, given, UpsertedOr, upsert-Refines, upsert_many-Refines,
}

module _ (fl : Single) where
  open fl use {F32, is_finite}

  pub data Op : Type 0 where
    upserts : ℤ → List F32 → Op
    upserts_many : List ℤ → List F32 → Op
    removes : ℤ → Op

  first {ℓ} : {A : Type ℓ} → Option (VectorIndex F32 × A) → Option (VectorIndex F32)
  first none = none
  first (some (idx, a)) = some idx

  unfoldable pub step : Op → VectorIndex F32 → Option (VectorIndex F32)
  unfolding first upsert upsert_many remove
  step (upserts key vec) idx = first (upsert fl key vec idx)
  step (upserts_many keys flat) idx = first (upsert_many fl keys flat idx)
  step (removes key) idx = first (remove key idx)

  unfoldable pub run : List Op → VectorIndex F32 → Option (VectorIndex F32)
  unfolding step
  run [] idx = some idx
  run (op ∷ ops) idx = step op idx >>= run ops

  -- The promise: a map from keys to the code rows and scales, of which an insertion that fits
  -- replaces entries and a removal takes one.
  abbrev pub Entries : Type 0
  Entries = ℤ → Option (List ℤ × F32)

  abbrev pub fits : ℕ → List F32 → Bool
  fits n flat = length flat == n && all is_finite flat

  abbrev pub promised : ℕ → Op → Entries → Entries
  promised dim (upserts key vec) m j =
      if fits dim vec then (if int_eq key j then some (quantised fl vec) else m j) else m j
  promised dim (upserts_many keys flat) m j =
      if fits (length keys * dim) flat && ltb (length flat) (2 ^ 64)
      then latest fl (given fl dim keys flat) j (m j)
      else m j
  promised dim (removes key) m j = if int_eq key j then none else m j

  abbrev pub all_promised : ℕ → List Op → Entries → Entries
  all_promised dim [] m = m
  all_promised dim (op ∷ ops) m = all_promised dim ops (promised dim op m)

  abbrev pub Kept : ℕ → Entries → VectorIndex F32 → Type 0
  Kept dim m idx = Valid idx × (idx.dim ≡ dim) × ((j : ℤ) → view idx j ≡ m j)

  fits_iff :
      (n : ℕ) (flat : List F32)
      → (fits n flat ≡ true) ↔ ((length flat ≡ n) × (all is_finite flat ≡ true))
  fits_iff n flat = ground arith

  upserted-Kept :
      (key : ℤ) (vec : List F32) (idx after : VectorIndex F32) (m : Entries) (r : Result (Unit {0}))
      → Kept idx.dim m idx
      → (r ≡ ok tt) ↔ Fits fl idx.dim vec
      → UpsertedOr fl key vec idx after r
      → Kept idx.dim (promised idx.dim (upserts key vec) m) after
  upserted-Kept key vec idx after m r (v, d, u) c (inl (o, w, d', f)) =
      let ok_fits = (fits_iff idx.dim vec).1 (c.0 o) in
      (
        w,
        d',
        λ j. rw ok_fits (f j ∙ ap (λ e. if int_eq key j then some (quantised fl vec) else e) (u j)),
      )
  upserted-Kept key vec idx after m r (v, d, u) c (inr (o, same)) =
      let misfit : fits idx.dim vec ≡ false = elim (Bool-cases (fits idx.dim vec)) [
        | inl e ↦ absurd (o (c.1 ((fits_iff idx.dim vec).0 e)))
        | inr e ↦ e
      ] in
      rw same (v, d, λ j. rw misfit (u j))

  latest-eq :
      (rows : List (ℤ × List F32)) (j : ℤ) {a b : Option (List ℤ × F32)}
      → a ≡ b
      → latest fl rows j a ≡ latest fl rows j b
  latest-eq rows j e = ap (latest fl rows j) e

  many_iff :
      (dim : ℕ) (keys : List ℤ) (flat : List F32)
      → ((fits (length keys * dim) flat && ltb (length flat) (2 ^ 64)) ≡ true)
        ↔ Wellformed fl dim keys flat
  many_iff dim keys flat = ground arith

  many-Kept :
      (keys : List ℤ) (flat : List F32) (idx after : VectorIndex F32) (m : Entries)
      (r : Result (Unit {0}))
      → Kept idx.dim m idx
      → (r ≡ ok tt) ↔ Wellformed fl idx.dim keys flat
      → AllOrNothing fl (given fl idx.dim keys flat) idx after r
      → Kept idx.dim (promised idx.dim (upserts_many keys flat) m) after
  many-Kept keys flat idx after m r (v, d, u) c (inl (o, (w, d', f))) =
      let accepted = (many_iff idx.dim keys flat).1 (c.0 o) in
      (w, d', λ j. rw accepted (f j ∙ latest-eq (given fl idx.dim keys flat) j (u j)))
  many-Kept keys flat idx after m r (v, d, u) c (inr (o, same)) =
      let t = fits (length keys * idx.dim) flat && ltb (length flat) (2 ^ 64) in
      let misfit : t ≡ false = elim (Bool-cases t) [
        | inl e ↦ absurd (o (c.1 ((many_iff idx.dim keys flat).0 e)))
        | inr e ↦ e
      ] in
      rw same (v, d, λ j. rw misfit (u j))

  step-Kept :
      (op : Op) (idx : VectorIndex F32) (m : Entries)
      → Kept idx.dim m idx
      → (after : VectorIndex F32) × (step op idx ≡ some after)
        × Kept idx.dim (promised idx.dim op m) after
  unfolding step first
  step-Kept (upserts key vec) idx m (v, d, u) =
      let (after, r, e, c, o) = upsert-Refines fl idx key vec v in
      (after, rw e refl, upserted-Kept key vec idx after m r (v, d, u) c o)
  step-Kept (upserts_many keys flat) idx m (v, d, u) =
      let (after, r, e, c, o) = upsert_many-Refines fl idx keys flat v in
      (after, rw e refl, many-Kept keys flat idx after m r (v, d, u) c o)
  step-Kept (removes key) idx m (v, d, u) =
      let (after, e, (w, d', r)) = remove-Refines idx key v in
      (after, rw e refl, (w, d', λ j. r j ∙ ap (λ o. if int_eq key j then none else o) (u j)))

  step_on :
      (op : Op) (dim : ℕ) (idx : VectorIndex F32) (m : Entries)
      → Kept dim m idx
      → (after : VectorIndex F32) × (step op idx ≡ some after) × Kept dim (promised dim op m) after
  step_on op dim idx m (v, d, u) = rw (← d) (step-Kept op idx m (v, refl, u))

  run-Kept :
      (ops : List Op) (dim : ℕ) (idx : VectorIndex F32) (m : Entries)
      → Kept dim m idx
      → (after : VectorIndex F32) × (run ops idx ≡ some after)
        × Kept dim (all_promised dim ops m) after
  unfolding run
  run-Kept [] dim idx m k = (idx, refl, k)
  run-Kept (op ∷ ops) dim idx m k =
      let (next, e, k') = step_on op dim idx m k in
      let (after, f, k'') = run-Kept ops dim next (promised dim op m) k' in (after, rw e f, k'')

  -- Whatever is called on a new index of a dimension that is not 0, no call panics, and afterwards the
  -- index is valid and holds what the calls promise: for each key the codes and the scale of the last
  -- vector that was inserted for it, unless it was removed since. A call with a vector that does not
  -- fit changes nothing.
  pub run-new-Kept :
      (dim : ℕ) (ops : List Op)
      → 0 < dim
      → (idx : VectorIndex F32) × (after : VectorIndex F32) × (new dim ≡ ok idx)
        × (run ops idx ≡ some after)
        × Kept dim (all_promised dim ops (λ j. none)) after
  unfolding new
  run-new-Kept dim ops h =
      let fresh : VectorIndex F32 = new_index dim in
      let nonzero : (dim == 0) ≡ false = ground arith in
      let empty_pos : PosOf [] (λ k. none) = λ k i. (λ e. cc, λ e. cc) in
      let (after, e, k) =
        run-Kept ops dim fresh (λ j. none) ((h, omega arith, refl, empty_pos), refl, λ j. refl) in
      (fresh, after, rw nonzero refl, e, k)
