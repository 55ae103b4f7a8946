-- ===== src/Vector/Upsert/Accepted.antt =====
-- Which rows pass the checks.
use m3_core_rs.Base.{
  ℕ, zero, suc, ◌+◌, ◌*◌, ◌^◌, ◌<◌, ◌≡◌, refl, sym, ap, ◌∙◌, ◌↔◌, inl, inr, Bool, true, false, ◌&&◌,
  Option, none, some, List, [], ◌∷◌, ◌++◌, arith, ltb, ◌==◌, ==_iff, Bool-cases, length, take, drop,
  all, All, take-append-drop, length-take, length-drop, ℤ,
}
use m3_core_rs.Errors.{Result, ok, err}
use m3_core_rs.Vector.Single.{Single}
use m3_core_rs.Vector.Index.{VectorIndex}
use m3_core_rs.Vector.Upsert.{
  find_bad, component_error, check, after_check, check_all, chunks_exact, zip, is_product,
}

all-append :
    {A : Type 0} (p : A → Bool) (xs ys : List A) → all p (xs ++ ys) ≡ (all p xs && all p ys)
all-append p [] ys = refl
all-append p (x ∷ xs) ys = ground (arith, all-append p xs ys)

module _ (fl : Single) where
  open fl use {F32, is_finite}

  pub find_bad_iff :
      (i : ℕ) (vec : List F32) → (find_bad fl i vec ≡ none) ↔ (all is_finite vec ≡ true)
  unfolding find_bad
  find_bad_iff i [] = (λ _. refl, λ _. refl)
  find_bad_iff i (x ∷ xs) = ground (arith, find_bad_iff (suc i) xs)

  component_error_iff :
      (key : ℤ) (dim : ℕ) (o : Option (ℕ × F32))
      → (component_error fl key dim o ≡ ok tt) ↔ (o ≡ none)
  unfolding component_error
  component_error_iff key dim none = (λ _. refl, λ _. refl)
  component_error_iff key dim (some (i, x)) = (λ e. cc, λ e. cc)

  -- A vector of the index's dimension without NaN and infinity.
  abbrev pub Fits : ℕ → List F32 → Type 0
  Fits dim vec = (length vec ≡ dim) × (all is_finite vec ≡ true)

  pub check_iff :
      (idx : VectorIndex F32) (key : ℤ) (vec : List F32)
      → (check fl idx key vec ≡ ok tt) ↔ Fits idx.dim vec
  unfolding check
  check_iff idx key vec =
      let (up, down) = component_error_iff key idx.dim (find_bad fl 0 vec) in
      let (to, from) = find_bad_iff 0 vec in
      elim (Bool-cases (length vec == idx.dim)) [
        | inl e ↦ rw e (λ f. ((==_iff _ _).0 e, to (up f)), λ (l, f). down (from f))
        | inr e ↦ rw e (λ f. cc, λ (l, f). absurd (ground arith))
      ]

  abbrev pub FitsRow : ℕ → ℤ × List F32 → Type 0
  FitsRow dim (key, row) = Fits dim row

  after_check_iff :
      (a b : Result (Unit {0})) → (after_check fl a b ≡ ok tt) ↔ ((a ≡ ok tt) × (b ≡ ok tt))
  unfolding after_check
  after_check_iff (ok u) b = (λ e. (refl, e), λ (e, f). f)
  after_check_iff (err x) b = (λ e. cc, λ (e, f). cc)

  pub check_all_iff :
      (idx : VectorIndex F32) (rows : List (ℤ × List F32))
      → (check_all fl idx rows ≡ ok tt) ↔ All (FitsRow idx.dim) rows
  unfolding check_all
  check_all_iff idx [] = (λ _. tt, λ _. refl)
  check_all_iff idx ((key, row) ∷ rows) =
      let (up, down) = after_check_iff (check fl idx key row) (check_all fl idx rows) in
      let (one, back) = check_iff idx key row in
      let (more, rest) = check_all_iff idx rows in
      (λ e. (one (up e).0, more (up e).1), λ (f, g). down (back f, rest g))

  -- Rows cut from a list of the right length all fit exactly if the list has only finite numbers.
  pub zip_iff :
      (dim : ℕ) (keys : List ℤ) (f : ℕ) (flat : List F32)
      → 0 < dim
      → length keys < f
      → length flat ≡ length keys * dim
      → All (FitsRow dim) (zip fl keys (chunks_exact fl f dim flat)) ↔ (all is_finite flat ≡ true)
  unfolding zip chunks_exact
  zip_iff dim [] f [] d b l = (λ _. refl, λ _. tt)
  zip_iff dim [] f (x ∷ xs) d b l = absurd (omega arith)
  zip_iff dim (key ∷ keys) zero flat d b l = absurd (omega arith)
  zip_iff dim (key ∷ keys) (suc f) flat d b l =
      let area : suc (length keys) * dim ≡ length keys * dim + dim = grind arith in
      let enough : ltb (length flat) dim ≡ false = ground arith in
      let (up, down) =
        zip_iff dim keys f (drop dim flat) d (omega arith) (omega (arith, length-drop dim flat)) in
      let both : all is_finite flat
          ≡ (all is_finite (take dim flat) && all is_finite (drop dim flat)) =
        ap (all is_finite) (sym (take-append-drop dim flat))
        ∙ all-append is_finite (take dim flat) (drop dim flat) in
      let l' : length (take dim flat) ≡ dim = omega (arith, length-take dim flat) in
      rw enough (
        λ ((n, e), g). ground (arith, both, up g, e),
        λ e. ((l', ground (arith, both, e)), down (ground (arith, both, e))),
      )

  pub is_product_iff : (n a b : ℕ) → (is_product n a b ≡ true) ↔ ((n ≡ a * b) × (n < 2 ^ 64))
  unfolding is_product
  is_product_iff n a b = ground arith
