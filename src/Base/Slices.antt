-- ===== src/Base/Slices.antt =====
-- Vectors as lists: reads, writes and slices at an index, which panic out of range, with the laws
-- that say what a later read finds. `none` is the panic.
use Prim.Native.Nat.{ℕ, zero, suc, ◌+◌, ◌*◌, ◌≤◌, ◌<◌}
use mathlib.Core.Path.{◌≡◌, refl, sym, ap, ◌∙◌}
use mathlib.Core.Option.{Option, none, some}
use mathlib.Core.List.{List, [], ◌∷◌, ◌++◌}
use native.Mathlib.Omega.{arith}
use m3_core_rs.Base.Tests.{ltb, leb, lt→ltb, le→leb, ◌==◌, if◌then◌else◌}
use m3_core_rs.Base.Lists.{length, take, drop, get_elem?, length-append, length-take, length-drop}

module _ {ℓ} {A : Type ℓ} where
  abbrev pub set_at : ℕ → A → List A → List A
  set_at i y [] = []
  set_at zero y (x ∷ xs) = y ∷ xs
  set_at (suc i) y (x ∷ xs) = x ∷ set_at i y xs

  -- `xs[i] = y`.
  abbrev pub put : ℕ → A → List A → Option (List A)
  put i y xs = if ltb i (length xs) then some (set_at i y xs) else none

  -- `xs[from..from + n]`.
  abbrev pub slice : ℕ → ℕ → List A → Option (List A)
  slice from n xs = if leb (from + n) (length xs) then some (take n (drop from xs)) else none

  -- The loop over `zip` that assigns the elements of the second list to the places of the first.
  abbrev pub zip_into : List A → List A → List A
  zip_into [] ys = []
  zip_into (x ∷ xs) [] = x ∷ xs
  zip_into (x ∷ xs) (y ∷ ys) = y ∷ zip_into xs ys

  abbrev pub splice : ℕ → List A → List A → List A
  splice from ys xs = take from xs ++ (ys ++ drop (from + length ys) xs)

  -- The places of `xs[from..from + n]`, assigned by the loop.
  abbrev pub write : ℕ → ℕ → List A → List A → Option (List A)
  write from n ys xs =
      if leb (from + n) (length xs)
      then some (splice from (zip_into (take n (drop from xs)) ys) xs)
      else none

module _ {ℓ} {A : Type ℓ} where
  pub length-set_at : (i : ℕ) (y : A) (xs : List A) → length (set_at i y xs) ≡ length xs
  length-set_at i y [] = refl
  length-set_at zero y (x ∷ xs) = refl
  length-set_at (suc i) y (x ∷ xs) = omega (arith, length-set_at i y xs)

  pub get-set_at :
      (i j : ℕ) (y : A) (xs : List A)
      → i < length xs
      → get_elem? (set_at i y xs) j ≡ (if i == j then some y else get_elem? xs j)
  get-set_at i j y [] h = absurd (omega arith)
  get-set_at zero zero y (x ∷ xs) h = refl
  get-set_at zero (suc j) y (x ∷ xs) h = ground arith
  get-set_at (suc i) zero y (x ∷ xs) h = ground arith
  get-set_at (suc i) (suc j) y (x ∷ xs) h = get-set_at i j y xs (omega arith) ∙ ground arith

  pub get-take :
      (n j : ℕ) (xs : List A) → get_elem? (take n xs) j ≡ (if ltb j n then get_elem? xs j else none)
  get-take zero j xs = ground arith
  get-take (suc n) j [] = ground arith
  get-take (suc n) zero (x ∷ xs) = ground arith
  get-take (suc n) (suc j) (x ∷ xs) = get-take n j xs ∙ ground arith

  pub get-snoc :
      (xs : List A) (y : A) (j : ℕ)
      → get_elem? (xs ++ y ∷ []) j ≡ (if length xs == j then some y else get_elem? xs j)
  get-snoc [] y zero = refl
  get-snoc [] y (suc j) = ground arith
  get-snoc (x ∷ xs) y zero = ground arith
  get-snoc (x ∷ xs) y (suc j) = get-snoc xs y j ∙ ground arith

  pub get-lt : (xs : List A) (i : ℕ) {x : A} → get_elem? xs i ≡ some x → i < length xs
  get-lt [] i e = cc
  get-lt (x ∷ xs) zero e = omega arith
  get-lt (x ∷ xs) (suc i) e = omega (arith, get-lt xs i e)

  pub lt-get : (xs : List A) (i : ℕ) → i < length xs → (x : A) × (get_elem? xs i ≡ some x)
  lt-get [] i h = absurd (omega arith)
  lt-get (x ∷ xs) zero h = (x, refl)
  lt-get (x ∷ xs) (suc i) h = lt-get xs i (omega arith)

  pub zip_into_lem : (xs ys : List A) → length xs ≡ length ys → zip_into xs ys ≡ ys
  zip_into_lem [] [] e = refl
  zip_into_lem [] (y ∷ ys) e = absurd (omega arith)
  zip_into_lem (x ∷ xs) [] e = absurd (omega arith)
  zip_into_lem (x ∷ xs) (y ∷ ys) e = ap (λ zs. y ∷ zs) (zip_into_lem xs ys (omega arith))

  drop-nil : (a : ℕ) → drop {A = A} a [] ≡ []
  drop-nil zero = refl
  drop-nil (suc a) = refl

  pub drop-drop : (a b : ℕ) (xs : List A) → drop a (drop b xs) ≡ drop (b + a) xs
  drop-drop a zero xs = ap (λ n. drop n xs) (omega arith)
  drop-drop a (suc b) [] = drop-nil a ∙ sym (drop-nil (suc b + a))
  drop-drop a (suc b) (x ∷ xs) =
      let e : suc (b + a) ≡ suc b + a = omega arith in
      drop-drop a b xs ∙ ap (λ n. drop n (x ∷ xs)) e

  pub drop-append-le :
      (a : ℕ) (xs ys : List A) → a ≤ length xs → drop a (xs ++ ys) ≡ drop a xs ++ ys
  drop-append-le zero xs ys h = refl
  drop-append-le (suc a) [] ys h = absurd (omega arith)
  drop-append-le (suc a) (x ∷ xs) ys h = drop-append-le a xs ys (omega arith)

  pub drop-append-ge : (b : ℕ) (xs ys : List A) → drop (length xs + b) (xs ++ ys) ≡ drop b ys
  drop-append-ge b [] ys = ap (λ n. drop n ys) (omega arith)
  drop-append-ge b (x ∷ xs) ys =
      let e : suc (length xs) + b ≡ suc (length xs + b) = omega arith in
      ap (λ n. drop n (x ∷ (xs ++ ys))) e ∙ drop-append-ge b xs ys

  pub take-append-le : (n : ℕ) (xs ys : List A) → n ≤ length xs → take n (xs ++ ys) ≡ take n xs
  take-append-le zero xs ys h = refl
  take-append-le (suc n) [] ys h = absurd (omega arith)
  take-append-le (suc n) (x ∷ xs) ys h = ap (λ zs. x ∷ zs) (take-append-le n xs ys (omega arith))

  pub take-length : (n : ℕ) (xs : List A) → n ≡ length xs → take n xs ≡ xs
  take-length zero [] h = refl
  take-length (suc n) [] h = refl
  take-length zero (x ∷ xs) h = absurd (omega arith)
  take-length (suc n) (x ∷ xs) h = ap (λ zs. x ∷ zs) (take-length n xs (omega arith))

  -- A slice in front of the cut.
  pub take-drop-take :
      (n a b : ℕ) (xs : List A) → a + n ≤ b → take n (drop a (take b xs)) ≡ take n (drop a xs)
  take-drop-take zero a zero xs h = refl
  take-drop-take (suc n) a zero xs h = absurd (omega arith)
  take-drop-take n a (suc b) [] h = refl
  take-drop-take zero zero (suc b) (x ∷ xs) h = refl
  take-drop-take (suc n) zero (suc b) (x ∷ xs) h =
      ap (λ zs. x ∷ zs) (take-drop-take n zero b xs (omega arith))
  take-drop-take n (suc a) (suc b) (x ∷ xs) h = take-drop-take n a b xs (omega arith)

  -- What a slice finds behind a write: the values written, and elsewhere the old ones.
  pub splice-here :
      (from : ℕ) (ys xs : List A)
      → from ≤ length xs
      → take (length ys) (drop from (splice from ys xs)) ≡ ys
  splice-here from ys xs h =
      let rest = drop (from + length ys) xs in
      let l : from ≡ length (take from xs) + 0 = omega (arith, length-take from xs) in
      ap (λ n. take (length ys) (drop n (splice from ys xs))) l
      ∙ ap (take (length ys)) (drop-append-ge 0 (take from xs) (ys ++ rest))
      ∙ take-append-le (length ys) ys rest (omega arith)
      ∙ take-length (length ys) ys refl

  pub splice-before :
      (n a from : ℕ) (ys xs : List A)
      → a + n ≤ from
      → from ≤ length xs
      → take n (drop a (splice from ys xs)) ≡ take n (drop a xs)
  splice-before n a from ys xs h k =
      let rest = drop (from + length ys) xs in
      let l = length-take from xs in
      ap (take n) (drop-append-le a (take from xs) (ys ++ rest) (omega (arith, l)))
      ∙ take-append-le n (drop a (take from xs)) (ys ++ rest)
          (omega (arith, l, length-drop a (take from xs)))
      ∙ take-drop-take n a from xs h

  pub splice-behind :
      (c from : ℕ) (ys xs : List A)
      → from ≤ length xs
      → drop (from + length ys + c) (splice from ys xs) ≡ drop (from + length ys + c) xs
  splice-behind c from ys xs h =
      let rest = drop (from + length ys) xs in
      let l : from + length ys + c ≡ length (take from xs) + (length ys + c) =
        omega (arith, length-take from xs) in
      ap (λ n. drop n (splice from ys xs)) l
      ∙ drop-append-ge (length ys + c) (take from xs) (ys ++ rest)
      ∙ drop-append-ge c ys rest
      ∙ drop-drop c (from + length ys) xs

  pub length-splice :
      (from : ℕ) (ys xs : List A)
      → from + length ys ≤ length xs
      → length (splice from ys xs) ≡ length xs
  length-splice from ys xs h = omega (
    arith,
    length-append (take from xs) (ys ++ drop (from + length ys) xs),
    length-append ys (drop (from + length ys) xs),
    length-take from xs,
    length-drop (from + length ys) xs,
  )

  pub write-splice :
      (from n : ℕ) (ys xs : List A)
      → from + n ≤ length xs
      → length ys ≡ n
      → write from n ys xs ≡ some (splice from ys xs)
  write-splice from n ys xs h e =
      let l : length (take n (drop from xs)) ≡ length ys =
        omega (arith, length-take n (drop from xs), length-drop from xs) in
      rw (le→leb (from + n) (length xs) h, zip_into_lem (take n (drop from xs)) ys l) refl

  pub put-set_at : (i : ℕ) (y : A) (xs : List A) → i < length xs → put i y xs ≡ some (set_at i y xs)
  put-set_at i y xs h = rw (lt→ltb i (length xs) h) refl

  pub slice-take :
      (from n : ℕ) (xs : List A)
      → from + n ≤ length xs
      → slice from n xs ≡ some (take n (drop from xs))
  slice-take from n xs h = rw (le→leb (from + n) (length xs) h) refl

-- Rows of n places each do not overlap.
pub rows_apart : (i j n : ℕ) → i < j → i * n + n ≤ j * n
rows_apart i zero n h = absurd (omega arith)
rows_apart i (suc j) n h = grind (arith, rows_apart i j n)
