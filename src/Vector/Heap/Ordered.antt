-- ===== src/Vector/Heap/Ordered.antt =====
-- crates/m3-vector/src/index.rs: a heap's elements stay in order, whatever the order of the pushes.
use m3_core_rs.Base.{
  ℕ, suc, ◌+◌, ◌≤◌, ◌≡◌, refl, sym, ap, ◌∙◌, inl, inr, true, false, List, [], ◌∷◌, ◌++◌, arith,
  if◌then◌else◌, Bool-cases, length, keep, All,
}
use mathlib.Core.List.{Permᴰ}
use mathlib.Core.List.Permᴰ.{nil, cons, swap, trans}
use m3_core_rs.Vector.Heap.{LinearOrder, push, pushes}

module _ {A : Type 0} (order : LinearOrder A) where
  open order use {ge, ge_total, ge_trans, ge_antisym}

  abbrev pub Sorted : List A → Type 0
  Sorted [] = Unit
  Sorted (x ∷ xs) = All (λ y. ge x y ≡ true) xs × Sorted xs

  pub length-push : (h : A) (xs : List A) → length (push order h xs) ≡ suc (length xs)
  unfolding push
  length-push h [] = refl
  length-push h (x ∷ xs) = ground (arith, length-push h xs)

  pub All-push :
      (a h : A) (xs : List A)
      → ge a h ≡ true
      → All (λ y. ge a y ≡ true) xs
      → All (λ y. ge a y ≡ true) (push order h xs)
  unfolding push
  All-push a h [] e u = (e, tt)
  All-push a h (x ∷ xs) e (f, u) = elim (Bool-cases (ge h x)) [
    | inl g ↦ rw g (e, (f, u))
    | inr g ↦ rw g (f, All-push a h xs e u)
  ]

  pub All-trans :
      (a b : A) (xs : List A)
      → ge a b ≡ true
      → All (λ y. ge b y ≡ true) xs
      → All (λ y. ge a y ≡ true) xs
  All-trans a b [] e u = tt
  All-trans a b (x ∷ xs) e (f, u) = (ge_trans a b x e f, All-trans a b xs e u)

  pub push-Sorted : (h : A) (xs : List A) → Sorted xs → Sorted (push order h xs)
  unfolding push
  push-Sorted h [] s = (tt, tt)
  push-Sorted h (x ∷ xs) (u, s) = elim (Bool-cases (ge h x)) [
    | inl g ↦ rw g ((g, All-trans h x xs g u), (u, s))
    | inr g ↦ rw g (All-push x h xs (ge_total h x g) u, push-Sorted h xs s)
  ]

  pub pushes-Sorted : (hs xs : List A) → Sorted xs → Sorted (pushes order hs xs)
  unfolding pushes
  pushes-Sorted [] xs s = s
  pushes-Sorted (h ∷ hs) xs s = pushes-Sorted hs (push order h xs) (push-Sorted h xs s)

  -- The elements that h is not better than.
  abbrev pub below : A → List A → ℕ
  below h xs = length (keep (ge h) xs)

  pub below-le : (h : A) (xs : List A) → below h xs ≤ length xs
  below-le h [] = omega arith
  below-le h (x ∷ xs) = ground (arith, below-le h xs)

  pub below-push :
      (a h : A) (xs : List A) → below a xs + (if ge a h then 1 else 0) ≡ below a (push order h xs)
  unfolding push
  below-push a h [] = ground arith
  below-push a h (x ∷ xs) = ground (arith, below-push a h xs)

  pub same-push :
      (a b : A) (xs : List A)
      → a ≡ b
      → push order a (push order b xs) ≡ push order b (push order a xs)
  same-push a b xs e = rw e refl

  pub push-push :
      (a b : A) (xs : List A) → push order a (push order b xs) ≡ push order b (push order a xs)
  unfolding push
  push-push a b [] = elim (Bool-cases (ge a b)) [
    | inl g ↦ elim (Bool-cases (ge b a)) [
      | inl f ↦ same-push a b [] (ge_antisym a b g f)
      | inr f ↦ rw (g, f) refl
    ]
    | inr g ↦ rw (g, ge_total a b g) refl
  ]
  push-push a b (x ∷ xs) = elim (Bool-cases (ge a x)) [
    | inl g ↦ elim (Bool-cases (ge b x)) [
      | inl f ↦ elim (Bool-cases (ge a b)) [
        | inl p ↦ elim (Bool-cases (ge b a)) [
          | inl q ↦ same-push a b (x ∷ xs) (ge_antisym a b p q)
          | inr q ↦ rw (g, f, p, q) refl
        ]
        | inr p ↦ rw (g, f, p, ge_total a b p) (rw g refl)
      ]
      | inr f ↦ let q : ge b a ≡ false = ground (arith, ge_trans b a x) in rw (g, f, q) (rw g refl)
    ]
    | inr g ↦ elim (Bool-cases (ge b x)) [
      | inl f ↦ let q : ge a b ≡ false = ground (arith, ge_trans a b x) in rw (g, f, q) (rw g refl)
      | inr f ↦ rw (g, f) (rw g (ap (λ ys. x ∷ ys) (push-push a b xs)))
    ]
  ]

  pub push-pushes :
      (h : A) (hs xs : List A)
      → push order h (pushes order hs xs) ≡ pushes order hs (push order h xs)
  unfolding pushes
  push-pushes h [] xs = refl
  push-pushes h (x ∷ hs) xs =
      push-pushes h hs (push order x xs) ∙ ap (pushes order hs) (push-push h x xs)

  pub pushes-push :
      (h : A) (hs xs : List A)
      → pushes order (push order h hs) xs ≡ push order h (pushes order hs xs)
  unfolding push pushes
  pushes-push h [] xs = refl
  pushes-push h (x ∷ hs) xs = elim (Bool-cases (ge h x)) [
    | inl g ↦ rw g (sym (push-pushes h (x ∷ hs) xs))
    | inr g ↦ rw g (pushes-push h hs (push order x xs))
  ]

  pub pushes-pushes :
      (hs gs xs : List A)
      → pushes order (pushes order hs gs) xs ≡ pushes order hs (pushes order gs xs)
  unfolding pushes
  pushes-pushes [] gs xs = refl
  pushes-pushes (h ∷ hs) gs xs =
      pushes-pushes hs (push order h gs) xs ∙ ap (pushes order hs) (pushes-push h gs xs)

  pub pushes-append :
      (hs gs xs : List A) → pushes order (hs ++ gs) xs ≡ pushes order gs (pushes order hs xs)
  unfolding pushes
  pushes-append [] gs xs = refl
  pushes-append (h ∷ hs) gs xs = pushes-append hs gs (push order h xs)

  pub below-pushes :
      (a : A) (hs xs : List A) → below a hs + below a xs ≤ below a (pushes order hs xs)
  unfolding pushes
  below-pushes a [] xs = omega arith
  below-pushes a (h ∷ hs) xs =
      let now = below-push a h xs in let later = below-pushes a hs (push order h xs) in ground arith

  pub below-All : (a : A) (xs : List A) → All (λ y. ge a y ≡ true) xs → below a xs ≡ length xs
  below-All a [] u = refl
  below-All a (x ∷ xs) (e, u) = rw e (ap suc (below-All a xs u))

  -- The order in which elements are pushed does not count.
  pub pushes-Perm :
      {hs gs : List A} → Permᴰ hs gs → (xs : List A) → pushes order hs xs ≡ pushes order gs xs
  unfolding pushes
  pushes-Perm nil xs = refl
  pushes-Perm (cons {b = b} {l₁ = hs} e d) xs =
      ap (λ h. pushes order hs (push order h xs)) e ∙ pushes-Perm d (push order b xs)
  pushes-Perm (swap {a = a} {b = b} {b' = b'} {l = l} e f) xs =
      ap (pushes order l) (push-push b a xs)
      ∙ ap (λ h. pushes order l (push order h (push order b xs))) e
      ∙ ap (λ h. pushes order l (push order b' (push order h xs))) f
  pushes-Perm (trans d e) xs = pushes-Perm d xs ∙ pushes-Perm e xs
