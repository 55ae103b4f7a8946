-- ===== src/Vector/Heap/Kept.antt =====
-- crates/m3-vector/src/index.rs: what a bounded heap keeps, however the elements are split between
-- heaps.
use m3_core_rs.Base.{
  ℕ, suc, ◌+◌, ◌-◌, ◌*◌, ◌^◌, ◌%◌, ◌<◌, true, some, ◌≤◌, ◌≡◌, refl, sym, ap, ◌∙◌, ◌⊎◌, inl, inr,
  List, [], ◌∷◌, arith, ltb, Bool-cases, length, length-drop, drop,
}
use mathlib.Core.List.{Permᴰ}
use m3_core_rs.Vector.Heap.{
  LinearOrder, Split, chunk, join, elements, push, pushes, push_within, push_all_within, last_of,
  heap_of, with_capacity,
}
use m3_core_rs.Vector.Heap.Ordered.{
  Sorted, length-push, All-trans, push-Sorted, pushes-Sorted, below, below-le, push-pushes,
  pushes-pushes, pushes-append, below-pushes, below-All, pushes-Perm,
}

few_or_more : (k n : ℕ) → (suc n ≤ k) ⊎ (k ≤ n)
few_or_more k n = ground arith

module _ {A : Type 0} (order : LinearOrder A) where
  open order use {ge, ge_total, ge_trans, ge_antisym}

  last_of-cons :
      (k : ℕ) (x : A) (xs : List A) → k ≤ length xs → last_of order k (x ∷ xs) ≡ last_of order k xs
  last_of-cons k x xs h =
      let e : suc (length xs) - k ≡ suc (length xs - k) = omega arith in ap (λ n. drop n (x ∷ xs)) e

  last_of-short : (k : ℕ) (xs : List A) → length xs ≤ k → last_of order k xs ≡ xs
  last_of-short k xs h = let e : length xs - k ≡ 0 = omega arith in ap (λ n. drop n xs) e

  -- An element that is popped before k others is not among the k last.
  last_of-push :
      (k : ℕ) (h : A) (xs : List A)
      → k ≤ below order h xs
      → last_of order k (push order h xs) ≡ last_of order k xs
  unfolding push
  last_of-push k h [] b = last_of-cons k h [] b
  last_of-push k h (x ∷ xs) b = elim (Bool-cases (ge h x)) [
    | inl g ↦ rw g (last_of-cons k h (x ∷ xs) (omega (arith, below-le order h (x ∷ xs))))
    | inr g ↦
        let b' : k ≤ below order h xs = ground arith in
        let l = below-le order h xs in
        rw g (
          last_of-cons k x (push order h xs) (omega (arith, length-push order h xs))
          ∙ last_of-push k h xs b'
          ∙ sym (last_of-cons k x xs (omega arith)))
  ]

  -- Only the k last of an ordered list count when it is pushed into another.
  last_of-pushes :
      (k : ℕ) (hs xs : List A)
      → Sorted order hs
      → last_of order k (pushes order (last_of order k hs) xs)
        ≡ last_of order k (pushes order hs xs)
  unfolding pushes
  last_of-pushes k [] xs s =
      ap (λ ys. last_of order k (pushes order ys xs)) (last_of-short k [] (omega arith))
  last_of-pushes k (h ∷ hs) xs (u, s) = elim (few_or_more k (length hs)) [
    | inl few ↦ ap (λ ys. last_of order k (pushes order ys xs)) (last_of-short k (h ∷ hs) few)
    | inr more ↦
        ap (λ ys. last_of order k (pushes order ys xs)) (last_of-cons k h hs more)
        ∙ last_of-pushes k hs xs s
        ∙ sym (
            ap (last_of order k) (sym (push-pushes order h hs xs))
            ∙ last_of-push k h (pushes order hs xs)
                (omega (arith, below-pushes order h hs xs, below-All order h hs u)))
  ]

  last_of-push_last :
      (k : ℕ) (h : A) (xs : List A)
      → Sorted order xs
      → last_of order k (push order h (last_of order k xs)) ≡ last_of order k (push order h xs)
  unfolding push
  last_of-push_last k h [] s =
      ap (λ ys. last_of order k (push order h ys)) (last_of-short k [] (omega arith))
  last_of-push_last k h (x ∷ xs) (u, s) = elim (few_or_more k (length xs)) [
    | inl few ↦ ap (λ ys. last_of order k (push order h ys)) (last_of-short k (x ∷ xs) few)
    | inr more ↦
        let rest =
          ap (λ ys. last_of order k (push order h ys)) (last_of-cons k x xs more)
          ∙ last_of-push_last k h xs s in
        elim (Bool-cases (ge h x)) [
          | inl g ↦
              let all_below = below-All order h xs (All-trans order h x xs g u) in
              rest
              ∙ last_of-push k h xs (omega (arith, all_below))
              ∙ sym (last_of-cons k x xs more)
              ∙ sym (last_of-push k h (x ∷ xs) (rw g (omega (arith, all_below))))
          | inr g ↦
              rest
              ∙ rw g
                  (sym (last_of-cons k x (push order h xs) (omega (arith, length-push order h xs))))
        ]
  ]

  push_within_lem :
      (k : ℕ) (h : A) (xs : List A)
      → length xs ≤ k
      → push_within order k h xs ≡ last_of order k (push order h xs)
  unfolding push_within
  push_within_lem k h xs b =
      let l = length-push order h xs in
      elim (Bool-cases (ltb k (length (push order h xs)))) [
        | inl e ↦
            let one : length (push order h xs) - k ≡ 1 = ground arith in
            rw e (ap (λ n. drop n (push order h xs)) (sym one))
        | inr e ↦ rw e (sym (last_of-short k (push order h xs) (ground arith)))
      ]

  push_all_within_lem :
      (k : ℕ) (hs xs : List A)
      → Sorted order xs
      → push_all_within order k hs (last_of order k xs) ≡ last_of order k (pushes order hs xs)
  unfolding push_all_within pushes
  push_all_within_lem k [] xs s = refl
  push_all_within_lem k (h ∷ hs) xs s =
      let within : length (last_of order k xs) ≤ k =
        omega (arith, length-drop (length xs - k) xs) in
      let step = push_within_lem k h (last_of order k xs) within ∙ last_of-push_last k h xs s in
      ap (push_all_within order k hs) step
      ∙ push_all_within_lem k hs (push order h xs) (push-Sorted order h xs s)

  -- However the elements are split, and in whatever order the joined heaps give theirs, the heap that
  -- is left holds the k last of all of them.
  pub heap_of_lem :
      (iter : Split A → List A → List A) (k : ℕ) (t : Split A)
      → ((u : Split A) (xs : List A) → Permᴰ (iter u xs) xs)
      → 16 * (k + 1) < 2 ^ 63
      → heap_of order iter k t ≡ some (last_of order k (pushes order (elements t) []))
  unfolding heap_of pushes with_capacity
  heap_of_lem iter k (chunk []) p room = ap some (sym (last_of-short k [] (omega arith)))
  heap_of_lem iter k (chunk (h ∷ hs)) p room =
      let fits : ltb (16 * ((k + 1) % 2 ^ 64)) (2 ^ 63) ≡ true = ground arith in
      rw fits (
        ap some (
          ap (push_all_within order k (h ∷ hs)) (sym (last_of-short k [] (omega arith)))
          ∙ push_all_within_lem k (h ∷ hs) [] tt))
  heap_of_lem iter k (join a b) p room =
      let A = pushes order (elements a) [] in
      let B = pushes order (elements b) [] in
      let given = iter b (last_of order k B) in
      rw (heap_of_lem iter k a p room, heap_of_lem iter k b p room)
        (ap some (
          push_all_within_lem k given A (pushes-Sorted order (elements a) [] tt)
          ∙ ap (last_of order k) (pushes-Perm order (p b (last_of order k B)) A)
          ∙ last_of-pushes k B A (pushes-Sorted order (elements b) [] tt)
          ∙ ap (last_of order k) (
              pushes-pushes order (elements b) [] A
              ∙ sym (pushes-append order (elements a) (elements b) []))))
