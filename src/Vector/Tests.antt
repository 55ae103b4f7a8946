-- ===== src/Vector/Tests.antt =====
-- An index of whole numbers, and the theorems on it.
use m3_core_rs.Base.{
  ℕ, ◌+◌, ◌*◌, ◌/◌, max, ◌≡◌, refl, ◌↔◌, true, false, none, some, List, [], ◌∷◌, arith, ltb, leb,
  ◌==◌, if◌then◌else◌, pos, pos_part, ascii,
}
use mathlib.Core.List.{Permᴰ}
use mathlib.Core.List.Permᴰ
use m3_core_rs.Errors.{Result, ok}
use m3_core_rs.Vector.Single.{Single}
use m3_core_rs.Vector.Index.{VectorIndex, new, insert_pos}
use m3_core_rs.Vector.Index.Valid.{Valid, PosOf}
use m3_core_rs.Vector.Index.Insertion.{insert-PosOf}
use m3_core_rs.Vector.Upsert.{upsert_many, norm_of}
use m3_core_rs.Vector.Upsert.Stored.{Wellformed, AllOrNothing, given, upsert_many-Refines}
use m3_core_rs.Vector.History.{
  Op, upserts, upserts_many, removes, run, all_promised, Kept, run-new-Kept,
}
use m3_core_rs.Vector.Heap.{Split, chunk, join, elements, pushes, last_of}
use m3_core_rs.Vector.Search.{Hit, hits, candidates, unit_query, heap_order, answered, search}
use m3_core_rs.Vector.Search.Best.{search-best}

le_total : (x y : ℕ) → leb x y ≡ false → leb y x ≡ true
le_total x y h = ground arith

le_trans : (x y z : ℕ) → leb x y ≡ true → leb y z ≡ true → leb x z ≡ true
le_trans x y z h k = ground arith

le_antisym : (x y : ℕ) → leb x y ≡ true → leb y x ≡ true → x ≡ y
le_antisym x y h k = ground arith

-- Every number below 1000 is finite, and a norm is 1 if it is not 0.
abbrev small : Single
small = record {
  F32 = ℕ;
  zero_f = 0;
  peak_code = 127;
  least_code = 0;
  add = λ x y. x + y;
  mul = λ x y. x * y;
  div = λ x y. x / y;
  max_f = max;
  abs = λ x. x;
  sqrt = λ x. if x == 0 then 0 else 1;
  round = λ x. x;
  clamp_f = λ x lo hi. if ltb hi x then hi else x;
  gt = λ x y. ltb y x;
  eq_f = λ x y. x == y;
  is_finite = λ x. ltb x 1000;
  as_i8 = pos;
  of_i8 = λ c. pos_part c;
  total_le = leb;
  total_le_total = le_total;
  total_le_trans = le_trans;
  total_le_antisym = le_antisym;
  shown = λ x. ascii "x";
}

abbrev ops : List (Op small)
ops =
    upserts_many (pos 1 ∷ pos 2 ∷ pos 3 ∷ []) (1 ∷ 0 ∷ 0 ∷ 1 ∷ 1 ∷ 1 ∷ [])
    ∷ upserts (pos 2) (2 ∷ 1 ∷ [])
    ∷ upserts (pos 4) (1000 ∷ 0 ∷ [])
    ∷ removes (pos 1)
    ∷ []

run-new-Kept_example :
    (idx : VectorIndex ℕ) × (after : VectorIndex ℕ) × (new 2 ≡ ok idx)
    × (run small ops idx ≡ some after)
    × Kept small 2 (all_promised small 2 ops (λ j. none)) after
run-new-Kept_example = run-new-Kept small 2 ops (omega arith)

-- Three keys with the last row in front after a removal.
abbrev three : VectorIndex ℕ
three = record {
  dim = 2;
  keys = pos 5 ∷ pos 6 ∷ pos 7 ∷ [];
  codes = pos 1 ∷ pos 2 ∷ pos 3 ∷ pos 4 ∷ pos 5 ∷ pos 6 ∷ [];
  scales = 1 ∷ 2 ∷ 3 ∷ [];
  pos_of = insert_pos (pos 7) 2 (insert_pos (pos 6) 1 (insert_pos (pos 5) 0 (λ k. none)));
}

three-Valid : Valid three
three-Valid =
    let at_none : PosOf [] (λ k. none) = λ k i. (λ e. cc, λ e. cc) in
    let at_one = insert-PosOf [] (λ k. none) (pos 5) at_none refl in
    let at_two = insert-PosOf (pos 5 ∷ []) (insert_pos (pos 5) 0 (λ k. none)) (pos 6) at_one refl in
    (
      omega arith,
      refl,
      refl,
      insert-PosOf (pos 5 ∷ pos 6 ∷ []) (insert_pos (pos 6) 1 (insert_pos (pos 5) 0 (λ k. none)))
          (pos 7) at_two refl,
    )

upsert_many-Refines_example :
    (after : VectorIndex ℕ) × (r : Result (Unit {0})) × (upsert_many small
        (pos 6 ∷ pos 8 ∷ [])
        (1 ∷ 1 ∷ 2 ∷ 2 ∷ [])
        three
      ≡ some (after, r))
    × ((r ≡ ok tt) ↔ Wellformed small 2 (pos 6 ∷ pos 8 ∷ []) (1 ∷ 1 ∷ 2 ∷ 2 ∷ []))
    × AllOrNothing small (given small 2 (pos 6 ∷ pos 8 ∷ []) (1 ∷ 1 ∷ 2 ∷ 2 ∷ [])) three after r
upsert_many-Refines_example =
    upsert_many-Refines small three (pos 6 ∷ pos 8 ∷ []) (1 ∷ 1 ∷ 2 ∷ 2 ∷ []) three-Valid

-- The rows of two threads.
abbrev halves : List ℕ → Split ℕ
halves [] = chunk []
halves (i ∷ rows) = join (chunk (i ∷ [])) (chunk rows)

halves_lem : (rows : List ℕ) → elements (halves rows) ≡ rows
halves_lem [] = refl
halves_lem (i ∷ rows) = refl

-- A heap gives its second element first.
abbrev second_first : Split (Hit small) → List (Hit small) → List (Hit small)
second_first t (x ∷ y ∷ hs) = y ∷ x ∷ hs
second_first t hs = hs

second_first-Permᴰ : (t : Split (Hit small)) (hs : List (Hit small)) → Permᴰ (second_first t hs) hs
second_first-Permᴰ t [] = Permᴰ.refl []
second_first-Permᴰ t (x ∷ []) = Permᴰ.refl (x ∷ [])
second_first-Permᴰ t (x ∷ y ∷ hs) = Permᴰ.swap refl refl

search-best_example :
    (hs : List (Hit small)) × (hits small three
        (unit_query small (1 ∷ 1 ∷ []))
        (candidates small three none)
      ≡ some hs)
    × (search small three (1 ∷ 1 ∷ []) 2 none halves second_first
        ≡ some
            (ok (answered small (last_of (heap_order small) 2 (pushes (heap_order small) hs [])))))
unfolding norm_of
search-best_example =
    search-best small three (1 ∷ 1 ∷ []) 2 none halves second_first three-Valid (refl, refl)
      (omega arith) (omega arith) (omega arith) refl halves_lem second_first-Permᴰ
