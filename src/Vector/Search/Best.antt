-- ===== src/Vector/Search/Best.antt =====
-- The answer of a search does not depend on how the rows are split between threads.
use m3_core_rs.Base.{
  ℕ, zero, suc, ◌+◌, ◌*◌, ◌^◌, ap, map, ◌≤◌, ◌<◌, ◌≡◌, refl, sym, false, Option, none, some, List,
  [], ◌∷◌, ◌++◌, arith, ◌==◌, ==_iff, length, is_empty, All, slice-take, lt-get, get-lt, rows_apart,
  take, drop, ℤ,
}
use m3_core_rs.Errors.{ok}
use m3_core_rs.Vector.Single.{Single}
use m3_core_rs.Vector.Index.{VectorIndex, ◌>>=◌}
use m3_core_rs.Vector.Index.Valid.{Valid, PosOf}
use m3_core_rs.Vector.Upsert.{fold, norm_of}
use m3_core_rs.Vector.Upsert.Accepted.{Fits, find_bad_iff}
use m3_core_rs.Vector.Heap.{pushes, Split, chunk, join, elements, last_of}
use m3_core_rs.Vector.Heap.Kept.{heap_of_lem}
use m3_core_rs.Vector.Heap.Ordered.{pushes-Perm}
use mathlib.Core.List.{Permᴰ}
use m3_core_rs.Vector.Search.{
  range, found, known, Hit, score, hit, hits, products, scored, candidates, query_error,
  check_query, pair, heap_order, answer_order, answered, ranked, passed, unit_query, search_rows,
  search,
}

Below : ℕ → List ℕ → Type 0
Below n = All (λ i. i < n)

range-Below : (n from m : ℕ) → from + n ≤ m → Below m (range from n)
unfolding Below
range-Below zero from m h = tt
range-Below (suc n) from m h = (omega arith, range-Below n (suc from) m (omega arith))

found-Below :
    (n : ℕ) (o : Option ℕ) (rows : List ℕ)
    → ((i : ℕ) → o ≡ some i → i < n)
    → Below n rows
    → Below n (found o rows)
unfolding Below
found-Below n none rows b bs = bs
found-Below n (some i) rows b bs = (b i refl, bs)

known-Below :
    (keys : List ℤ) (at : ℤ → Option ℕ) (asked : List ℤ)
    → PosOf keys at
    → Below (length keys) (known at asked)
unfolding Below
known-Below keys at [] p = tt
known-Below keys at (key ∷ asked) p =
    found-Below (length keys) (at key) (known at asked) (λ i e. get-lt keys i ((p key i).0 e))
      (known-Below keys at asked p)

some_of :
    {A B : Type 0} (m : Option A) (f : A → Option B) {b : B}
    → (m >>= f) ≡ some b
    → (a : A) × (m ≡ some a) × (f a ≡ some b)
some_of none f e = cc
some_of (some a) f e = (a, refl, e)

module _ (fl : Single) where
  open fl use {F32, add, mul, is_finite, eq_f, zero_f}

  candidates-Below :
      (idx : VectorIndex F32) (allowed : Option (List ℤ))
      → Valid idx
      → Below (length idx.keys) (candidates fl idx allowed)
  candidates-Below idx none v = range-Below (length idx.keys) 0 (length idx.keys) (omega arith)
  candidates-Below idx (some asked) (d, c, s, p) = known-Below idx.keys idx.pos_of asked p

  hit-some :
      (idx : VectorIndex F32) (q : List F32) (i : ℕ)
      → Valid idx
      → i < length idx.keys
      → (h : Hit fl) × (hit fl idx q i ≡ some h)
  unfolding hit score fold
  hit-some idx q i (d, c, s, p) b =
      let room = rows_apart i (length idx.keys) idx.dim b in
      let (scale, e) = lt-get idx.scales i (omega arith) in
      let (key, f) = lt-get idx.keys i b in
      let row = take idx.dim (drop (i * idx.dim) idx.codes) in
      let s' = mul (fold fl add zero_f (products fl row q)) scale in
      let h : Hit fl = record { score = s'; key = key } in
      (h, rw (slice-take (i * idx.dim) idx.dim idx.codes (omega arith), e, f) refl)

  hits-some :
      (idx : VectorIndex F32) (q : List F32) (rows : List ℕ)
      → Valid idx
      → Below (length idx.keys) rows
      → (hs : List (Hit fl)) × (hits fl idx q rows ≡ some hs)
  unfolding hits Below
  hits-some idx q [] v b = ([], refl)
  hits-some idx q (i ∷ rows) v (b, bs) =
      let (h, e) = hit-some idx q i v b in
      let (hs, f) = hits-some idx q rows v bs in (h ∷ hs, rw (e, f) refl)

  hits-append :
      (idx : VectorIndex F32) (q : List F32) (xs ys : List ℕ) {hs : List (Hit fl)}
      → hits fl idx q (xs ++ ys) ≡ some hs
      → (front : List (Hit fl)) × (bs : List (Hit fl)) × (hits fl idx q xs ≡ some front)
        × (hits fl idx q ys ≡ some bs)
        × (hs ≡ front ++ bs)
  unfolding hits
  hits-append idx q [] ys {hs} e = ([], hs, refl, e, refl)
  hits-append idx q (i ∷ xs) ys {hs} e =
      let (h, f, g) = some_of (hit fl idx q i) _ e in
      let (rest, k, l) = some_of (hits fl idx q (xs ++ ys)) _ g in
      let (front, bs, m, n, o) = hits-append idx q xs ys k in
      (h ∷ front, bs, rw (f, m) refl, n, ground arith)

  -- The hits of a split are those of its rows.
  scored_lem :
      (idx : VectorIndex F32) (q : List F32) (t : Split ℕ) {hs : List (Hit fl)}
      → hits fl idx q (elements t) ≡ some hs
      → (u : Split (Hit fl)) × (scored fl idx q t ≡ some u) × (elements u ≡ hs)
  unfolding scored
  scored_lem idx q (chunk rows) {hs} e = (chunk hs, rw e refl, refl)
  scored_lem idx q (join a b) {hs} e =
      let (front, bs, f, g, h) = hits-append idx q (elements a) (elements b) e in
      let (x, k, l) = scored_lem idx q a f in
      let (y, m, n) = scored_lem idx q b g in (join x y, rw (k, m) refl, rw (l, n) (sym h))

  passed_lem :
      (idx : VectorIndex F32) (query : List F32) (out : List (ℤ × F32))
      → Fits fl idx.dim query
      → passed fl (check_query fl idx query) (some out) ≡ some (ok out)
  unfolding check_query query_error passed
  passed_lem idx query out (l, f) =
      rw ((==_iff (length query) idx.dim).1 l, (find_bad_iff fl 0 query).1 f) refl

  nonempty : {A : Type 0} (xs : List A) → 0 < length xs → is_empty xs ≡ false
  nonempty [] h = absurd (omega arith)
  nonempty (x ∷ xs) h = refl

  -- For a query of the index's dimension with finite components and a norm that is not 0, a search of
  -- an index that is valid and not empty, for at least one hit and fewer than 2^59 - 1, so that the
  -- heap's capacity can be asked for, does not panic. Its answer is made of the k hits that the heap's
  -- order pops last among those of all candidate rows, sorted by score, however Rayon splits the rows
  -- between threads and joins the heaps, as long as it leaves out none and keeps their order, and in
  -- whatever order a heap gives its elements.
  pub search-best :
      (idx : VectorIndex F32) (query : List F32) (k : ℕ) (allowed : Option (List ℤ))
      (split : List ℕ → Split ℕ) (iter : Split (Hit fl) → List (Hit fl) → List (Hit fl))
      → Valid idx
      → Fits fl idx.dim query
      → 0 < k
      → 16 * (k + 1) < 2 ^ 63
      → 0 < length idx.keys
      → eq_f (norm_of fl query) zero_f ≡ false
      → ((rows : List ℕ) → elements (split rows) ≡ rows)
      → ((u : Split (Hit fl)) (xs : List (Hit fl)) → Permᴰ (iter u xs) xs)
      → (hs : List (Hit fl)) × (hits fl idx (unit_query fl query) (candidates fl idx allowed)
          ≡ some hs)
        × (search fl idx query k allowed split iter
            ≡ some (ok (answered fl (last_of (heap_order fl) k (pushes (heap_order fl) hs [])))))
  unfolding search search_rows ranked answered
  search-best idx query k allowed split iter v fit some_k room some_keys norm splits perm =
      let rows = candidates fl idx allowed in
      let q = unit_query fl query in
      let (hs, e) = hits-some idx q rows v (candidates-Below idx allowed v) in
      let (t, f, g) = scored_lem idx q (split rows) {hs = hs} (rw (splits rows) e) in
      let wanted : (k == 0) ≡ false = ground arith in
      let best = heap_of_lem (heap_order fl) iter k t perm room in
      let top = last_of (heap_order fl) k (pushes (heap_order fl) hs []) in
      let sorted = ap (map (pair fl)) (pushes-Perm (answer_order fl) (perm t top) []) in
      (
        hs,
        e,
        rw (wanted, nonempty idx.keys some_keys, norm, f, best, g, sorted)
            (passed_lem idx query _ fit),
      )
