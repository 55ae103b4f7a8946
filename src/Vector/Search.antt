-- ===== src/Vector/Search.antt =====
-- crates/m3-vector/src/index.rs: `search`, the best keys by the score of their rows. Rayon hands
-- chunks of the rows to threads and joins their heaps; how it does is a parameter.
pub mod Best
use m3_core_rs.Base.{
  ℕ, zero, suc, ◌+◌, ◌*◌, ◌≡◌, refl, Bool, true, false, not, ◌||◌, Option, none, some, List, [],
  ◌∷◌, ◌++◌, map, arith, ◌==◌, if◌then◌else◌, length, is_empty, get_elem?, slice, ℤ, int_le,
  int_le_total, int_le_trans, int_le_antisym, ascii,
}
use m3_core_rs.Errors.{M3Error, vector_dim_mismatch, config, Result, ok, err, decimal}
use m3_core_rs.Vector.Single.{Single}
use m3_core_rs.Vector.Index.{VectorIndex, ◌>>=◌}
use m3_core_rs.Vector.Upsert.{find_bad, fold, norm_of}
use m3_core_rs.Vector.Heap.{LinearOrder, pushes, Split, chunk, join, heap_of}

-- The numbers from the first argument on, as many as the second.
abbrev pub range : ℕ → ℕ → List ℕ
range from zero = []
range from (suc n) = from ∷ range (suc from) n

abbrev found : Option ℕ → List ℕ → List ℕ
found none rows = rows
found (some i) rows = i ∷ rows

-- `filter_map` of the positions.
abbrev pub known : (ℤ → Option ℕ) → List ℤ → List ℕ
known at [] = []
known at (key ∷ keys) = found (at key) (known at keys)

module _ (fl : Single) where
  open fl use {F32, zero_f, add, mul, div, of_i8, eq_f, total_le, shown}

  pub record Hit : Type 0 where
    pub score : F32
    pub key : ℤ

  -- By score, and then the lower key first.
  abbrev pub by_score : (F32 → F32 → Bool) → Hit → Hit → Bool
  by_score le a b =
      if le a.score b.score
      then (if le b.score a.score then int_le a.key b.key else true)
      else false

  products : List ℤ → List F32 → List F32
  products [] q = []
  products (c ∷ row) [] = []
  products (c ∷ row) (x ∷ q) = mul (of_i8 c) x ∷ products row q

  unfoldable pub score : VectorIndex F32 → List F32 → ℕ → Option F32
  unfolding products fold
  score idx q i = do
    row ← slice (i * idx.dim) idx.dim idx.codes
    scale ← get_elem? idx.scales i
    some (mul (fold fl add zero_f (products row q)) scale)

  unfoldable pub hit : VectorIndex F32 → List F32 → ℕ → Option Hit
  unfolding score
  hit idx q i = do
    s ← score idx q i
    key ← get_elem? idx.keys i
    let h : Hit = record { score = s; key = key }
    some h

  unfoldable pub hits : VectorIndex F32 → List F32 → List ℕ → Option (List Hit)
  unfolding hit
  hits idx q [] = some []
  hits idx q (i ∷ rows) = do h ← hit idx q i; rest ← hits idx q rows; some (h ∷ rest)

  unfoldable pub scored : VectorIndex F32 → List F32 → Split ℕ → Option (Split Hit)
  unfolding hits
  scored idx q (chunk rows) = do hs ← hits idx q rows; some (chunk hs)
  scored idx q (join a b) = do x ← scored idx q a; y ← scored idx q b; some (join x y)

  -- The rows of the allowed keys, or all rows.
  abbrev pub candidates : VectorIndex F32 → Option (List ℤ) → List ℕ
  candidates idx none = range 0 (length idx.keys)
  candidates idx (some keys) = known idx.pos_of keys

  query_error : ℕ → Option (ℕ × F32) → Result (Unit {0})
  unfolding decimal
  query_error dim none = ok tt
  query_error dim (some (i, x)) = err (
      config (
        ascii "query has a non-finite component "
        ++ shown x
        ++ ascii " at index "
        ++ decimal i
        ++ ascii " (dim "
        ++ decimal dim
        ++ ascii ")"))

  unfoldable pub check_query : VectorIndex F32 → List F32 → Result (Unit {0})
  unfolding query_error find_bad
  check_query idx query =
      if not (length query == idx.dim)
      then err (vector_dim_mismatch idx.dim (length query) none)
      else query_error idx.dim (find_bad fl 0 query)

  abbrev pub pair : Hit → ℤ × F32
  pair h = (h.key, h.score)

-- Orders by score are linear.
module _ (fl : Single) (le : fl.F32 → fl.F32 → Bool)
    (total : (x y : fl.F32) → le x y ≡ false → le y x ≡ true)
    (trans : (x y z : fl.F32) → le x y ≡ true → le y z ≡ true → le x z ≡ true)
    (antisym : (x y : fl.F32) → le x y ≡ true → le y x ≡ true → x ≡ y) where
  pub by_score_total : (a b : Hit fl) → by_score fl le a b ≡ false → by_score fl le b a ≡ true
  by_score_total a b h = ground (arith, total a.score b.score, int_le_total a.key b.key)

  pub by_score_trans :
      (a b c : Hit fl)
      → by_score fl le a b ≡ true
      → by_score fl le b c ≡ true
      → by_score fl le a c ≡ true
  by_score_trans a b c h k = ground (
    arith,
    trans a.score b.score c.score,
    trans c.score a.score b.score,
    trans b.score c.score a.score,
    int_le_trans a.key b.key c.key,
  )

  hit_eq : (a b : Hit fl) → a.score ≡ b.score → a.key ≡ b.key → a ≡ b
  hit_eq a b e f = λ i. record { score = e i; key = f i }

  pub by_score_antisym :
      (a b : Hit fl) → by_score fl le a b ≡ true → by_score fl le b a ≡ true → a ≡ b
  by_score_antisym a b h k =
      hit_eq a b (ground (arith, antisym a.score b.score))
        (ground (arith, int_le_antisym a.key b.key))

  abbrev pub by_score_order : LinearOrder (Hit fl)
  by_score_order = record {
    ge = by_score fl le;
    ge_total = by_score_total;
    ge_trans = by_score_trans;
    ge_antisym = by_score_antisym;
  }

module _ (fl : Single) where
  open fl use {F32, zero_f, div, eq_f, total_le, total_le_total, total_le_trans, total_le_antisym}

  -- `Ord`: the lower score is the greater hit, and of equal scores the lower key.
  abbrev pub heap_order : LinearOrder (Hit fl)
  heap_order = by_score_order fl total_le total_le_total total_le_trans total_le_antisym

  -- The order of the answer: the higher score comes first, and of equal scores the lower key.
  abbrev pub answer_order : LinearOrder (Hit fl)
  answer_order =
      by_score_order fl (λ x y. total_le y x) (λ x y. total_le_total y x)
        (λ x y z h k. total_le_trans z y x k h) (λ x y h k. total_le_antisym x y k h)

  -- `into_iter`, `sort_by` and the pairs.
  unfoldable pub answered : List (Hit fl) → List (ℤ × F32)
  answered top = map (pair fl) (pushes answer_order top [])

  ranked :
      (Split (Hit fl) → List (Hit fl) → List (Hit fl))
      → ℕ
      → Option (Split (Hit fl))
      → Option (List (ℤ × F32))
  unfolding answered heap_of
  ranked iter k none = none
  ranked iter k (some t) = do top ← heap_of heap_order iter k t; some (answered (iter t top))

  passed : Result (Unit {0}) → Option (List (ℤ × F32)) → Option (Result (List (ℤ × F32)))
  passed (err e) out = some (err e)
  passed (ok u) none = none
  passed (ok u) (some out) = some (ok out)

  -- The query at length one.
  unfoldable pub unit_query : List F32 → List F32
  unit_query query = map (λ x. div x (norm_of fl query)) query

  unfoldable pub search_rows :
      VectorIndex F32
      → List F32
      → ℕ
      → Option (List ℤ)
      → (List ℕ → Split ℕ)
      → (Split (Hit fl) → List (Hit fl) → List (Hit fl))
      → Option (List (ℤ × F32))
  unfolding ranked scored unit_query norm_of
  search_rows idx query k allowed split iter =
      if k == 0 || is_empty idx.keys
      then some []
      else if eq_f (norm_of fl query) zero_f
      then some []
      else ranked iter k (scored fl idx (unit_query query) (split (candidates fl idx allowed)))

  -- `split` is what Rayon makes of `par_chunks` and `reduce`, `iter` the `into_iter` of a heap.
  unfoldable pub search :
      VectorIndex F32
      → List F32
      → ℕ
      → Option (List ℤ)
      → (List ℕ → Split ℕ)
      → (Split (Hit fl) → List (Hit fl) → List (Hit fl))
      → Option (Result (List (ℤ × F32)))
  unfolding check_query search_rows passed
  search idx query k allowed split iter =
      passed (check_query fl idx query) (search_rows idx query k allowed split iter)
