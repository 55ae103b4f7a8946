-- ===== src/Vector/Heap.antt =====
-- crates/m3-vector/src/index.rs: the bounded heaps of `search`, over a linear order, and how Rayon
-- splits a search between them.
pub mod Ordered
pub mod Kept
use m3_core_rs.Base.{
  ℕ, suc, ◌+◌, ◌-◌, ◌≤◌, ◌≡◌, refl, sym, ap, ◌∙◌, ◌⊎◌, inl, inr, Bool, true, false, List, [], ◌∷◌,
  ◌++◌, ◌*◌, ◌^◌, ◌%◌, Option, none, some, arith, ltb, if◌then◌else◌, Bool-cases, length,
  length-drop, drop, keep, All,
}
use m3_core_rs.Vector.Index.{◌>>=◌}

-- `ge a b`: `a.cmp(b)` is not Less, so that a is popped before b.
pub record LinearOrder (A : Type 0) : Type 0 where
  pub ge : A → A → Bool
  pub ge_total : (a b : A) → ge a b ≡ false → ge b a ≡ true
  pub ge_trans : (a b c : A) → ge a b ≡ true → ge b c ≡ true → ge a c ≡ true
  pub ge_antisym : (a b : A) → ge a b ≡ true → ge b a ≡ true → a ≡ b

-- How elements are split between heaps, and which heaps are joined.
pub data Split (A : Type 0) : Type 0 where
  chunk : List A → Split A
  join : Split A → Split A → Split A

-- `BinaryHeap::with_capacity` for elements of 16 bytes, as a `Hit` is: the memory of an allocation
-- has fewer than 2^63 bytes. `none` is the panic.
unfoldable pub with_capacity : {A : Type 0} → ℕ → Option (List A)
with_capacity n = if ltb (16 * n) (2 ^ 63) then some [] else none

abbrev pub elements : {A : Type 0} → Split A → List A
elements (chunk hs) = hs
elements (join a b) = elements a ++ elements b

module _ {A : Type 0} (order : LinearOrder A) where
  open order use {ge}

  -- A `BinaryHeap` as the list of its elements, the next to be popped in front.
  unfoldable pub push : A → List A → List A
  push h [] = h ∷ []
  push h (x ∷ xs) = let rest = push h xs in if ge h x then h ∷ x ∷ xs else x ∷ rest

  unfoldable pub pushes : List A → List A → List A
  unfolding push
  pushes [] xs = xs
  pushes (h ∷ hs) xs = pushes hs (push h xs)

  -- `push`, and `pop` if the heap is then longer than k.
  unfoldable pub push_within : ℕ → A → List A → List A
  unfolding push
  push_within k h xs = let grown = push h xs in if ltb k (length grown) then drop 1 grown else grown

  unfoldable pub push_all_within : ℕ → List A → List A → List A
  unfolding push_within
  push_all_within k [] xs = xs
  push_all_within k (h ∷ hs) xs = push_all_within k hs (push_within k h xs)

  -- The k last of a list.
  abbrev pub last_of : ℕ → List A → List A
  last_of k xs = drop (length xs - k) xs

  -- A chunk has at least one row: without rows there is only the heap that `reduce` starts from. A sum
  -- of 64 bits wraps; a build with overflow checks panics there. `iter` is the order in which a heap,
  -- built like this, gives its elements.
  unfoldable pub heap_of : (Split A → List A → List A) → ℕ → Split A → Option (List A)
  unfolding push_all_within with_capacity
  heap_of iter k (chunk []) = some []
  heap_of iter k (chunk (h ∷ hs)) = do
    heap ← with_capacity ((k + 1) % 2 ^ 64)
    some (push_all_within k (h ∷ hs) heap)
  heap_of iter k (join a b) = do
    x ← heap_of iter k a
    y ← heap_of iter k b
    some (push_all_within k (iter b y) x)
