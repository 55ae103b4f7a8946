-- ===== src/Dispatchd/Keys.antt =====
-- crates/m3-dispatchd/src/hub.rs, `Hub::key` and the `split('\n')` of a key: a reader set and the
-- text that names it.
pub mod Sets
pub mod Readers
use m3_core_rs.Base.{
  ℕ, Bool, not, List, [], ◌∷◌, ◌++◌, ◌==◌, if◌then◌else◌, Text, keep, is_empty, text_eq, text_lt,
}

abbrev pub newline : ℕ
newline = 10

cons_first : ℕ → List Text → List Text
cons_first c [] = (c ∷ []) ∷ []
cons_first c (t ∷ ts) = (c ∷ t) ∷ ts

-- `str::split(sep)`: at least one part.
unfoldable pub split_on : ℕ → Text → List Text
unfolding cons_first
split_on sep [] = [] ∷ []
split_on sep (c ∷ s) =
    let rest = split_on sep s in if c == sep then [] ∷ rest else cons_first c rest

-- `[String]::join(sep)` with a separator of one byte.
unfoldable pub join : ℕ → List Text → Text
join sep [] = []
join sep (t ∷ []) = t
join sep (t ∷ u ∷ us) = t ++ sep ∷ join sep (u ∷ us)

-- `BTreeSet<String>` as its ascending list.
unfoldable pub set_insert : Text → List Text → List Text
set_insert t [] = t ∷ []
set_insert t (u ∷ us) =
    if text_eq t u then u ∷ us else if text_lt t u then t ∷ u ∷ us else u ∷ set_insert t us

unfoldable pub collect : List Text → List Text
unfolding set_insert
collect [] = []
collect (t ∷ ts) = set_insert t (collect ts)

unfoldable pub key : List Text → Text
unfolding collect join
key readers = join newline (collect (keep (λ r. not (is_empty r)) readers))
