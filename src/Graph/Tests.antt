-- ===== src/Graph/Tests.antt =====
-- A graph of three nodes, and the theorems on it.
use m3_core_rs.Base.{
  ℕ, zero, suc, ◌≤◌, ◌<◌, ◌≡◌, refl, Option, none, some, List, [], ◌∷◌, arith, All, take, Text,
  ascii, text_eq, if◌then◌else◌,
}
use m3_core_rs.Graph.{bfs, expand}
use m3_core_rs.Graph.Walks.{times, Walked}
use m3_core_rs.Graph.Closure.{Closed, bfs-explores}
use m3_core_rs.Graph.Expansion.{firsts, around, expand-take}

abbrev targets : ℕ → List ℕ
targets zero = 1 ∷ 2 ∷ []
targets (suc zero) = 2 ∷ 1 ∷ []
targets (suc (suc idx)) = 0 ∷ []

targets_bounded : (idx : ℕ) → All (λ c. c < 3) (targets idx)
targets_bounded zero = (omega arith, (omega arith, tt))
targets_bounded (suc zero) = (omega arith, (omega arith, tt))
targets_bounded (suc (suc idx)) = (omega arith, tt)

abbrev name : ℕ → Text
name zero = ascii "a"
name (suc zero) = ascii "b"
name (suc (suc idx)) = ascii "c"

abbrev id_of : Text → Option ℕ
id_of id =
    if text_eq id (ascii "a")
    then some 0
    else if text_eq id (ascii "b")
    then some 1
    else if text_eq id (ascii "c")
    then some 2
    else none

bfs_test : bfs targets 3 1 (0 ∷ []) ((0, 0) ∷ []) ≡ (0, 0) ∷ (1, 1) ∷ (2, 1) ∷ []
unfolding bfs
bfs_test = refl

expand_test : expand targets name id_of 3 (ascii "b" ∷ ascii "c" ∷ []) 2 10 ≡ ascii "a" ∷ []
unfolding expand text_eq
expand_test = refl

bfs-explores_example :
    let out = bfs targets 3 1 (0 ∷ []) ((0, 0) ∷ []) in
    All (Walked targets 0 1) out
    × ((c : ℕ) → times c out ≤ 1)
    × (times 0 out ≡ 1)
    × All (Closed targets (λ c. times c out) 1) out
bfs-explores_example = bfs-explores targets 3 3 1 0 targets_bounded (omega arith) (omega arith)

expand-take_example :
    expand targets name id_of 3 (ascii "b" ∷ []) 2 1
    ≡ take 1 (firsts (ascii "b" ∷ []) [] (around targets name id_of 3 2 (ascii "b" ∷ [])))
expand-take_example = expand-take targets name id_of 3 (ascii "b" ∷ []) 2 1
