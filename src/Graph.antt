-- ===== src/Graph.antt =====
-- crates/m3-graph/src/lib.rs: the traversals of `GraphIndex`. The graph is petgraph's: the targets
-- of a node's edges, in the order in which it gives them, and the name of a node are parameters,
-- as is the map from names to nodes.
pub mod Expansion
pub mod Walks
pub mod Visits
pub mod Closure
mod Tests
use m3_core_rs.Base.{
  ℕ, zero, suc, ◌+◌, Bool, true, false, ◌||◌, Option, none, some, List, [], ◌∷◌, ◌++◌, leb, ◌==◌,
  if◌then◌else◌, any, length, Text, text_eq,
}

unfoldable pub has : ℕ → List ℕ → Bool
has n = any (λ m. n == m)

unfoldable pub elem : Text → List Text → Bool
elem id = any (text_eq id)

-- The loop over a node's edges: unseen targets are marked and queued.
unfoldable pub visit : List ℕ → ℕ → List ℕ → List (ℕ × ℕ) → List ℕ × List (ℕ × ℕ)
unfolding has
visit [] dist seen queue = (seen, queue)
visit (nbr ∷ nbrs) dist seen queue =
    let again = visit nbrs dist seen queue in
    let first = visit nbrs dist (nbr ∷ seen) (queue ++ (nbr, dist) ∷ []) in
    if has nbr seen then again else first

pub record Found : Type 0 where
  pub out : List Text
  pub emitted : List Text

-- The inner loop of `expand`, and whether it returned with the limit reached.
unfoldable pub collect : List Text → ℕ → List (Text × ℕ) → Found → Found × Bool
unfolding elem
collect seeds limit [] st = (st, false)
collect seeds limit ((id, dist) ∷ ids) st =
    let st' : Found = record { out = st.out ++ id ∷ []; emitted = id ∷ st.emitted } in
    let skip = collect seeds limit ids st in
    let more = collect seeds limit ids st' in
    if elem id seeds || elem id st.emitted
    then skip
    else if leb limit (length st'.out)
    then (st', true)
    else more

module _ (targets : ℕ → List ℕ) where
  -- The loop over the queue, with the nodes that leave it and their distances.
  unfoldable pub bfs : ℕ → ℕ → List ℕ → List (ℕ × ℕ) → List (ℕ × ℕ)
  unfolding visit
  bfs zero max_hops seen queue = []
  bfs (suc f) max_hops seen [] = []
  bfs (suc f) max_hops seen ((idx, dist) ∷ queue) =
      let (seen', queue') =
        if dist == max_hops then (seen, queue) else visit (targets idx) (dist + 1) seen queue in
      (idx, dist) ∷ bfs f max_hops seen' queue'

module _ (targets : ℕ → List ℕ) (name : ℕ → Text) (id_of : Text → Option ℕ) where
  unfoldable pub named : List (ℕ × ℕ) → List (Text × ℕ)
  named [] = []
  named ((idx, dist) ∷ out) = (name idx, dist) ∷ named out

  unfoldable pub neighbors_within : ℕ → Text → ℕ → List (Text × ℕ)
  unfolding bfs named
  neighbors_within fuel start max_hops = elim (id_of start) [
    | none ↦ []
    | some idx ↦ named (bfs targets fuel max_hops (idx ∷ []) ((idx, 0) ∷ []))
  ]

  unfoldable pub over_seeds : ℕ → List Text → ℕ → ℕ → List Text → Found → Found
  unfolding collect neighbors_within
  over_seeds fuel seeds max_hops limit [] st = st
  over_seeds fuel seeds max_hops limit (seed ∷ rest) st =
      let (st', stop) = collect seeds limit (neighbors_within fuel seed max_hops) st in
      let later = over_seeds fuel seeds max_hops limit rest st' in if stop then st' else later

  unfoldable pub expand : ℕ → List Text → ℕ → ℕ → List Text
  unfolding over_seeds
  expand fuel seeds max_hops limit =
      if limit == 0
      then []
      else (over_seeds fuel seeds max_hops limit seeds (record { out = []; emitted = [] })).out
