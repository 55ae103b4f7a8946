-- ===== src/Graph/Expansion.antt =====
-- What `expand` returns, by a description without a limit.
use m3_core_rs.Base.{
  ℕ, zero, suc, ◌≤◌, ◌<◌, ◌≡◌, refl, sym, ap, ◌∙◌, inl, inr, Bool, true, false, ◌||◌, Option, List,
  [], ◌∷◌, ◌++◌, arith, leb, ◌==◌, if◌then◌else◌, Bool-cases, length, length-append, take, Text,
}
use mathlib.Core.List.{append_assoc, append-nil}
use m3_core_rs.Graph.{elem, Found, collect, neighbors_within, over_seeds, expand}

-- The names in order of their first occurrence, without seeds and without those seen before.
abbrev pub firsts : List Text → List Text → List (Text × ℕ) → List Text
firsts seeds seen [] = []
firsts seeds seen ((id, dist) ∷ ids) =
    let skip = firsts seeds seen ids in
    let more = firsts seeds (id ∷ seen) ids in
    if elem id seeds || elem id seen then skip else id ∷ more

take_all : (n : ℕ) (xs : List Text) → length xs ≤ n → take n xs ≡ xs
take_all zero [] h = refl
take_all zero (x ∷ xs) h = absurd (omega arith)
take_all (suc n) [] h = refl
take_all (suc n) (x ∷ xs) h = ap (◌∷◌ x) (take_all n xs (omega arith))

take_exact : (xs ys : List Text) → take (length xs) (xs ++ ys) ≡ xs
take_exact [] ys = refl
take_exact (x ∷ xs) ys = ap (◌∷◌ x) (take_exact xs ys)

firsts_known :
    (seeds seen : List Text) (id : Text) (dist : ℕ) (ids : List (Text × ℕ))
    → (elem id seeds || elem id seen) ≡ true
    → firsts seeds seen ((id, dist) ∷ ids) ≡ firsts seeds seen ids
firsts_known seeds seen id dist ids h = rw h refl

firsts_fresh :
    (seeds seen : List Text) (id : Text) (dist : ℕ) (ids : List (Text × ℕ))
    → (elem id seeds || elem id seen) ≡ false
    → firsts seeds seen ((id, dist) ∷ ids) ≡ id ∷ firsts seeds (id ∷ seen) ids
firsts_fresh seeds seen id dist ids h = rw h refl

-- What the inner loop leaves of a whole, with more names behind its own.
Collected : List Text → ℕ → List Text → List (Text × ℕ) → Found × Bool → Type 0
Collected seeds limit whole more (st, false) =
    (whole ≡ st.out ++ firsts seeds st.emitted more) × (length st.out < limit)
Collected seeds limit whole more (st, true) = st.out ≡ take limit whole

full_out :
    (limit : ℕ) (out : List Text) (id : Text) (rest : List Text)
    → length out < limit
    → leb limit (length (out ++ id ∷ [])) ≡ true
    → out ++ id ∷ [] ≡ take limit (out ++ id ∷ rest)
full_out limit out id rest h full =
    let n : length (out ++ id ∷ []) ≡ limit = ground (arith, length-append out (id ∷ [])) in
    sym (
      ap (λ k. take k (out ++ id ∷ rest)) (sym n)
      ∙ ap (take (length (out ++ id ∷ []))) (sym (append_assoc out (id ∷ []) rest))
      ∙ take_exact (out ++ id ∷ []) rest)

collect-Collected :
    (seeds : List Text) (limit : ℕ) (ids : List (Text × ℕ)) (st : Found) (whole : List Text)
    (more : List (Text × ℕ))
    → length st.out < limit
    → whole ≡ st.out ++ firsts seeds st.emitted (ids ++ more)
    → Collected seeds limit whole more (collect seeds limit ids st)
unfolding collect Collected
collect-Collected seeds limit [] st whole more h w = (w, h)
collect-Collected seeds limit ((id, dist) ∷ ids) st whole more h w =
    elim (Bool-cases (elem id seeds || elem id st.emitted)) [
      | inl known ↦ rw known (
          collect-Collected seeds limit ids st whole more h
            (w ∙ ap (◌++◌ st.out) (firsts_known seeds st.emitted id dist (ids ++ more) known)))
      | inr fresh ↦
          let w' =
            w ∙ ap (◌++◌ st.out) (firsts_fresh seeds st.emitted id dist (ids ++ more) fresh) in
          let rest = firsts seeds (id ∷ st.emitted) (ids ++ more) in
          rw fresh (elim (Bool-cases (leb limit (length (st.out ++ id ∷ [])))) [
            | inl full ↦ rw full (full_out limit st.out id rest h full ∙ ap (take limit) (sym w'))
            | inr room ↦ rw room (
                collect-Collected seeds limit ids
                  (record { out = st.out ++ id ∷ []; emitted = id ∷ st.emitted }) whole more
                  (ground arith) (w' ∙ sym (append_assoc st.out (id ∷ []) rest)))
          ])
    ]

seed_done :
    (seeds : List Text) (limit : ℕ) (whole : List Text) (more : List (Text × ℕ))
    (later : Found → Found)
    → ((st : Found)
        → length st.out < limit
        → whole ≡ st.out ++ firsts seeds st.emitted more
        → (later st).out ≡ take limit whole)
    → (r : Found × Bool) → Collected seeds limit whole more r
    → (if r.1 then r.0 else later r.0).out ≡ take limit whole
unfolding Collected
seed_done seeds limit whole more later ih (st, false) c = ih st c.1 c.0
seed_done seeds limit whole more later ih (st, true) c = c

module _ (targets : ℕ → List ℕ) (name : ℕ → Text) (id_of : Text → Option ℕ) (fuel : ℕ) where
  -- The neighbours of the seeds, one seed after the other.
  abbrev pub around : ℕ → List Text → List (Text × ℕ)
  around max_hops [] = []
  around max_hops (seed ∷ rest) =
      neighbors_within targets name id_of fuel seed max_hops ++ around max_hops rest

  over_seeds-take :
      (seeds : List Text) (max_hops limit : ℕ) (rest : List Text) (st : Found) (whole : List Text)
      → length st.out < limit
      → whole ≡ st.out ++ firsts seeds st.emitted (around max_hops rest)
      → (over_seeds targets name id_of fuel seeds max_hops limit rest st).out ≡ take limit whole
  unfolding over_seeds
  over_seeds-take seeds max_hops limit [] st whole h w =
      let e : whole ≡ st.out = w ∙ append-nil st.out in
      sym (ap (take limit) e ∙ take_all limit st.out (omega arith))
  over_seeds-take seeds max_hops limit (seed ∷ rest) st whole h w =
      seed_done seeds limit whole (around max_hops rest)
        (over_seeds targets name id_of fuel seeds max_hops limit rest)
        (λ st' l e. over_seeds-take seeds max_hops limit rest st' whole l e)
        (collect seeds limit (neighbors_within targets name id_of fuel seed max_hops) st)
        (collect-Collected seeds limit (neighbors_within targets name id_of fuel seed max_hops) st
          whole (around max_hops rest) h w)

  -- `expand` returns the names that are met around the seeds, in the order in which they are met,
  -- each once and without the seeds, up to the limit.
  pub expand-take :
      (seeds : List Text) (max_hops limit : ℕ)
      → expand targets name id_of fuel seeds max_hops limit
        ≡ take limit (firsts seeds [] (around max_hops seeds))
  unfolding expand
  expand-take seeds max_hops zero = refl
  expand-take seeds max_hops (suc limit) =
      let positive : (suc limit == 0) ≡ false = ground arith in
      rw positive (
        over_seeds-take seeds max_hops (suc limit) seeds (record { out = []; emitted = [] })
          (firsts seeds [] (around max_hops seeds)) (omega arith) refl)
