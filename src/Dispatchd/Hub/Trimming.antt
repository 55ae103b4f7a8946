-- ===== src/Dispatchd/Hub/Trimming.antt =====
-- The trimming of the log: what leaves it is marked for every reader set that had not heard of it.
use m3_core_rs.Base.{
  ℕ, ◌+◌, ◌-◌, ◌≤◌, ◌<◌, ◌≡◌, refl, ap, ◌∙◌, ◌⊎◌, inl, inr, Bool, false, ◌||◌, Option, none, some,
  List, [], ◌∷◌, ◌++◌, ltb, if◌then◌else◌, Text, length, lookup, lookup-insert, Uniq, text_eq,
  text_eq_iff, text_eq_refl, arith, Bool-cases, is_empty,
}
use mathlib.Core.List.{append-nil, append_assoc}
use m3_core_rs.Dispatchd.Keys.{newline, split_on}
use m3_core_rs.Dispatchd.Hub.{
  Ring, State, Hub, count_of, bump, unheard, matching, push_rings, mark_lost, trim, trimmed, ring,
}

-- Whether a trimmed ring is marked for a reader set, by its cursor.
abbrev pub hits : Ring → Text → Option ℕ → Bool
hits gone k none = false
hits gone k (some cursor) = unheard cursor (split_on newline k) gone

lookup-bump :
    (k j : Text) (m : List (Text × ℕ))
    → lookup j (bump k m) ≡ (if text_eq k j then some (count_of k m + 1) else lookup j m)
unfolding bump
lookup-bump k j m = lookup-insert k j (count_of k m + 1) m

-- One mark at most for each reader set, and exactly for those that the ring would have reached.
pub lookup-mark_lost :
    (gone : Ring) (cursors lost : List (Text × ℕ)) (k : Text)
    → Uniq cursors
    → lookup k (mark_lost gone cursors lost)
      ≡ (if hits gone k (lookup k cursors) then some (count_of k lost + 1) else lookup k lost)
unfolding mark_lost lookup
lookup-mark_lost gone [] lost k u = refl
lookup-mark_lost gone ((j, c) ∷ cs) lost k u =
    let marked = if unheard c (split_on newline j) gone then bump j lost else lost in
    let rest = lookup-mark_lost gone cs marked k u.1 in
    elim (Bool-cases (text_eq j k)) [
      | inl same ↦
          let e : j ≡ k = (text_eq_iff j k).0 same in
          rest ∙ (ground (arith, lookup-bump j k lost, text_eq_refl k, u.0))
      | inr other ↦ rest ∙ (ground (arith, lookup-bump j k lost))
    ]

-- The readers that a key names.
abbrev pub readers_of : Text → List Text
readers_of = split_on newline

-- The front of the log is young enough, and the log short enough.
abbrev pub Fresh : Hub → ℕ → List Ring → Type 0
Fresh h now [] = Unit
Fresh h now (r ∷ rs) = (length (r ∷ rs) ≤ h.max_log) × (now - r.rung_at ≤ h.keep_for)

module _ (h : Hub) (now : ℕ) (cursors : List (Text × ℕ)) (u : Uniq cursors) where
  -- For a registered reader set, what trimming takes from the pending rings it adds to the marks.
  pub trim-conserves :
      (log : List Ring) (lost : List (Text × ℕ)) (k : Text) (c : ℕ)
      → lookup k cursors ≡ some c
      → let t = trim h now cursors log lost in
        length (matching c (readers_of k) log) + count_of k lost
        ≡ length (matching c (readers_of k) t.0) + count_of k t.1
  unfolding trim
  trim-conserves [] lost k c e = refl
  trim-conserves (r ∷ rs) lost k c e = ground (
    arith,
    lookup-mark_lost r cursors lost k u,
    trim-conserves rs (mark_lost r cursors lost) k c e,
  )

  pub trim-unregistered :
      (log : List Ring) (lost : List (Text × ℕ)) (k : Text)
      → lookup k cursors ≡ none
      → lookup k (trim h now cursors log lost).1 ≡ lookup k lost
  unfolding trim
  trim-unregistered [] lost k e = refl
  trim-unregistered (r ∷ rs) lost k e = ground (
    arith,
    lookup-mark_lost r cursors lost k u,
    trim-unregistered rs (mark_lost r cursors lost) k e,
  )

  pub trim-positive :
      (log : List Ring) (lost : List (Text × ℕ)) (k : Text) (n : ℕ)
      → (lookup k lost ≡ none) ⊎ (0 < count_of k lost)
      → lookup k (trim h now cursors log lost).1 ≡ some n
      → 0 < n
  unfolding trim
  trim-positive [] lost k n p e = ground arith
  trim-positive (r ∷ rs) lost k n p e =
      ground (
        arith,
        lookup-mark_lost r cursors lost k u,
        trim-positive rs (mark_lost r cursors lost) k n,
      )

  pub trim-suffix :
      (log : List Ring) (lost : List (Text × ℕ))
      → (dropped : List Ring) × (log ≡ dropped ++ (trim h now cursors log lost).0)
  unfolding trim
  trim-suffix [] lost = ([], refl)
  trim-suffix (r ∷ rs) lost =
      elim (Bool-cases (ltb h.max_log (length (r ∷ rs)) || ltb h.keep_for (now - r.rung_at))) [
        | inl over ↦
            let (dropped, e) = trim-suffix rs (mark_lost r cursors lost) in
            rw over (r ∷ dropped, ap (◌∷◌ r) e)
        | inr fits ↦ rw fits ([], refl)
      ]

  pub trim-Fresh :
      (log : List Ring) (lost : List (Text × ℕ)) → Fresh h now (trim h now cursors log lost).0
  unfolding trim
  trim-Fresh [] lost = tt
  trim-Fresh (r ∷ rs) lost =
      elim (Bool-cases (ltb h.max_log (length (r ∷ rs)) || ltb h.keep_for (now - r.rung_at))) [
        | inl over ↦ rw over (trim-Fresh rs (mark_lost r cursors lost))
        | inr fits ↦ rw fits (ground arith)
      ]

-- The rings that one call adds, numbered from behind `seq`.
unfoldable pub rings_of : Option Text → ℕ → ℕ → List Text → List Ring
rings_of origin now seq [] = []
rings_of origin now seq (t ∷ ts) =
    let skipped = rings_of origin now seq ts in
    let rest = rings_of origin now (seq + 1) ts in
    if is_empty t
    then skipped
    else record { seq = seq + 1; recipient = t; origin = origin; rung_at = now } ∷ rest

pub push_rings-rings_of :
    (origin : Option Text) (now : ℕ) (ts : List Text) (st : State)
    → push_rings origin now ts st ≡ record st {
      seq = st.seq + length (rings_of origin now st.seq ts);
      log = st.log ++ rings_of origin now st.seq ts;
    }
unfolding push_rings rings_of
push_rings-rings_of origin now [] st = ground (arith, append-nil st.log)
push_rings-rings_of origin now ([] ∷ ts) st = push_rings-rings_of origin now ts st
push_rings-rings_of origin now ((c ∷ t) ∷ ts) st =
    let r : Ring = record { seq = st.seq + 1; recipient = c ∷ t; origin = origin; rung_at = now } in
    let rest = rings_of origin now (st.seq + 1) ts in
    push_rings-rings_of origin now ts (record st { seq = st.seq + 1; log = st.log ++ r ∷ [] })
    ∙ (ground (arith, append_assoc st.log (r ∷ []) rest))

pub ring-cursors :
    (h : Hub) (now : ℕ) (ts : List Text) (origin : Option Text) (st : State) (k : Text)
    → lookup k (ring h now ts origin st).0.cursors ≡ lookup k st.cursors
unfolding ring trimmed
ring-cursors h now ts origin st k = rw (push_rings-rings_of origin now ts st) refl
