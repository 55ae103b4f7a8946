-- ===== src/Dispatchd/Hub/Status.antt =====
-- The cross-agent view agrees with the account of the rings.
use m3_core_rs.Base.{
  ℕ, ◌+◌, ◌≡◌, refl, sym, ap, ◌∙◌, ◌≢◌, inl, inr, false, none, some, List, [], ◌∷◌, Text, length,
  lookup, insert, lookup-insert, Uniq, text_eq, text_eq_iff, text_eq_refl, arith, Bool-cases,
}
use m3_core_rs.Dispatchd.Keys.{key}
use m3_core_rs.Dispatchd.Hub.{State, Hub, Row, row, rows, commas, status, matching}
use m3_core_rs.Dispatchd.Hub.Accounts.Invariant.{World}
use m3_core_rs.Dispatchd.Hub.Accounts.Reached.{Plain, matching-readers_of, Reach, Reach-Inv}

-- No other set of the list shows under the name of `k`.
abbrev pub ShowsAlone : Text → List (Text × ℕ) → Type 0
ShowsAlone k [] = Unit
ShowsAlone k ((j, c) ∷ cs) = (text_eq j k ≡ false → commas j ≢ commas k) × ShowsAlone k cs

module _ (now : ℕ) (st : State) (k : Text) where
  rows-absent :
      (cs : List (Text × ℕ)) (out : List (Text × Row))
      → lookup k cs ≡ none
      → ShowsAlone k cs
      → lookup (commas k) (rows now st cs out) ≡ lookup (commas k) out
  unfolding rows lookup
  rows-absent [] out e a = refl
  rows-absent ((j, c) ∷ cs) out e a =
      let differs : text_eq j k ≡ false = ground arith in
      rows-absent cs (insert (commas j) (row now st j c) out) (ground arith) a.1
      ∙ (ground (
        arith,
        lookup-insert (commas j) (commas k) (row now st j c) out,
        text_eq_iff (commas j) (commas k),
        a.0 differs,
      ))

  rows-present :
      (cs : List (Text × ℕ)) (out : List (Text × Row)) (c : ℕ)
      → Uniq cs
      → lookup k cs ≡ some c
      → ShowsAlone k cs
      → lookup (commas k) (rows now st cs out) ≡ some (row now st k c)
  unfolding rows lookup
  rows-present [] out c u e a = cc
  rows-present ((j, d) ∷ cs) out c u e a = elim (Bool-cases (text_eq j k)) [
    | inl same ↦
        let e' : j ≡ k = (text_eq_iff j k).0 same in
        let gone : lookup k cs ≡ none = rw (← e') u.0 in
        let here : d ≡ c = ground arith in
        rows-absent cs (insert (commas j) (row now st j d) out) gone a.1
        ∙ rw (e', here)
            (lookup-insert (commas k) (commas k) (row now st k c) out
              ∙ (ground (arith, text_eq_refl (commas k))))
    | inr other ↦ rows-present cs (insert (commas j) (row now st j d) out) c u.1 (ground arith) a.1
  ]

-- In every reached world, the status row of a registered reader set whose name no other set shares
-- counts, as pending or as aged out, exactly the rings ever committed behind its cursor for its
-- readers.
status_accounts :
    (h : Hub) (w : World) (now : ℕ) (readers : List Text) (c : ℕ)
    → Reach h w
    → Plain readers
    → lookup (key readers) w.hub.cursors ≡ some c
    → ShowsAlone (key readers) w.hub.cursors
    → (r : Row) × (lookup (commas (key readers)) (status now w.hub) ≡ some r)
      × (r.pending + r.aged_out ≡ length (matching c readers w.rung))
unfolding status row
status_accounts h w now readers c r p e a =
    let v = Reach-Inv h w r in
    (
      row now w.hub (key readers) c,
      rows-present now w.hub (key readers) w.hub.cursors [] c v.uniq e a,
      sym (v.accounted (key readers) c e) ∙ ap length (matching-readers_of c readers w.rung p),
    )
