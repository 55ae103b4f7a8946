-- ===== src/Dispatchd/Hub/Accounts/Order.antt =====
-- Rings in the order of their sequence numbers, and what a cursor cuts off.
use m3_core_rs.Base.{
  ℕ, ◌+◌, ◌≤◌, ◌<◌, ◌≡◌, refl, ap, ◌∙◌, Option, List, [], ◌∷◌, ◌++◌, Text, length, length-append,
  keep-append, arith,
}
use mathlib.Core.Path.{subst}
use m3_core_rs.Dispatchd.Hub.{Ring, matching, unheard, last_seq}
use m3_core_rs.Dispatchd.Hub.Trimming.{rings_of}

-- The sequence numbers rise from above `lo` and stay within `hi`.
abbrev pub Asc : ℕ → List Ring → ℕ → Type 0
Asc lo [] hi = lo ≤ hi
Asc lo (r ∷ rs) hi = (lo < r.seq) × Asc r.seq rs hi

pub Asc-append :
    (lo mid hi : ℕ) (rs qs : List Ring) → Asc lo rs mid → Asc mid qs hi → Asc lo (rs ++ qs) hi
Asc-append lo mid hi [] [] a b = omega arith
Asc-append lo mid hi [] (q ∷ qs) a b = (omega arith, b.1)
Asc-append lo mid hi (r ∷ rs) qs a b = (a.0, Asc-append r.seq mid hi rs qs a.1 b)

pub Asc-le : (rs : List Ring) (lo hi : ℕ) → Asc lo rs hi → lo ≤ hi
Asc-le [] lo hi a = a
Asc-le (r ∷ rs) lo hi a = omega (arith, Asc-le rs r.seq hi a.1)

pub Asc-suffix : (lo hi : ℕ) (rs qs : List Ring) → Asc lo (rs ++ qs) hi → Asc lo qs hi
Asc-suffix lo hi [] qs a = a
Asc-suffix lo hi (r ∷ rs) [] a = Asc-le (r ∷ rs ++ []) lo hi a
Asc-suffix lo hi (r ∷ rs) (q ∷ qs) a =
    let rest = Asc-suffix r.seq hi rs (q ∷ qs) a.1 in (omega arith, rest.1)

pub rings_of-Asc :
    (origin : Option Text) (now seq : ℕ) (ts : List Text)
    → Asc seq (rings_of origin now seq ts) (seq + length (rings_of origin now seq ts))
unfolding rings_of
rings_of-Asc origin now seq [] = omega arith
rings_of-Asc origin now seq ([] ∷ ts) = rings_of-Asc origin now seq ts
rings_of-Asc origin now seq ((c ∷ t) ∷ ts) = (
  omega arith,
  subst (λ (n : ℕ). Asc (seq + 1) (rings_of origin now (seq + 1) ts) n) (omega arith)
      (rings_of-Asc origin now (seq + 1) ts),
)

module _ (readers : List Text) where
  -- A cursor at or past the last number has nothing left to hear.
  pub matching_past :
      (cursor lo hi : ℕ) (rs : List Ring)
      → Asc lo rs hi
      → hi ≤ cursor
      → matching cursor readers rs ≡ []
  matching_past cursor lo hi [] a h = refl
  matching_past cursor lo hi (r ∷ rs) a h =
      ground (arith, Asc-le rs r.seq hi a.1, matching_past cursor r.seq hi rs a.1 h)

  -- Below the first number every cursor cuts alike.
  matching_below :
      (c d lo hi : ℕ) (rs : List Ring)
      → Asc lo rs hi
      → c ≤ lo
      → d ≤ lo
      → matching c readers rs ≡ matching d readers rs
  matching_below c d lo hi [] a h k = refl
  matching_below c d lo hi (r ∷ rs) a h k =
      let rest : matching c readers rs ≡ matching d readers rs =
        matching_below c d r.seq hi rs a.1 (omega arith) (omega arith) in
      ground arith

  pub last_seq-bounds :
      (c lo hi : ℕ) (rs : List Ring)
      → Asc lo rs hi
      → c ≤ hi
      → (c ≤ last_seq c (matching c readers rs)) × (last_seq c (matching c readers rs) ≤ hi)
  unfolding last_seq
  last_seq-bounds c lo hi [] a h = (omega arith, h)
  last_seq-bounds c lo hi (r ∷ rs) a h =
      let le = Asc-le rs r.seq hi a.1 in
      ground (
        arith,
        matching_below c r.seq r.seq hi rs a.1,
        last_seq-bounds r.seq r.seq hi rs a.1 le,
        last_seq-bounds c r.seq hi rs a.1 h,
      )

  -- Once a cursor moves to the last ring that it let through, nothing is left to hear.
  pub matching-last_seq :
      (c lo hi : ℕ) (rs : List Ring)
      → Asc lo rs hi
      → c ≤ hi
      → matching (last_seq c (matching c readers rs)) readers rs ≡ []
  unfolding last_seq
  matching-last_seq c lo hi [] a h = refl
  matching-last_seq c lo hi (r ∷ rs) a h =
      let le = Asc-le rs r.seq hi a.1 in
      ground (
        arith,
        matching_below c r.seq r.seq hi rs a.1,
        last_seq-bounds r.seq r.seq hi rs a.1 le,
        last_seq-bounds c r.seq hi rs a.1 h,
        matching-last_seq r.seq r.seq hi rs a.1 le,
        matching-last_seq c r.seq hi rs a.1 h,
      )

  -- What an earlier cursor has heard, a later one has heard too.
  pub matching-later :
      (c d : ℕ) (rs : List Ring) → c ≤ d → matching c readers rs ≡ [] → matching d readers rs ≡ []
  matching-later c d [] h e = refl
  matching-later c d (r ∷ rs) h e = ground (arith, matching-later c d rs h)

  length-nil {ℓ} : {A : Type ℓ} (xs : List A) → length xs ≡ 0 → xs ≡ []
  length-nil [] e = refl
  length-nil (x ∷ xs) e = absurd (omega arith)

  -- What left a log that holds everything for a cursor was heard by the later ones too.
  pub matching-rest :
      (c d : ℕ) (gone rest : List Ring)
      → c ≤ d
      → matching c readers (gone ++ rest) ≡ matching c readers rest
      → matching d readers (gone ++ rest) ≡ matching d readers rest
  matching-rest c d gone rest h e =
      let none_gone : length (matching c readers gone) ≡ 0 = omega (
        arith,
        ap length e,
        ap length (keep-append (unheard c readers) gone rest),
        length-append (matching c readers gone) (matching c readers rest),
      ) in
      keep-append (unheard d readers) gone rest
      ∙ ap (λ qs. qs ++ matching d readers rest)
          (matching-later c d gone h (length-nil (matching c readers gone) none_gone))
