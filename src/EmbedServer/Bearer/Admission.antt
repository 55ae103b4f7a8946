-- ===== src/EmbedServer/Bearer/Admission.antt =====
-- Which requests go on to their route.
use m3_core_rs.Base.{
  ℕ, ◌≡◌, refl, ap, ◌∙◌, ◌↔◌, ◌⊎◌, inl, inr, true, false, not, Option, none, some, List, [], ◌∷◌,
  ◌++◌, map, arith, ◌==◌, Bool-cases, all, ascii, text_eq, text_eq_iff, Chars, to_ascii_lowercase,
  eq_ignore_ascii_case, trim,
}
use m3_core_rs.EmbedServer.{Outcome, ok, err, steps_of, not_refused}
use m3_core_rs.EmbedServer.Bearer.{
  Crypto, AuthFailure, no_header, not_bearer, ok_or, split_once, behind, token_of, check_bearer,
  Rejects, Request, runs, answer, require_bearer,
}

abbrev pub Unspaced : Chars → Type 0
Unspaced s = all (λ c. not (c == b' ')) s ≡ true

behind_iff :
    (c : ℕ) (o : Option (Chars × Chars)) (a b : Chars)
    → (behind c o ≡ some (a, b)) ↔ ((a' : Chars) × (a ≡ c ∷ a') × (o ≡ some (a', b)))
unfolding behind
behind_iff c none a b = (λ e. cc, λ (a', e, f). cc)
behind_iff c (some (x, y)) a b = (λ e. (x, ground arith, ground arith), λ (a', e, f). ground arith)

abbrev found : Chars → Option (Chars × Chars)
found s = some ([], s)

here_iff :
    (c : ℕ) (s a b : Chars)
    → (c == b' ') ≡ true
    → (found s ≡ some (a, b)) ↔ ((c ∷ s ≡ a ++ b' ' ∷ b) × Unspaced a)
here_iff c s [] b h =
    let e : c ≡ b' ' = ground arith in
    (λ f. let t : s ≡ b = ground arith in (rw (e, t) refl, refl), λ (f, u). ground arith)
here_iff c s (d ∷ a) b h = (λ f. cc, λ (f, u). absurd (ground arith))

later_iff :
    (c : ℕ) (o : Option (Chars × Chars)) (s a b : Chars)
    → (c == b' ') ≡ false
    → ((x : Chars) → (o ≡ some (x, b)) ↔ ((s ≡ x ++ b' ' ∷ b) × Unspaced x))
    → (behind c o ≡ some (a, b)) ↔ ((c ∷ s ≡ a ++ b' ' ∷ b) × Unspaced a)
later_iff c o s [] b h p =
    (λ f. let (x, e, g) = (behind_iff c o [] b).0 f in cc, λ (f, u). absurd (ground arith))
later_iff c o s (d ∷ a) b h p = (
  λ f.
      let (x, e, g) = (behind_iff c o (d ∷ a) b).0 f in
      let (q, u) = (p x).0 g in
      let same : x ≡ a = ground arith in
      let first : d ≡ c = ground arith in
      (rw (first, ← same) (ap (λ y. c ∷ y) q), rw (first, h, ← same) u),
  λ (f, u).
      let first : d ≡ c = ground arith in
      (behind_iff c o (d ∷ a) b).1 (a, ap (λ y. y ∷ a) first, (p a).1 (ground arith, ground arith)),
)

split_once_iff : (s a b : Chars) → (split_once s ≡ some (a, b)) ↔ ((s ≡ a ++ b' ' ∷ b) × Unspaced a)
unfolding split_once
split_once_iff [] [] b = (λ e. cc, λ (e, u). cc)
split_once_iff [] (d ∷ a) b = (λ e. cc, λ (e, u). cc)
split_once_iff (c ∷ s) a b = elim (Bool-cases (c == b' ')) [
  | inl h ↦ rw h (here_iff c s a b h)
  | inr h ↦ rw h (later_iff c (split_once s) s a b h (λ x. split_once_iff s x b))
]

token_iff :
    (o : Option (Chars × Chars)) (token : Chars)
    → (token_of o ≡ ok token) ↔ (
        (scheme : Chars) × (o ≡ some (scheme, token))
        × (map to_ascii_lowercase scheme ≡ ascii "bearer"))
unfolding token_of eq_ignore_ascii_case
token_iff none token = (λ e. cc, λ (scheme, e, f). cc)
token_iff (some (scheme, t)) token =
    let (to, from) = text_eq_iff (map to_ascii_lowercase scheme) (ascii "bearer") in
    (
      λ e. (scheme, ground arith, to (ground arith)),
      λ (x, e, f).
          let same : scheme ≡ x = ground arith in
          let last : t ≡ token = ground arith in rw (from (rw same f), last) refl,
    )

ok_or-ok : {A : Type 0} (why : AuthFailure) (o : Option A) {a : A} → ok_or why o ≡ ok a → o ≡ some a
unfolding ok_or
ok_or-ok why none e = cc
ok_or-ok why (some a) e = ground arith

answer_lem :
    (last now : ℕ) (o : Outcome AuthFailure (Unit {0})) (st : Rejects)
    → ((answer last now o st).1 ≡ runs) ↔ (o ≡ ok tt)
unfolding answer
answer_lem last now (ok u) st = (λ _. refl, λ _. refl)
answer_lem last now (err why) st = (λ e. cc, λ e. cc)

module _ (lib : Crypto) where
  -- A header value of the form `Bearer <token>`, in any case, whose token has the wanted digest.
  abbrev pub Bears : Option (List ℕ) → List ℕ → Type 0
  Bears value want =
      (bytes : List ℕ) × (scheme : Chars) × (token : Chars) × (value ≡ some bytes)
      × (lib.to_str bytes ≡ some (scheme ++ b' ' ∷ token))
      × Unspaced scheme
      × (map to_ascii_lowercase scheme ≡ ascii "bearer")
      × (lib.sha256 (trim token) ≡ want)

  check_bearer_iff :
      (value : Option (List ℕ)) (want : List ℕ)
      → (check_bearer lib value want ≡ ok tt) ↔ Bears value want
  unfolding check_bearer
  check_bearer_iff value want = (
    λ e.
        let (bytes, b, f) = steps_of (ok_or no_header value) _ e in
        let (text, t, g) = steps_of (ok_or not_bearer (lib.to_str bytes)) _ f in
        let (token, k, h) = steps_of (token_of (split_once text)) _ g in
        let same = lib.verify_slices_are_equal_iff (lib.sha256 (trim token)) want in
        let (scheme, o, l) = (token_iff (split_once text) token).0 k in
        let (q, u) = (split_once_iff text scheme token).0 o in
        (
          bytes,
          scheme,
          token,
          ok_or-ok _ value b,
          ok_or-ok _ (lib.to_str bytes) t ∙ ap some q,
          u,
          l,
          same.0 (not_refused _ _ h),
        ),
    λ (bytes, scheme, token, e, t, u, l, d).
        let same = lib.verify_slices_are_equal_iff (lib.sha256 (trim token)) want in
        let parts = (split_once_iff (scheme ++ b' ' ∷ token) scheme token).1 (refl, u) in
        let bearer = (token_iff (some (scheme, token)) token).1 (scheme, refl, l) in
        rw (e, t, parts, bearer, same.1 d) refl,
  )

  -- A request goes on to its route exactly if that is `/health`, or its Authorization header is one
  -- word that is `bearer` in any case, a space and a token whose SHA-256 is the server's digest.
  pub require_bearer_iff :
      (want : List ℕ) (last now : ℕ) (req : Request) (st : Rejects)
      → ((require_bearer lib want last now req st).1 ≡ runs)
        ↔ ((req.path ≡ ascii "/health") ⊎ Bears req.authorization want)
  unfolding require_bearer
  require_bearer_iff want last now req st =
      let (to, from) = text_eq_iff req.path (ascii "/health") in
      let checked = check_bearer_iff req.authorization want in
      let answered = answer_lem last now (check_bearer lib req.authorization want) st in
      elim (Bool-cases (text_eq req.path (ascii "/health"))) [
        | inl e ↦ rw e (λ _. inl (to e), λ _. refl)
        | inr e ↦ rw e (
          λ f. inr (checked.0 (answered.0 f)),
          λ f. elim f [
            | inl p ↦ absurd (ground (arith, from p))
            | inr b ↦ answered.1 (checked.1 b)
          ],
        )
      ]
