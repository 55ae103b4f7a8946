-- ===== src/Dispatchd/Api/Guards.antt =====
-- What passes the routes' guards, and what a refusal leaves alone.
use m3_core_rs.Base.{
  ℕ, ◌+◌, ◌^◌, ◌≤◌, ◌<◌, ◌≡◌, refl, ◌≢◌, ◌↔◌, ◌⊎◌, inl, inr, true, false, Option, none, some, List,
  [], ◌∷◌, Text, length, keep, all, is_empty, arith, Option-cases, Floats,
}
use m3_core_rs.Dispatchd.Hub.{Hub, State, named}
use m3_core_rs.Dispatchd.Hub
use m3_core_rs.Dispatchd.Api.{
  ApiError, no_content, panics, max_recipients, max_origin, has_control, origin_refused, refusal,
  rung, ring, wait, timeout_of,
}

-- An origin that is given is 1 to 128 bytes without a control character.
abbrev pub OriginFits : Option Text → Type 0
OriginFits none = Unit
OriginFits (some o) = (0 < length o) × (length o ≤ max_origin) × (has_control o ≡ false)

length-named : (ts : List Text) → length (keep is_empty ts) + length (named ts) ≡ length ts
length-named [] = omega arith
length-named ([] ∷ ts) = omega (arith, length-named ts)
length-named ((c ∷ t) ∷ ts) = omega (arith, length-named ts)

origin_refused_iff : (origin : Option Text) → (origin_refused origin ≡ none) ↔ OriginFits origin
unfolding origin_refused
origin_refused_iff none = (λ e. tt, λ u. refl)
origin_refused_iff (some []) = (λ e. cc, λ u. absurd (omega arith))
origin_refused_iff (some (c ∷ o)) = ground arith

refusal_iff :
    (recipients : List Text) (origin : Option Text)
    → (refusal recipients origin ≡ none)
      ↔ ((length recipients ≤ max_recipients) × (0 < length (named recipients)) × OriginFits origin)
unfolding refusal
refusal_iff [] origin = (λ e. cc, λ f. absurd (omega (arith, f.1)))
refusal_iff (t ∷ ts) origin =
    let (to, from) = origin_refused_iff origin in
    (
      λ e. (ground arith, ground (arith, length-named (t ∷ ts)), to (ground arith)),
      λ f. ground (arith, length-named (t ∷ ts), from f.2),
    )

-- The ring route answers 204 exactly for at most 1000 recipients, one of them not empty, and an
-- origin that, if given, has 1 to 128 bytes and no control character. Then it has rung the hub, and
-- otherwise the hub's state is as before.
pub ring_iff :
    (h : Hub) (now : ℕ) (recipients : List Text) (origin : Option Text) (st : State)
    → let r = ring h now recipients origin st in
      ((r.1 ≡ no_content) ↔ (
        (length recipients ≤ max_recipients) × (0 < length (named recipients)) × OriginFits origin))
      × (((r.1 ≡ no_content) × (r.0 ≡ (Hub.ring h now recipients origin st).0))
          ⊎ ((r.1 ≢ no_content) × (r.0 ≡ st)))
unfolding ring rung
ring_iff h now recipients origin st =
    let (to, from) = refusal_iff recipients origin in
    let refused : (x : ApiError)
        → refusal recipients origin ≡ some x
        → (length recipients ≤ max_recipients) × (0 < length (named recipients)) × OriginFits origin
        → ⊥ =
      λ x e f. ground (arith, from f) in
    elim (Option-cases (refusal recipients origin)) [
      | inl e ↦ rw e (((λ _. to e, λ _. refl), inl (refl, refl)))
      | inr (x, e) ↦ rw e (((λ f. cc, λ f. absurd (refused x e f)), inr ((λ f. cc), refl)))
    ]

-- The wait route panics exactly for a reader that is not empty and a finite timeout of 2^64 seconds
-- or more: its guard lets such a timeout pass, and the conversion to a `Duration` does not.
pub wait_panics_iff :
    (fl : Floats) (readers : List Text) (timeout_s : fl.F64)
    → (wait fl readers timeout_s ≡ panics) ↔ (
        (all is_empty readers ≡ false)
        × (fl.is_finite timeout_s ≡ true)
        × (fl.ge timeout_s (fl.of_ℕ 0) ≡ true)
        × (fl.ge timeout_s (fl.of_ℕ (2 ^ 64)) ≡ true))
unfolding wait timeout_of
wait_panics_iff fl readers t = ground (arith, fl.from_secs_iff t)
