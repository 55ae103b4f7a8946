-- ===== src/Dispatchd/Keys/Sets.antt =====
-- The ascending lists that stand for sets of texts.
use m3_core_rs.Base.{
  ◌≡◌, refl, sym, ap, ◌∙◌, inl, inr, Bool, true, false, ◌||◌, List, [], ◌∷◌, Text, any, All,
  text_eq, text_lt, text_eq_iff, text_eq_refl, text_lt_trans, text_lt_total, text_lt_irrefl, arith,
  Bool-cases,
}
use mathlib.Core.Path.{subst}
use m3_core_rs.Dispatchd.Keys.{set_insert, collect}

-- Strictly ascending, from above a bound.
abbrev pub Above : Text → List Text → Type 0
Above b [] = Unit
Above b (t ∷ ts) = (text_lt b t ≡ true) × Above t ts

abbrev pub Ascending : List Text → Type 0
Ascending [] = Unit
Ascending (t ∷ ts) = Above t ts

set_insert-Above :
    (b t : Text) (ts : List Text) → text_lt b t ≡ true → Above b ts → Above b (set_insert t ts)
unfolding set_insert
set_insert-Above b t [] h a = (h, tt)
set_insert-Above b t (u ∷ us) h a = ground (arith, set_insert-Above u t us, text_lt_total t u)

pub set_insert-Ascending : (t : Text) (ts : List Text) → Ascending ts → Ascending (set_insert t ts)
unfolding set_insert
set_insert-Ascending t [] a = tt
set_insert-Ascending t (u ∷ us) a = ground (arith, set_insert-Above u t us, text_lt_total t u)

pub collect-Ascending : (ts : List Text) → Ascending (collect ts)
unfolding collect
collect-Ascending [] = tt
collect-Ascending (t ∷ ts) = set_insert-Ascending t (collect ts) (collect-Ascending ts)

-- Membership as a Boolean test.
abbrev pub contains : Text → List Text → Bool
contains t ts = any (text_eq t) ts

any-set_insert :
    (p : Text → Bool) (t : Text) (ts : List Text) → any p (set_insert t ts) ≡ (p t || any p ts)
unfolding set_insert
any-set_insert p t [] = refl
any-set_insert p t (u ∷ us) = elim (Bool-cases (text_eq t u)) [
  | inl same ↦ rw same (ground (arith, ap p ((text_eq_iff t u).0 same)))
  | inr other ↦ ground (arith, any-set_insert p t us)
]

-- A test holds of some element of the collected set exactly when it holds of some listed text.
pub any-collect : (p : Text → Bool) (ts : List Text) → any p (collect ts) ≡ any p ts
unfolding collect
any-collect p [] = refl
any-collect p (t ∷ ts) = any-set_insert p t (collect ts) ∙ ap (◌||◌ (p t)) (any-collect p ts)

All-set_insert :
    (P : Text → Type 0) (t : Text) (ts : List Text) → P t → All P ts → All P (set_insert t ts)
unfolding set_insert
All-set_insert P t [] h a = (h, tt)
All-set_insert P t (u ∷ us) h a = ground (arith, All-set_insert P t us)

pub All-collect : (P : Text → Type 0) (ts : List Text) → All P ts → All P (collect ts)
unfolding collect
All-collect P [] a = tt
All-collect P (t ∷ ts) a = All-set_insert P t (collect ts) a.0 (All-collect P ts a.1)

Above-weaken : (t u : Text) (us : List Text) → text_lt t u ≡ true → Above u us → Above t us
Above-weaken t u [] h a = tt
Above-weaken t u (v ∷ vs) h a = (text_lt_trans t u v h a.0, a.1)

ne_of_lt : (t u : Text) → text_lt t u ≡ true → text_eq t u ≡ false
ne_of_lt t u h = elim (Bool-cases (text_eq t u)) [
  | inl e ↦
      let loop : text_lt u u ≡ true = subst (λ v. text_lt v u ≡ true) ((text_eq_iff t u).0 e) h in
      cc (text_lt_irrefl u)
  | inr e ↦ e
]

contains_below : (t : Text) (us : List Text) → Above t us → contains t us ≡ false
contains_below t [] a = refl
contains_below t (u ∷ us) a = ground (arith, ne_of_lt t u, contains_below t us, Above-weaken t u us)

lt_of_contains :
    (t u : Text) (us : List Text) → Above u us → contains t us ≡ true → text_lt u t ≡ true
lt_of_contains t u [] a h = cc
lt_of_contains t u (v ∷ vs) a h =
    ground (arith, text_eq_iff t v, lt_of_contains t u vs (Above-weaken u v vs a.0 a.1))

same_head :
    (t u : Text) (ts us : List Text)
    → Above t ts
    → Above u us
    → contains t (u ∷ us) ≡ true
    → contains u (t ∷ ts) ≡ true
    → t ≡ u
same_head t u ts us a b h k = ground (
  arith,
  text_eq_iff t u,
  text_eq_iff u t,
  lt_of_contains t u us b,
  lt_of_contains u t ts a,
  text_lt_trans t u t,
  text_lt_irrefl t,
)

tail_agrees :
    (t x : Text) (ts us : List Text)
    → Above t ts
    → Above t us
    → contains x (t ∷ ts) ≡ contains x (t ∷ us)
    → contains x ts ≡ contains x us
tail_agrees t x ts us a b h = elim (Bool-cases (text_eq x t)) [
  | inl e ↦
      let same : x ≡ t = (text_eq_iff x t).0 e in
      rw same (contains_below t ts a ∙ sym (contains_below t us b))
  | inr e ↦ ground arith
]

contains_head : (t : Text) (ts : List Text) → contains t (t ∷ ts) ≡ true
contains_head t ts = ground (arith, text_eq_refl t)

Ascending-tail : (t : Text) (ts : List Text) → Above t ts → Ascending ts
Ascending-tail t [] a = tt
Ascending-tail t (u ∷ us) a = a.1

-- Ascending lists with the same members are equal.
pub Ascending-ext :
    (ts us : List Text)
    → Ascending ts
    → Ascending us
    → ((x : Text) → contains x ts ≡ contains x us)
    → ts ≡ us
Ascending-ext [] [] a b h = refl
Ascending-ext [] (u ∷ us) a b h = cc (h u, contains_head u us)
Ascending-ext (t ∷ ts) [] a b h = cc (h t, contains_head t ts)
Ascending-ext (t ∷ ts) (u ∷ us) a b h =
    let e : t ≡ u =
      same_head t u ts us a b (sym (h t) ∙ contains_head t ts) (h u ∙ contains_head u us) in
    let b' : Above t us = subst (λ v. Above v us) (sym e) b in
    let h' : (x : Text) → contains x (t ∷ ts) ≡ contains x (t ∷ us) =
      λ x. h x ∙ ap (λ v. contains x (v ∷ us)) (sym e) in
    ap (λ v. v ∷ ts) e
    ∙ ap (◌∷◌ u) (
        Ascending-ext ts us (Ascending-tail t ts a) (Ascending-tail t us b')
          (λ x. tail_agrees t x ts us a b' (h' x)))
