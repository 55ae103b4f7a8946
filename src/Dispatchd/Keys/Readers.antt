-- ===== src/Dispatchd/Keys/Readers.antt =====
-- A key names its reader set: splitting it gives the readers back.
use m3_core_rs.Base.{
  ℕ, ◌≡◌, refl, sym, ap, ◌∙◌, ◌≢◌, ◌↔◌, Bool, false, not, ◌||◌, List, [], ◌∷◌, ◌++◌, Text, any,
  keep, All, is_empty, text_eq, arith,
}
use m3_core_rs.Dispatchd.Keys.{newline, split_on, join, collect, key}
use m3_core_rs.Dispatchd.Keys.Sets.{
  collect-Ascending, any-collect, All-collect, contains, Ascending-ext,
}

-- No byte of the text is the separator.
abbrev pub Free : ℕ → Text → Type 0
Free sep [] = Unit
Free sep (c ∷ s) = (c ≢ sep) × Free sep s

split-Free : (sep : ℕ) (t : Text) → Free sep t → split_on sep t ≡ t ∷ []
unfolding split_on
split-Free sep [] f = refl
split-Free sep (c ∷ s) f = ground (arith, split-Free sep s f.1)

split-append :
    (sep : ℕ) (t rest : Text) → Free sep t → split_on sep (t ++ sep ∷ rest) ≡ t ∷ split_on sep rest
unfolding split_on
split-append sep [] rest f = ground arith
split-append sep (c ∷ s) rest f = ground (arith, split-append sep s rest f.1)

-- Splitting the join of texts free of the separator gives them back, if there is one.
pub split-join :
    (sep : ℕ) (ts : List Text) → ts ≢ [] → All (Free sep) ts → split_on sep (join sep ts) ≡ ts
unfolding join
split-join sep [] h f = absurd (h refl)
split-join sep (t ∷ []) h f = split-Free sep t f.0
split-join sep (t ∷ u ∷ us) h f =
    split-append sep t (join sep (u ∷ us)) f.0 ∙ ap (◌∷◌ t) (split-join sep (u ∷ us) (λ e. cc) f.1)

abbrev named : List Text → List Text
named = keep (λ r. not (is_empty r))

All-keep : (P : Text → Type 0) (p : Text → Bool) (ts : List Text) → All P ts → All P (keep p ts)
All-keep P p [] a = tt
All-keep P p (t ∷ ts) a = ground (arith, All-keep P p ts)

All-named : (ts : List Text) → All (λ t. t ≢ []) (named ts)
All-named [] = tt
All-named ([] ∷ ts) = All-named ts
All-named ((c ∷ s) ∷ ts) = ((λ e. cc), All-named ts)

any-named : (p : Text → Bool) (ts : List Text) → p [] ≡ false → any p (named ts) ≡ any p ts
any-named p [] h = refl
any-named p ([] ∷ ts) h = rw h (any-named p ts h)
any-named p ((c ∷ s) ∷ ts) h = ap (◌||◌ (p (c ∷ s))) (any-named p ts h)

any-split-join :
    (p : Text → Bool) (ts : List Text)
    → p [] ≡ false
    → All (Free newline) ts
    → any p (split_on newline (join newline ts)) ≡ any p ts
unfolding join split_on
any-split-join p [] h f = rw h refl
any-split-join p (t ∷ ts) h f = ap (any p) (split-join newline (t ∷ ts) (λ e. cc) f)

-- For readers without a newline, some reader that the key is split into passes a test exactly when
-- some given reader does, for any test that the empty id fails.
pub any-split-key :
    (p : Text → Bool) (readers : List Text)
    → p [] ≡ false
    → All (Free newline) readers
    → any p (split_on newline (key readers)) ≡ any p readers
unfolding key
any-split-key p readers h f =
    any-split-join p (collect (named readers)) h
      (All-collect (Free newline) (named readers) (All-keep (Free newline) _ readers f))
    ∙ any-collect p (named readers)
    ∙ any-named p readers h

join-eq-nil : (t : Text) (ts : List Text) → join newline (t ∷ ts) ≡ [] → t ≡ []
unfolding join
join-eq-nil [] ts e = refl
join-eq-nil (c ∷ t) [] e = cc
join-eq-nil (c ∷ t) (u ∷ us) e = cc

join_injective :
    (ts us : List Text)
    → All (Free newline) ts
    → All (Free newline) us
    → All (λ t. t ≢ []) ts
    → All (λ t. t ≢ []) us
    → join newline ts ≡ join newline us
    → ts ≡ us
unfolding join
join_injective [] [] f g n m e = refl
join_injective [] (u ∷ us) f g n m e = absurd (m.0 (join-eq-nil u us (sym e)))
join_injective (t ∷ ts) [] f g n m e = absurd (n.0 (join-eq-nil t ts e))
join_injective (t ∷ ts) (u ∷ us) f g n m e =
    sym (split-join newline (t ∷ ts) (λ e. cc) f)
    ∙ ap (split_on newline) e
    ∙ split-join newline (u ∷ us) (λ e. cc) g

-- Two reader lists without newlines share a key exactly when they have the same non-empty members,
-- whatever their order and repetitions.
pub key-eq_iff :
    (rs ss : List Text)
    → All (Free newline) rs
    → All (Free newline) ss
    → (key rs ≡ key ss) ↔ ((x : Text) → contains x (named rs) ≡ contains x (named ss))
unfolding key
key-eq_iff rs ss f g = (
  λ e x.
      let same : collect (named rs) ≡ collect (named ss) =
        join_injective _ _ (All-collect _ _ (All-keep (Free newline) _ rs f))
          (All-collect _ _ (All-keep (Free newline) _ ss g)) (All-collect _ _ (All-named rs))
          (All-collect _ _ (All-named ss)) e in
      sym (any-collect (text_eq x) (named rs))
      ∙ ap (contains x) same
      ∙ any-collect (text_eq x) (named ss),
  λ h. ap (join newline) (
      Ascending-ext _ _ (collect-Ascending (named rs)) (collect-Ascending (named ss))
        (λ x. any-collect (text_eq x) (named rs) ∙ h x ∙ sym (any-collect (text_eq x) (named ss)))),
)
