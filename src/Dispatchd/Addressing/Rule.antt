-- ===== src/Dispatchd/Addressing/Rule.antt =====
-- The addressing rule, read off the texts alone.
use m3_core_rs.Base.{
  ℕ, ◌≡◌, refl, ap, ◌∙◌, ◌≢◌, ◌↔◌, inl, inr, true, false, Option, none, some, [], ◌∷◌, ◌++◌, Text,
  length, drop, is_some, text_eq, text_eq_iff, strip_prefix, strip_prefix_sound,
  strip_prefix-append, arith, Bool-cases, Option-cases, length-append, text_eq_refl,
}
use m3_core_rs.Dispatchd.Addressing.{agent_sep, split_once, tail_given, is_qualified, sees}

-- An id with a separator that is not its last byte.
pub record Qualified (id : Text) : Type 0 where
  pub kind : Text
  pub first : ℕ
  pub rest : Text
  pub splits : id ≡ kind ++ agent_sep ∷ first ∷ rest

qualified_sound :
    (s : Text) (head tail : Text)
    → split_once agent_sep s ≡ some (head, tail)
    → s ≡ head ++ agent_sep ∷ tail
unfolding split_once
qualified_sound [] head tail e = cc
qualified_sound (c ∷ s) head tail e = elim (Option-cases (split_once agent_sep s)) [
  | inl f ↦ ground arith
  | inr ((h, t), f) ↦ ground (arith, qualified_sound s h t f)
]

is_qualified-append :
    (head : Text) (x : ℕ) (tail : Text) → is_qualified (head ++ agent_sep ∷ x ∷ tail) ≡ true
unfolding is_qualified
is_qualified-append [] x tail = refl
is_qualified-append (c ∷ head) x tail = ground (
  arith,
  Option-cases (split_once agent_sep (head ++ agent_sep ∷ x ∷ tail)),
  is_qualified-append head x tail,
)

to_Qualified :
    (s : Text) (o : Option (Text × Text))
    → split_once agent_sep s ≡ o
    → tail_given o ≡ true
    → Qualified s
unfolding tail_given
to_Qualified s none e h = cc
to_Qualified s (some (head, [])) e h = cc
to_Qualified s (some (head, x ∷ tail)) e h = record {
  kind = head;
  first = x;
  rest = tail;
  splits = qualified_sound s head (x ∷ tail) e;
}

-- An id counts as qualified exactly when it has a separator that is not its last byte.
pub is_qualified_iff : (id : Text) → (is_qualified id ≡ true) ↔ Qualified id
unfolding is_qualified
is_qualified_iff id = (
  to_Qualified id (split_once agent_sep id) refl,
  λ q. rw q.splits (is_qualified-append q.kind q.first q.rest),
)

drop-append : (xs ys : Text) → drop (length xs) (xs ++ ys) ≡ ys
drop-append [] ys = refl
drop-append (x ∷ xs) ys = drop-append xs ys

-- What a reader is shown: its own id, and for a bare reader every id that continues its own by the
-- separator.
pub data Shown (reader recipient : Text) : Type 0 where
  own : reader ≡ recipient → Shown reader recipient
  fan_out :
      (instance_ : Text)
      → ¬ Qualified reader
      → recipient ≡ reader ++ agent_sep ∷ instance_
      → Shown reader recipient

prefix_split : (p s : Text) → is_some (strip_prefix p s) ≡ true → (rest : Text) × (s ≡ p ++ rest)
prefix_split p s h = elim (Option-cases (strip_prefix p s)) [
  | inl e ↦ cc
  | inr (rest, e) ↦ (rest, strip_prefix_sound p s rest e)
]

fan_out_sound :
    (reader recipient : Text)
    → is_qualified reader ≡ false
    → is_some (strip_prefix reader recipient) ≡ true
    → is_some (strip_prefix (agent_sep ∷ []) (drop (length reader) recipient)) ≡ true
    → Shown reader recipient
fan_out_sound reader recipient bare starts sep =
    let (rest, e) = prefix_split reader recipient starts in
    let behind : drop (length reader) recipient ≡ rest = rw e (drop-append reader rest) in
    let (instance_, f) = prefix_split (agent_sep ∷ []) rest (rw behind at sep) in
    fan_out instance_ (λ q. cc ((is_qualified_iff reader).1 q)) (e ∙ ap (◌++◌ reader) f)

sees_sound :
    (reader recipient : Text)
    → sees reader recipient ≡ true
    → (reader ≢ []) × Shown reader recipient
unfolding sees
sees_sound [] recipient h = cc
sees_sound (c ∷ cs) recipient h = (
  λ e. cc,
  elim (Bool-cases (text_eq (c ∷ cs) recipient)) [
    | inl same ↦ own ((text_eq_iff (c ∷ cs) recipient).0 same)
    | inr differs ↦ fan_out_sound (c ∷ cs) recipient (ground arith) (ground arith) (ground arith)
  ],
)

bare_of_not_Qualified : (id : Text) → ¬ Qualified id → is_qualified id ≡ false
bare_of_not_Qualified id bare = elim (Bool-cases (is_qualified id)) [
  | inl q ↦ absurd (bare ((is_qualified_iff id).0 q))
  | inr e ↦ e
]

sees_complete :
    (reader recipient : Text) → reader ≢ [] → Shown reader recipient → sees reader recipient ≡ true
unfolding sees
sees_complete [] recipient h s = absurd (h refl)
sees_complete (c ∷ cs) recipient h (own e) = rw (← e, text_eq_refl (c ∷ cs)) refl
sees_complete (c ∷ cs) recipient h (fan_out instance_ bare e) =
    let behind = agent_sep ∷ instance_ in
    rw e (
      ground (
        arith,
        bare_of_not_Qualified (c ∷ cs) bare,
        length-append (c ∷ cs) behind,
        strip_prefix-append (c ∷ cs) behind,
        drop-append (c ∷ cs) behind,
        strip_prefix-append (agent_sep ∷ []) instance_,
      ))

-- A reader sees a message exactly when it is no empty id and the message is to its own id, or the
-- reader is bare and the recipient is its id followed by the separator and any instance.
pub sees_iff :
    (reader recipient : Text)
    → (sees reader recipient ≡ true) ↔ ((reader ≢ []) × Shown reader recipient)
sees_iff reader recipient =
    (sees_sound reader recipient, λ h. sees_complete reader recipient h.0 h.1)
