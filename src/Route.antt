-- ===== src/Route.antt =====
-- crates/m3-route/src/lib.rs: the signals of a query and the branch that they choose. The three
-- regular expressions are parameters, as is Unicode's lower case. A score is a number of tenths;
-- the `f32` scores are within their rounding of it, and two of them differ by more than that.
pub mod Choice
mod Tests
use m3_core_rs.Base.{
  ℕ, zero, suc, ◌+◌, Bool, true, false, not, ◌&&◌, ◌||◌, Option, none, some, List, [], ◌∷◌, map,
  ltb, leb, ◌==◌, if◌then◌else◌, length, any, keep, is_empty, head?, Text, ascii, text_eq, Chars,
  eq_ignore_ascii_case, split_whitespace, trim_end,
}

pub record RouteSignals : Type 0 where
  pub token_count : ℕ
  pub has_entity_hint : Bool
  pub recency_cue : Bool
  pub intent_marker : Option Chars
  pub question_form : Bool

-- `confidence` is a quotient of tenths.
pub record RouteDecision : Type 0 where
  pub branch : Chars
  pub confidence : ℕ × ℕ
  pub signal_breakdown : List (Chars × ℕ)

abbrev pub branches : List Chars
branches = ascii "entity" ∷ ascii "lexical" ∷ ascii "semantic" ∷ ascii "temporal" ∷ []

abbrev prefixes : List Chars
prefixes =
    ascii "who"
    ∷ ascii "what"
    ∷ ascii "when"
    ∷ ascii "where"
    ∷ ascii "why"
    ∷ ascii "how"
    ∷ ascii "which"
    ∷ ascii "did"
    ∷ ascii "is"
    ∷ ascii "are"
    ∷ ascii "was"
    ∷ ascii "were"
    ∷ []

ends_with_mark : Chars → Bool
ends_with_mark [] = false
ends_with_mark (c ∷ []) = c == b'?'
ends_with_mark (c ∷ d ∷ s) = ends_with_mark (d ∷ s)

first_word : List Chars → Chars
first_word [] = []
first_word (w ∷ ws) = w

unfoldable pub is_question : Chars → Bool
unfolding ends_with_mark eq_ignore_ascii_case first_word
is_question query =
    ends_with_mark (trim_end query)
    || any (λ p. eq_ignore_ascii_case (first_word (split_whitespace query)) p) prefixes

lowered : (Chars → Chars) → Option Chars → Option Chars
lowered to_lowercase none = none
lowered to_lowercase (some m) = some (to_lowercase m)

module _ (recency entity_hint : Chars → Bool) (intent : Chars → Option Chars)
    (to_lowercase : Chars → Chars) where
  unfoldable pub extract_signals : Chars → RouteSignals
  unfolding is_question lowered
  extract_signals query = record {
    token_count = length (keep (λ t. not (is_empty t)) (split_whitespace query));
    has_entity_hint = entity_hint query;
    recency_cue = recency query;
    intent_marker = lowered to_lowercase (intent query);
    question_form = is_question query;
  }

unfoldable pub is_recall : Chars → Bool
is_recall i = text_eq i (ascii "recall") || text_eq i (ascii "remember")

unfoldable pub is_analysis : Chars → Bool
is_analysis i =
    text_eq i (ascii "compare")
    || text_eq i (ascii "explain")
    || text_eq i (ascii "define")
    || text_eq i (ascii "summarize")
    || text_eq i (ascii "summarise")

-- The nudges of an intent, to temporal and to semantic.
unfoldable pub intent_temporal : Option Chars → ℕ
intent_temporal none = 0
intent_temporal (some i) = if is_recall i then 10 else 0

unfoldable pub intent_semantic : Option Chars → ℕ
intent_semantic none = 0
intent_semantic (some i) = if is_recall i then 0 else if is_analysis i then 15 else 5

unfoldable pub entity_score : RouteSignals → ℕ
entity_score s = if s.has_entity_hint then 30 else 0

unfoldable pub lexical_score : RouteSignals → ℕ
lexical_score s = (if leb s.token_count 3 then 20 else 0) + (if not s.question_form then 10 else 0)

unfoldable pub semantic_score : RouteSignals → ℕ
semantic_score s =
    (if s.question_form then 20 else 0)
    + (if leb 6 s.token_count then 20 else 0)
    + intent_semantic s.intent_marker
    + 1

unfoldable pub temporal_score : RouteSignals → ℕ
temporal_score s = (if s.recency_cue then 30 else 0) + intent_temporal s.intent_marker

unfoldable pub scores : RouteSignals → List ℕ
unfolding entity_score lexical_score semantic_score temporal_score
scores s = entity_score s ∷ lexical_score s ∷ semantic_score s ∷ temporal_score s ∷ []

-- The loop over the scores from index `i`, with the best index and score so far.
unfoldable pub best : ℕ → ℕ → ℕ → List ℕ → ℕ × ℕ
best best_idx best_score i [] = (best_idx, best_score)
best best_idx best_score i (s ∷ ss) =
    let better = best i s (suc i) ss in
    let same = best best_idx best_score (suc i) ss in if ltb best_score s then better else same

unfoldable pub pick : List ℕ → ℕ × ℕ
unfolding best
pick [] = (0, 0)
pick (s ∷ ss) = best 0 s 1 ss

unfoldable pub sum : List ℕ → ℕ
sum [] = 0
sum (s ∷ ss) = s + sum ss

unfoldable pub name_at : ℕ → List Chars → Chars
name_at i [] = []
name_at zero (b ∷ bs) = b
name_at (suc i) (b ∷ bs) = name_at i bs

unfoldable pub zip : List Chars → List ℕ → List (Chars × ℕ)
zip [] ss = []
zip (b ∷ bs) [] = []
zip (b ∷ bs) (s ∷ ss) = (b, s) ∷ zip bs ss

unfoldable pub decide_route : RouteSignals → RouteDecision
unfolding pick scores sum name_at zip
decide_route s =
    let (best_idx, best_score) = pick (scores s) in
    let total = sum (scores s) in
    record {
      branch = name_at best_idx branches;
      confidence = if ltb 0 total then (best_score, total) else (0, 1);
      signal_breakdown = zip branches (scores s);
    }
