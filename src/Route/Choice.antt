-- ===== src/Route/Choice.antt =====
-- Which branch the scores choose.
use m3_core_rs.Base.{
  ℕ, ◌+◌, ◌≤◌, ◌<◌, ◌≡◌, sym, ◌∙◌, ◌↔◌, Bool, true, false, not, ◌&&◌, ◌||◌, Option, none, some,
  List, [], ◌∷◌, arith, max, ◌==◌, ltb, leb, if◌then◌else◌, Chars, ascii,
}
use m3_core_rs.Route.{
  RouteSignals, is_recall, is_analysis, intent_temporal, intent_semantic, entity_score,
  lexical_score, semantic_score, temporal_score, scores, best, pick, sum, name_at, zip,
  decide_route,
}

abbrev pub recalls : Option Chars → Bool
recalls none = false
recalls (some i) = is_recall i

abbrev pub analyses : Option Chars → Bool
analyses none = false
analyses (some i) = not (is_recall i) && is_analysis i

intents :
    (m : Option Chars)
    → (intent_temporal m ≡ (if recalls m then 10 else 0))
      × (intent_semantic m ≤ 15)
      × ((recalls m ≡ true) → (intent_semantic m ≡ 0))
      × ((analyses m ≡ true) → (intent_semantic m ≡ 15))
      × ((analyses m ≡ false) → (intent_semantic m ≤ 5))
unfolding intent_temporal intent_semantic
intents none = ground arith
intents (some i) = ground arith

-- The branch by the four scores: the first of those that are highest.
chosen : ℕ → ℕ → ℕ → ℕ → Chars
chosen e l s t =
    if ltb (if ltb (if ltb e l then l else e) s then s else (if ltb e l then l else e)) t
    then ascii "temporal"
    else (if ltb (if ltb e l then l else e) s
        then ascii "semantic"
        else (if ltb e l then ascii "lexical" else ascii "entity"))

branch_chosen :
    (s : RouteSignals)
    → (decide_route s).branch
      ≡ chosen (entity_score s) (lexical_score s) (semantic_score s) (temporal_score s)
unfolding decide_route chosen pick best scores name_at
branch_chosen s = ground arith

-- The first branch of a breakdown that has the given score.
abbrev pub first_with : ℕ → List (Chars × ℕ) → Chars
first_with top [] = []
first_with top ((b, s) ∷ rest) = if top == s then b else first_with top rest

abbrev pub maximum : List ℕ → ℕ
maximum [] = 0
maximum (s ∷ ss) = max s (maximum ss)

-- The branch is the first in the order of the names with the highest score, and the confidence is
-- that score, which is positive, over the sum of the scores.
decide_route-maximum :
    (s : RouteSignals)
    → let d = decide_route s in
      (d.branch ≡ first_with (maximum (scores s)) d.signal_breakdown)
      × (d.confidence ≡ (maximum (scores s), sum (scores s)))
      × (0 < maximum (scores s))
unfolding decide_route pick best scores name_at zip sum semantic_score
decide_route-maximum s = ground arith

chosen-temporal :
    (e l s t : ℕ) → (chosen e l s t ≡ ascii "temporal") ↔ ((e < t) × (l < t) × (s < t))
unfolding chosen
chosen-temporal e l s t = ground arith

-- A question of six words and more.
abbrev pub is_long_question : RouteSignals → Bool
is_long_question s = s.question_form && leb 6 s.token_count

above :
    (r e q rec an : Bool) (c it is : ℕ)
    → it ≡ (if rec then 10 else 0)
    → is ≤ 15
    → ((rec ≡ true) → (is ≡ 0))
    → ((an ≡ true) → (is ≡ 15))
    → ((an ≡ false) → (is ≤ 5))
    → (((if e then 30 else 0) < (if r then 30 else 0) + it)
        × ((if leb c 3 then 20 else 0) + (if not q then 10 else 0) < (if r then 30 else 0) + it)
        × ((if q then 20 else 0) + (if leb 6 c then 20 else 0) + is + 1
            < (if r then 30 else 0) + it))
      ↔ ((r
            && not (q && leb 6 c)
            && (rec || (not e && (q || ltb 3 c) && not ((q || leb 6 c) && an))))
          ≡ true)
above r e q true an c it is h1 h2 h3 h4 h5 = ground arith
above r e q false an c it is h1 h2 h3 h4 h5 = ground arith

-- A query goes to the temporal branch exactly when it has a recency cue and either asks to recall
-- something and is no question of six words and more, or has no entity hint, is a question or
-- longer than three words, is no question of six words and more, and, if it is a question or six
-- words long, has no verb of analysis.
pub temporal_iff :
    (s : RouteSignals)
    → ((decide_route s).branch ≡ ascii "temporal") ↔ (
        (s.recency_cue
          && not (is_long_question s)
          && (recalls s.intent_marker
              || (not s.has_entity_hint
                  && (s.question_form || ltb 3 s.token_count)
                  && not ((s.question_form || leb 6 s.token_count) && analyses s.intent_marker))))
        ≡ true)
unfolding entity_score lexical_score semantic_score temporal_score
temporal_iff s =
    let m = s.intent_marker in
    let (t, le, none_, some_, few) = intents m in
    let (down, up) =
      above s.recency_cue s.has_entity_hint s.question_form (recalls m) (analyses m) s.token_count
        (intent_temporal m) (intent_semantic m) t le none_ some_ few in
    let (first, last) =
      chosen-temporal (entity_score s) (lexical_score s) (semantic_score s) (temporal_score s) in
    (λ h. down (first (sym (branch_chosen s) ∙ h)), λ h. branch_chosen s ∙ last (up h))
