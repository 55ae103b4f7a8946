-- ===== src/Route/Tests.antt =====
-- Queries and their branches.
use m3_core_rs.Base.{
  trim_end, is_whitespace, text_eq, split_whitespace, ◌≡◌, refl, ◌↔◌, true, false, none, ascii,
}
use m3_core_rs.Route.{RouteSignals, decide_route, is_question, intent_temporal, intent_semantic}
use m3_core_rs.Route.Choice.{temporal_iff}

-- "notes from yesterday": three words and a recency cue.
abbrev short : RouteSignals
short = record {
  token_count = 3;
  has_entity_hint = false;
  recency_cue = true;
  intent_marker = none;
  question_form = false;
}

short_test : (decide_route short).branch ≡ ascii "lexical"
unfolding decide_route intent_semantic intent_temporal
short_test = refl

question_test : is_question (ascii "  Which one is it") ≡ true
unfolding is_question trim_end is_whitespace text_eq split_whitespace
question_test = refl

temporal_iff_example : ((decide_route short).branch ≡ ascii "temporal") ↔ (false ≡ true)
temporal_iff_example = temporal_iff short
