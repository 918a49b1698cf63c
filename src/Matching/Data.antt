-- ===== src/Matching/Data.antt =====
-- app/services/keyword_matcher.py: the data of a match, and the levels of app/pipeline/enums.py.
use radio_broadcast_analysis.Prelude.{ℕ, String, Bool, true, false, Option, List, nat_Eq, string_Eq}

pub data MatchLevel : Type 0 where
  exact alias transliteration fuzzy phonetic semantic : MatchLevel

-- CONFIRMATION_REQUIRED_LEVELS
unfoldable pub is_candidate_level : MatchLevel → Bool
is_candidate_level MatchLevel.fuzzy = true
is_candidate_level MatchLevel.phonetic = true
is_candidate_level MatchLevel.semantic = true
is_candidate_level _ = false

-- LEVEL_CONFIDENCE, in hundredths.
unfoldable pub level_confidence : MatchLevel → ℕ
level_confidence MatchLevel.exact = 100
level_confidence MatchLevel.alias = 95
level_confidence MatchLevel.transliteration = 85
level_confidence MatchLevel.fuzzy = 55
level_confidence MatchLevel.phonetic = 50
level_confidence MatchLevel.semantic = 45

-- A confidence is a count of hundredths.
pub record KeywordMatch : Type 0 where
  pub keyword_id : String
  pub campaign_ids : List String
  pub canonical_value : String
  pub matched_text : List ℕ
  pub match_level : MatchLevel
  pub start_char : ℕ
  pub end_char : ℕ
  pub start_ms : Option ℕ
  pub end_ms : Option ℕ
  pub confidence : ℕ
  pub alias_kind : String
  pub language : Option String
  pub keyword_type : String

unfoldable pub requires_confirmation : KeywordMatch → Bool
unfolding is_candidate_level
requires_confirmation m = is_candidate_level m.match_level
