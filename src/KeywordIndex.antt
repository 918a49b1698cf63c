-- ===== src/KeywordIndex.antt =====
-- app/services/keyword_index.py: the keyword index of a station and the payload that is stored of it.
-- A semantic threshold is a count of ten-thousandths.
pub mod Json
pub mod Payload
pub mod RoundTrip
mod Tests
use radio_broadcast_analysis.Prelude.{
  ℕ, suc, String, Bool, Option, none, some, List, [], ◌∷◌, map, if◌then◌else◌, length, member,
  filterb, nat_Eq, string_Eq, str_eq,
}
use radio_broadcast_analysis.Prelude.Dict.{Dict}

pub record KeywordAlias : Type 0 where
  pub value : String
  pub language : Option String
  pub kind : String

pub record KeywordEntry : Type 0 where
  pub keyword_id : String
  pub campaign_id : String
  pub entity_id : String
  pub canonical_value : String
  pub keyword_type : String
  pub match_mode : String
  pub semantic_matching : Bool
  pub semantic_threshold : ℕ
  pub aliases : List KeywordAlias
  pub languages : List String
  pub content_policy : Dict String Bool

pub record IndexTerm : Type 0 where
  pub normalized : String
  pub display : String
  pub language : Option String
  pub kind : String
  pub keyword_ids : List String
  pub requires_word_boundaries : Bool

pub record StationKeywordIndex : Type 0 where
  pub station_id : String
  pub version : ℕ
  pub fingerprint : String
  pub entries : List KeywordEntry
  pub terms : List IndexTerm

-- len({x for x in xs})
unfoldable pub count_distinct : List String → ℕ
count_distinct [] = 0
count_distinct (x ∷ xs) = if member xs x then count_distinct xs else suc (count_distinct xs)

abbrev pub keyword_count : StationKeywordIndex → ℕ
keyword_count index = count_distinct (map (λ e. e.keyword_id) index.entries)

abbrev pub campaign_count : StationKeywordIndex → ℕ
campaign_count index = count_distinct (map (λ e. e.campaign_id) index.entries)

abbrev pub alias_count : StationKeywordIndex → ℕ
alias_count index = length index.terms

-- `entry`
abbrev first_entry : List KeywordEntry → String → Option KeywordEntry
first_entry [] keyword_id = none
first_entry (e ∷ entries) keyword_id =
    if str_eq e.keyword_id keyword_id then some e else first_entry entries keyword_id

abbrev pub entry : StationKeywordIndex → String → Option KeywordEntry
entry index keyword_id = first_entry index.entries keyword_id

-- `entries_for`
abbrev pub entries_for : StationKeywordIndex → List String → List KeywordEntry
entries_for index keyword_ids = filterb (λ e. member keyword_ids e.keyword_id) index.entries
