-- ===== src/KeywordIndex/Tests.antt =====
-- An index of one keyword and its payload.
use radio_broadcast_analysis.Prelude.{
  true, false, none, some, [], ◌∷◌, ◌≡◌, refl, arith, nat_Eq, string_Eq,
}
use radio_broadcast_analysis.KeywordIndex.{StationKeywordIndex, count_distinct}
use radio_broadcast_analysis.KeywordIndex.Payload.{to_payload, index_from_payload}
use radio_broadcast_analysis.KeywordIndex.RoundTrip.{index_from_payload-to_payload}

abbrev index : StationKeywordIndex
index = record {
  station_id = "station";
  version = 3;
  fingerprint = "a1";
  entries =
      record {
        keyword_id = "k1";
        campaign_id = "c1";
        entity_id = "";
        canonical_value = "NVIDIA";
        keyword_type = "brand";
        match_mode = "tokens";
        semantic_matching = false;
        semantic_threshold = 7400;
        aliases = record { value = "Geforce"; language = some "en"; kind = "alias" } ∷ [];
        languages = "en" ∷ [];
        content_policy = ("news", true) ∷ [];
      }
      ∷ [];
  terms =
      record {
        normalized = "nvidia";
        display = "NVIDIA";
        language = none;
        kind = "canonical";
        keyword_ids = "k1" ∷ [];
        requires_word_boundaries = true;
      }
      ∷ [];
}

distinct : count_distinct ("a" ∷ "b" ∷ "a" ∷ []) ≡ 2
unfolding count_distinct
distinct = refl

index_from_payload-to_payload_example :
    index_from_payload (λ _. "") (λ _. none) (to_payload index) ≡ some index
index_from_payload-to_payload_example =
    index_from_payload-to_payload (λ _. "") (λ _. none) index
      ((refl, refl, omega arith, (refl, tt)), tt) ((refl, refl), tt)
