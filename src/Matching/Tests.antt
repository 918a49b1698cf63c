-- ===== src/Matching/Tests.antt =====
-- The matcher on concrete texts and matches.
use radio_broadcast_analysis.Prelude.{
  ℕ, ◌≤◌, String, Bool, true, false, none, List, [], ◌∷◌, ◌≡◌, ◌↔◌, refl, arith, count, All, nat_Eq,
  string_Eq,
}
use radio_broadcast_analysis.Prelude.Sort.{sort_by}
use radio_broadcast_analysis.Prelude.Dict.{get, put}
use radio_broadcast_analysis.Matching.Data.{MatchLevel, KeywordMatch}
use radio_broadcast_analysis.Matching.Selection.{deduplicate, keep_ranked, rank_leb, is_taken}
use radio_broadcast_analysis.Matching.Kept.{Separate}
use radio_broadcast_analysis.Matching.Strongest.{is_covered, deduplicate_lem}
use radio_broadcast_analysis.Matching.Fuzzy.{within_edit_distance}
use radio_broadcast_analysis.Matching.Scripts.{AtMost, within_edit_distance-AtMost}

-- "radio" and "rodeo", in code points
abbrev radio : List ℕ
radio = 114 ∷ 97 ∷ 100 ∷ 105 ∷ 111 ∷ []

abbrev rodeo : List ℕ
rodeo = 114 ∷ 111 ∷ 100 ∷ 101 ∷ 111 ∷ []

two_edits : within_edit_distance radio rodeo 2 ≡ true
unfolding within_edit_distance
two_edits = refl

more_than_one : within_edit_distance radio rodeo 1 ≡ false
unfolding within_edit_distance
more_than_one = refl

within_edit_distance-AtMost_example :
    within_edit_distance radio rodeo 2 ≡ true ↔ AtMost radio rodeo 2
within_edit_distance-AtMost_example = within_edit_distance-AtMost radio rodeo 2

abbrev mention : String → ℕ → ℕ → ℕ → KeywordMatch
mention id start end confidence = record {
  keyword_id = id;
  campaign_ids = [];
  canonical_value = "NVIDIA RTX";
  matched_text = [];
  match_level = MatchLevel.exact;
  start_char = start;
  end_char = end;
  start_ms = none;
  end_ms = none;
  confidence = confidence;
  alias_kind = "canonical";
  language = none;
  keyword_type = "brand";
}

-- "NVIDIA" and "NVIDIA RTX" of one keyword, a later "NVIDIA", and another keyword in the same place.
abbrev overlapping : List KeywordMatch
overlapping =
    mention "nvidia" 0 6 100
    ∷ mention "nvidia" 0 10 95
    ∷ mention "rtx" 7 10 100
    ∷ mention "nvidia" 20 26 100
    ∷ []

longest_win :
    deduplicate overlapping
    ≡ mention "nvidia" 0 10 95 ∷ mention "rtx" 7 10 100 ∷ mention "nvidia" 20 26 100 ∷ []
unfolding deduplicate sort_by keep_ranked rank_leb get put is_taken
longest_win = refl

deduplicate_lem_example :
    Separate (deduplicate overlapping)
    × All (λ m. is_covered (deduplicate overlapping) m ≡ true) overlapping
    × ((p : KeywordMatch → Bool) → count p (deduplicate overlapping) ≤ count p overlapping)
deduplicate_lem_example =
    deduplicate_lem overlapping (omega arith, (omega arith, (omega arith, (omega arith, tt))))
