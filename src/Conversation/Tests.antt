-- ===== src/Conversation/Tests.antt =====
-- The conversation assembler on a concrete broadcast, and its theorems at it.
use radio_broadcast_analysis.Prelude.{
  ℕ, ◌+◌, ◌/◌, ◌<◌, String, Bool, true, false, none, some, List, [], ◌∷◌, ◌≡◌, ◌≢◌, refl, ap, arith,
  if◌then◌else◌, nat_eq, anyb, count, All, nat_Eq, string_Eq, str_eq,
}
use radio_broadcast_analysis.Matching.Data.{MatchLevel, KeywordMatch}
use radio_broadcast_analysis.Conversation.Data.{TranscribedSegment, StationState, new_station}
use radio_broadcast_analysis.Conversation.Close.{Environment}
use radio_broadcast_analysis.Conversation.Text.{
  deduplicate_matches, strongest, keep_stronger, rebase_matches, transcript_of, strip, lstrip,
  rstrip,
}
use radio_broadcast_analysis.Conversation.Machine.{observe_station, same_session}
use radio_broadcast_analysis.Prelude.Sort.{sort_by}
use radio_broadcast_analysis.Prelude.Dict.{get, put}
use radio_broadcast_analysis.Conversation.Dedupe.{deduplicate_matches_lem, is_stronger}
use radio_broadcast_analysis.Conversation.Rebase.{rebase_matches_lem, cuts, evidence, IsInside}
use radio_broadcast_analysis.Conversation.Bounds.{IsBounded, observe_station-IsBounded}
use radio_broadcast_analysis.Conversation.Order.{IsEvidence}
use radio_broadcast_analysis.Conversation.Emitted.{observe_all, observe_all-IsEvidence}
use radio_broadcast_analysis.Conversation.Reconnect.{
  observe_station-redelivered, observe_station-resumed,
}

abbrev is_blank : ℕ → Bool
is_blank c = nat_eq c 32

-- Three seconds of silence, thirty of lead-in, five minutes at most.
abbrev settings : Environment
settings = record {
  silence_end = 3000000;
  pre_keyword = 30000000;
  max_conversation = 300000000;
  conversation_id_for = λ session n. session;
  is_space = is_blank;
  ms_of = λ span. span / 1000;
}

abbrev mention : ℕ → ℕ → ℕ → KeywordMatch
mention start end confidence = record {
  keyword_id = "acme";
  campaign_ids = "spring" ∷ [];
  canonical_value = "Acme";
  matched_text = [];
  match_level = MatchLevel.exact;
  start_char = start;
  end_char = end;
  start_ms = some 100;
  end_ms = none;
  confidence = confidence;
  alias_kind = "name";
  language = none;
  keyword_type = "brand";
}

abbrev segment : String → ℕ → ℕ → List ℕ → List KeywordMatch → TranscribedSegment
segment session n started_at text matches = record {
  segment_id = "segment";
  station_id = "kexp";
  station_session_id = session;
  sequence_number = n;
  transcript_id = "transcript";
  text = text;
  started_at = started_at;
  ended_at = started_at + 1000000;
  duration_ms = 1000;
  content_class = "speech";
  language = some "en";
  language_probability = none;
  matches = matches;
  trace_id = "trace";
}

abbrev intro : TranscribedSegment
intro = segment "first" 1 0 (32 ∷ 72 ∷ 105 ∷ 32 ∷ []) []

abbrev ad : TranscribedSegment
ad = segment "first" 2 1000000 (32 ∷ 65 ∷ 99 ∷ 109 ∷ 101 ∷ []) (mention 1 5 100 ∷ [])

abbrev late : TranscribedSegment
late = segment "first" 5 9000000 (72 ∷ []) []

abbrev resumed : TranscribedSegment
resumed = segment "second" 3 9000000 (72 ∷ []) []

-- The first segment of the session after `resumed`, whose number the old session had used.
abbrev dropped : TranscribedSegment
dropped = segment "second" 5 12000000 (65 ∷ 99 ∷ 109 ∷ 101 ∷ []) (mention 0 4 100 ∷ [])

abbrev heard : List KeywordMatch
heard = mention 7 9 55 ∷ mention 1 3 100 ∷ []

deduplicate_matches_lem_example :
    ((k : String)
      → count (λ x. str_eq x.keyword_id k) (deduplicate_matches heard)
        ≡ (if anyb (λ x. str_eq x.keyword_id k) heard then 1 else 0))
    × All (λ m. 0 < count (is_stronger m) (deduplicate_matches heard)) heard
    × ((P : KeywordMatch → Type 0) → All P heard → All P (deduplicate_matches heard))
deduplicate_matches_lem_example = deduplicate_matches_lem heard

kept : deduplicate_matches heard ≡ mention 1 3 100 ∷ []
unfolding deduplicate_matches strongest keep_stronger sort_by get put
kept = refl

ad-IsInside : All (λ s. All (IsInside is_blank s) s.matches) (intro ∷ ad ∷ [])
unfolding lstrip rstrip strip
ad-IsInside = (tt, (((omega arith, omega arith, omega arith), tt), tt))

rebase_matches_lem_example :
    cuts
      (transcript_of is_blank (intro ∷ ad ∷ []))
      (rebase_matches is_blank (λ span. span / 1000) 0 (intro ∷ ad ∷ []))
    ≡ evidence is_blank (intro ∷ ad ∷ [])
rebase_matches_lem_example =
    rebase_matches_lem is_blank (λ span. span / 1000) 0 (intro ∷ ad ∷ []) ad-IsInside

observe_station-IsBounded_example :
    IsBounded (observe_station settings "fresh" (new_station "kexp") ad).1
observe_station-IsBounded_example =
    observe_station-IsBounded settings "fresh" ad (new_station "kexp")
      (record { preroll_small = omega arith; segments_small = omega arith })

abbrev arrivals : List (String × TranscribedSegment)
arrivals = ("a", intro) ∷ ("b", ad) ∷ ("c", ad) ∷ ("d", late) ∷ []

observe_all-IsEvidence_example :
    All (IsEvidence "first") (observe_all settings (new_station "kexp") arrivals).0
observe_all-IsEvidence_example =
    observe_all-IsEvidence settings "kexp" "first" arrivals (refl, (refl, (refl, (refl, tt))))

observe_station-redelivered_example :
    observe_station settings "b" (observe_station settings "a" (new_station "kexp") ad).1 ad
    ≡ ([], (observe_station settings "a" (new_station "kexp") ad).1)
observe_station-redelivered_example =
    observe_station-redelivered settings "a" "b" (new_station "kexp") ad

abbrev old_session : StationState
old_session = record (new_station "kexp") {
  station_session_id = some "first";
  last_sequence = some 5;
  seen_sequences = 5 ∷ 4 ∷ [];
}

other_session : old_session.station_session_id ≢ some resumed.station_session_id
other_session e = let h : false ≡ true = ap (λ o. same_session o "second") e in absurd (cc)

observe_station-resumed_example :
    observe_station settings "b" (observe_station settings "a" old_session resumed).1 dropped
    ≡ ([], (observe_station settings "a" old_session resumed).1)
observe_station-resumed_example =
    observe_station-resumed settings "a" "b" old_session resumed dropped other_session refl refl
      (omega arith)
