-- ===== src/Conversation/Data.antt =====
-- The records of app/services/conversation_assembler.py. A datetime is a count of microseconds, a
-- text the list of its code points.
use radio_broadcast_analysis.Prelude.{
  ℕ, String, Bool, true, false, ◌&&◌, Option, none, List, [], ◌∷◌, map, nat_Eq, string_Eq,
}
use radio_broadcast_analysis.Matching.Data.{KeywordMatch, requires_confirmation}

-- ConversationState and ConversationCloseReason of app/pipeline/enums.py
pub data State : Type 0 where
  idle candidate opened closing closed failed : State

pub data CloseReason : Type 0 where
  silence music max_duration disconnect shutdown error : CloseReason

-- MAX_PREROLL_SEGMENTS
abbrev pub max_preroll_segments : ℕ
max_preroll_segments = 40

-- MAX_CONVERSATION_SEGMENTS
abbrev pub max_conversation_segments : ℕ
max_conversation_segments = 200

pub record TranscribedSegment : Type 0 where
  pub segment_id : String
  pub station_id : String
  pub station_session_id : String
  pub sequence_number : ℕ
  pub transcript_id : String
  pub text : List ℕ
  pub started_at : ℕ
  pub ended_at : ℕ
  pub duration_ms : ℕ
  pub content_class : String
  pub language : Option String
  pub language_probability : Option ℕ
  pub matches : List KeywordMatch
  pub trace_id : String

-- bool(matches)
abbrev pub is_some_match : List KeywordMatch → Bool
is_some_match [] = false
is_some_match (m ∷ ms) = true

unfoldable pub has_candidate : TranscribedSegment → Bool
has_candidate s = is_some_match s.matches

pub record ClosedConversation : Type 0 where
  pub conversation_id : String
  pub station_id : String
  pub station_session_id : String
  pub close_reason : CloseReason
  pub first_sequence_number : ℕ
  pub last_sequence_number : ℕ
  pub started_at : ℕ
  pub ended_at : ℕ
  pub duration_ms : ℕ
  pub transcript_text : List ℕ
  pub detected_language : Option String
  pub segments : List TranscribedSegment
  pub matches : List KeywordMatch
  pub missing_sequences : List ℕ
  pub trace_id : String

-- all(match.requires_confirmation for match in matches)
unfoldable pub all_candidates : List KeywordMatch → Bool
all_candidates [] = true
all_candidates (m ∷ ms) = requires_confirmation m && all_candidates ms

unfoldable pub conversation_requires_confirmation : ClosedConversation → Bool
unfolding all_candidates
conversation_requires_confirmation c = is_some_match c.matches && all_candidates c.matches

unfoldable pub transcript_ids : ClosedConversation → List String
transcript_ids c = map (λ s. s.transcript_id) c.segments

pub record StationState : Type 0 where
  pub station_id : String
  pub station_session_id : Option String
  pub state : State
  pub conversation_id : Option String
  pub trace_id : String
  pub segments : List TranscribedSegment
  pub matches : List KeywordMatch
  pub preroll : List TranscribedSegment
  pub last_sequence : Option ℕ
  pub seen_sequences : List ℕ
  pub missing_sequences : List ℕ
  pub last_segment_end : Option ℕ

abbrev pub new_station : String → StationState
new_station station_id = record {
  station_id = station_id;
  station_session_id = none;
  state = idle;
  conversation_id = none;
  trace_id = "";
  segments = [];
  matches = [];
  preroll = [];
  last_sequence = none;
  seen_sequences = [];
  missing_sequences = [];
  last_segment_end = none;
}

-- `is_open`
abbrev pub is_open_state : State → Bool
is_open_state candidate = true
is_open_state opened = true
is_open_state _ = false

unfoldable pub is_open : StationState → Bool
is_open st = is_open_state st.state
