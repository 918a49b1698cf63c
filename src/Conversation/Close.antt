-- ===== src/Conversation/Close.antt =====
-- `ConversationAssembler._close` and `_reset`, over the state of one station. `fresh` is the id that
-- `new_id()` would give; logging is left out.
use radio_broadcast_analysis.Prelude.{
  ℕ, ◌-◌, String, Bool, Option, none, some, List, [], ◌∷◌, if◌then◌else◌, leb, nat_Eq, string_Eq,
  str_eq,
}
use radio_broadcast_analysis.Prelude.Sort.{sort_by}
use radio_broadcast_analysis.Matching.Data.{KeywordMatch}
use radio_broadcast_analysis.Conversation.Data.{
  idle, CloseReason, TranscribedSegment, ClosedConversation, StationState, is_open, is_some_match,
}
use radio_broadcast_analysis.Conversation.Text.{
  transcript_of, rebase_matches, deduplicate_matches, dominant_language,
}

-- The settings, in microseconds, and what the module takes from other code: `conversation_id_for`
-- is uuid5 over its arguments, `is_space` is str.isspace, `ms_of` is int(seconds * 1000).
pub record Environment : Type 0 where
  pub silence_end : ℕ
  pub pre_keyword : ℕ
  pub max_conversation : ℕ
  pub conversation_id_for : String → ℕ → String
  pub is_space : ℕ → Bool
  pub ms_of : ℕ → ℕ

-- `_reset`
unfoldable pub reset_station : StationState → StationState
reset_station st = record st {
  state = idle;
  conversation_id = none;
  trace_id = "";
  segments = [];
  matches = [];
  missing_sequences = [];
}

abbrev pub last_of {ℓ} : {A : Type ℓ} → A → List A → A
last_of x [] = x
last_of x (y ∷ ys) = last_of y ys

abbrev pub or_fresh : Option String → String → String
or_fresh none fresh = fresh
or_fresh (some id) fresh = if str_eq id "" then fresh else id

abbrev pub or_empty : Option String → String
or_empty none = ""
or_empty (some id) = id

-- The conversation that `_close` emits from its segments.
unfoldable pub closed_conversation :
    Environment
    → String
    → CloseReason
    → StationState
    → TranscribedSegment
    → List TranscribedSegment
    → List KeywordMatch
    → ClosedConversation
closed_conversation env fresh reason st first rest matches = record {
  conversation_id = or_fresh st.conversation_id fresh;
  station_id = st.station_id;
  station_session_id = or_empty st.station_session_id;
  close_reason = reason;
  first_sequence_number = first.sequence_number;
  last_sequence_number = (last_of first rest).sequence_number;
  started_at = first.started_at;
  ended_at = (last_of first rest).ended_at;
  duration_ms = env.ms_of ((last_of first rest).ended_at - first.started_at);
  transcript_text = transcript_of env.is_space (first ∷ rest);
  detected_language = dominant_language (first ∷ rest);
  segments = first ∷ rest;
  matches = matches;
  missing_sequences = sort_by leb st.missing_sequences;
  trace_id = or_fresh (some st.trace_id) fresh;
}

unfoldable pub emit :
    Environment
    → String
    → CloseReason
    → StationState
    → List TranscribedSegment
    → Option ClosedConversation
unfolding closed_conversation
emit env fresh reason st [] = none
emit env fresh reason st (first ∷ rest) =
    let matches =
      deduplicate_matches (rebase_matches env.is_space env.ms_of first.started_at (first ∷ rest)) in
    if is_some_match matches
    then some (closed_conversation env fresh reason st first rest matches)
    else none

-- `_close`: whatever it emits, the station is idle afterwards.
unfoldable pub close_station :
    Environment → String → CloseReason → StationState → Option ClosedConversation × StationState
unfolding emit
close_station env fresh reason st =
    ((if is_open st then emit env fresh reason st st.segments else none), reset_station st)
