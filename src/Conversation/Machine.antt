-- ===== src/Conversation/Machine.antt =====
-- `ConversationAssembler.observe`: the state machine of one station.
use radio_broadcast_analysis.Prelude.{
  ℕ, zero, suc, ◌+◌, ◌-◌, ◌*◌, String, Bool, true, false, not, ◌&&◌, ◌||◌, Option, none, some, List,
  [], ◌∷◌, ◌++◌, if◌then◌else◌, ltb, leb, length, drop, member, filterb, nat_Eq, string_Eq, str_eq,
}
use radio_broadcast_analysis.Conversation.Data.{
  candidate, opened, CloseReason, silence, music, max_duration, disconnect, TranscribedSegment,
  ClosedConversation, StationState, is_open, has_candidate, is_some_match, max_preroll_segments,
  max_conversation_segments,
}
use radio_broadcast_analysis.Conversation.Close.{
  Environment, reset_station, last_of, or_fresh, close_station,
}

-- `_accept`
unfoldable pub is_after : Option ℕ → ℕ → Bool
is_after none n = true
is_after (some last) n = leb last n

abbrev pub same_session : Option String → String → Bool
same_session none id = false
same_session (some current) id = str_eq current id

unfoldable pub accept : StationState → TranscribedSegment → Bool
unfolding is_after
accept st s =
    if not (same_session st.station_session_id s.station_session_id)
    then true
    else if member st.seen_sequences s.sequence_number
    then false
    else is_after st.last_sequence s.sequence_number

abbrev pub to_list : Option ClosedConversation → List ClosedConversation
to_list none = []
to_list (some c) = c ∷ []

-- The new session of a reconnect closes what the old one left open.
unfoldable pub enter_session :
    Environment
    → String
    → StationState
    → TranscribedSegment
    → List ClosedConversation × StationState
enter_session env fresh st s = elim st.station_session_id [
  | none ↦ ([], record st { station_session_id = some s.station_session_id })
  | some current ↦
      if str_eq current s.station_session_id
      then ([], record st { station_session_id = some s.station_session_id })
      else (let (finished, idle_st) = close_station env fresh disconnect st in
          (
            to_list finished,
            record (reset_station idle_st) { station_session_id = some s.station_session_id },
          ))
]

-- `_gap_seconds`, in microseconds
unfoldable pub gap : StationState → TranscribedSegment → Option ℕ
gap st s = elim st.last_segment_end [ none ↦ none | some end ↦ some (s.started_at - end) ]

abbrev pub is_long : ℕ → Option ℕ → Bool
is_long limit none = false
is_long limit (some span) = leb limit span

abbrev pub gap_reason : String → CloseReason
gap_reason content_class =
    if str_eq content_class "music" || str_eq content_class "singing" then music else silence

unfoldable pub close_on_gap :
    Environment
    → String
    → StationState
    → TranscribedSegment
    → List ClosedConversation × StationState
unfolding gap
close_on_gap env fresh st s =
    if is_open st && is_long env.silence_end (gap st s)
    then (let (finished, idle_st) = close_station env fresh (gap_reason s.content_class) st in
        (to_list finished, idle_st))
    else ([], st)

-- range(from, from + size)
unfoldable pub count_up : ℕ → ℕ → List ℕ
count_up from zero = []
count_up from (suc size) = from ∷ count_up (suc from) size

unfoldable pub missing_between : Option ℕ → ℕ → List ℕ
unfolding count_up
missing_between none n = []
missing_between (some last) n = count_up (suc last) (n - suc last)

abbrev pub add_seen : List ℕ → ℕ → List ℕ
add_seen seen n = if member seen n then seen else n ∷ seen

-- The numbers that duplicate detection keeps: `value > n - 400` is written `n < value + 400`.
abbrev pub forget_old : ℕ → List ℕ → List ℕ
forget_old n seen =
    if ltb (4 * max_conversation_segments) (length seen)
    then filterb (λ value. ltb n (value + 2 * max_conversation_segments)) seen
    else seen

-- `_record_sequence`
unfoldable pub record_sequence : StationState → TranscribedSegment → StationState
unfolding missing_between
record_sequence st s = record st {
  missing_sequences = st.missing_sequences ++ missing_between st.last_sequence s.sequence_number;
  last_sequence = some s.sequence_number;
  seen_sequences = forget_old s.sequence_number (add_seen st.seen_sequences s.sequence_number);
}

-- `_preroll_for`: `ended_at >= started_at - window` is written `started_at <= ended_at + window`.
unfoldable pub preroll_for :
    Environment → StationState → TranscribedSegment → List TranscribedSegment
preroll_for env st s =
    filterb (λ item. leb s.started_at (item.ended_at + env.pre_keyword)) st.preroll

abbrev pub head_or : List TranscribedSegment → TranscribedSegment → TranscribedSegment
head_or [] s = s
head_or (p ∷ ps) s = p

-- `_open`
unfoldable pub open_conversation :
    Environment → String → StationState → TranscribedSegment → StationState
unfolding preroll_for
open_conversation env fresh st s =
    let preroll = preroll_for env st s in
    let first = head_or preroll s in
    record st {
      state = if is_some_match s.matches then opened else candidate;
      conversation_id = some (env.conversation_id_for s.station_session_id first.sequence_number);
      trace_id = or_fresh (some s.trace_id) fresh;
      segments = preroll ++ s ∷ [];
      matches = s.matches;
      preroll = [];
    }

-- deque(maxlen=MAX_PREROLL_SEGMENTS).append
unfoldable pub push_preroll : List TranscribedSegment → TranscribedSegment → List TranscribedSegment
push_preroll preroll s =
    if leb max_preroll_segments (length preroll)
    then drop 1 preroll ++ s ∷ []
    else preroll ++ s ∷ []

-- The loop of `_trim_preroll`, which drops from the left what ended before the window.
unfoldable pub trim_before : ℕ → ℕ → List TranscribedSegment → List TranscribedSegment
trim_before newest_end window [] = []
trim_before newest_end window (p ∷ ps) =
    if ltb (p.ended_at + window) newest_end then trim_before newest_end window ps else p ∷ ps

unfoldable pub trim_preroll : Environment → List TranscribedSegment → List TranscribedSegment
unfolding trim_before
trim_preroll env [] = []
trim_preroll env (p ∷ ps) = trim_before (last_of p ps).ended_at env.pre_keyword (p ∷ ps)

-- The three ways in which `observe` takes a segment in.
unfoldable pub take_in : Environment → String → StationState → TranscribedSegment → StationState
unfolding open_conversation push_preroll trim_preroll
take_in env fresh st s =
    if is_open st
    then record st {
      segments = st.segments ++ s ∷ [];
      matches = st.matches ++ s.matches;
      state = if is_some_match s.matches then opened else st.state;
    }
    else if has_candidate s
    then open_conversation env fresh st s
    else record st { preroll = trim_preroll env (push_preroll st.preroll s) }

unfoldable pub is_exhausted : Environment → List TranscribedSegment → Bool
is_exhausted env [] = false
is_exhausted env (first ∷ rest) =
    leb env.max_conversation ((last_of first rest).ended_at - first.started_at)
    || leb max_conversation_segments (length (first ∷ rest))

-- `_close_if_exhausted`, where the station is open
unfoldable pub close_if_exhausted :
    Environment → String → StationState → List ClosedConversation × StationState
unfolding is_exhausted
close_if_exhausted env fresh st =
    if is_open st && is_exhausted env st.segments
    then (let (finished, idle_st) = close_station env fresh max_duration st in
        (to_list finished, idle_st))
    else ([], st)

-- What `observe` does with a segment that it accepts.
unfoldable pub fold_segment :
    Environment
    → String
    → StationState
    → TranscribedSegment
    → List ClosedConversation × StationState
fold_segment env fresh st s =
    let (closed₁, st₁) = enter_session env fresh st s in
    let (closed₂, st₂) = close_on_gap env fresh st₁ s in
    let st₃ = record (take_in env fresh (record_sequence st₂ s) s) {
      last_segment_end = some s.ended_at;
    } in
    let (closed₃, st₄) = close_if_exhausted env fresh st₃ in (closed₁ ++ (closed₂ ++ closed₃), st₄)

-- `observe`, for the station of the segment
unfoldable pub observe_station :
    Environment
    → String
    → StationState
    → TranscribedSegment
    → List ClosedConversation × StationState
observe_station env fresh st s = if accept st s then fold_segment env fresh st s else ([], st)
