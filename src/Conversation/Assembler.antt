-- ===== src/Conversation/Assembler.antt =====
-- `ConversationAssembler`: the dict of stations and its entry points.
use radio_broadcast_analysis.Prelude.{
  String, not, ◌&&◌, Option, none, some, List, [], ◌∷◌, ◌++◌, if◌then◌else◌, nat_Eq, string_Eq,
  str_eq,
}
use radio_broadcast_analysis.Prelude.Dict.{Dict, get, put}
use radio_broadcast_analysis.Prelude.Sort.{sort_by}
use radio_broadcast_analysis.Prelude.Text.{text_leb}
use radio_broadcast_analysis.Conversation.Data.{
  State, idle, CloseReason, TranscribedSegment, ClosedConversation, StationState, new_station,
  is_open,
}
use radio_broadcast_analysis.Conversation.Close.{Environment, close_station}
use radio_broadcast_analysis.Conversation.Machine.{observe_station, to_list}

abbrev pub Assembler : Type 0
Assembler = Dict String StationState

-- `setdefault`: the station's state, new if it was never seen.
unfoldable pub station_or_new : Assembler → String → StationState
station_or_new stations id = elim (get stations id) [ none ↦ new_station id | some st ↦ st ]

unfoldable pub state_of : Assembler → String → State
state_of stations id = elim (get stations id) [ none ↦ idle | some st ↦ st.state ]

unfoldable pub observe :
    Environment → String → Assembler → TranscribedSegment → List ClosedConversation × Assembler
observe env fresh stations s =
    let (closed, st) = observe_station env fresh (station_or_new stations s.station_id) s in
    (closed, put stations s.station_id st)

unfoldable pub close :
    Environment → String → CloseReason → Assembler → String → Option ClosedConversation × Assembler
close env fresh reason stations id = elim (get stations id) [
  | none ↦ (none, stations)
  | some st ↦
      let (finished, idle_st) = close_station env fresh reason st in
      (finished, put stations id idle_st)
]

unfoldable pub close_all :
    Environment → String → CloseReason → Assembler → List ClosedConversation × Assembler
close_all env fresh reason [] = ([], [])
close_all env fresh reason ((id, st) ∷ stations) =
    let (finished, idle_st) = close_station env fresh reason st in
    let (closed, rest) = close_all env fresh reason stations in
    (to_list finished ++ closed, (id, idle_st) ∷ rest)

-- The ids that `open_conversation_ids` sorts.
unfoldable pub open_ids : Assembler → List String
open_ids [] = []
open_ids ((id, st) ∷ stations) = elim st.conversation_id [
  | none ↦ open_ids stations
  | some c ↦ if is_open st && not (str_eq c "") then c ∷ open_ids stations else open_ids stations
]

unfoldable pub open_conversation_ids : Assembler → List String
unfolding open_ids
open_conversation_ids stations = sort_by text_leb (open_ids stations)
