-- ===== src/Conversation/Bounds.antt =====
-- The memory of the state machine is bounded: the pre-roll and the conversation in hand.
use radio_broadcast_analysis.Prelude.{
  ℕ, ◌+◌, ◌≤◌, ◌<◌, String, false, some, List, [], ◌∷◌, ◌≡◌, inl, inr, arith, leb, length, drop,
  length-append, length-drop, length-filterb-le, nat_Eq, string_Eq, Bool-cases,
}
use radio_broadcast_analysis.Conversation.Data.{
  CloseReason, TranscribedSegment, StationState, new_station, is_open, has_candidate,
  max_preroll_segments, max_conversation_segments,
}
use radio_broadcast_analysis.Conversation.Close.{Environment, reset_station, last_of, close_station}
use radio_broadcast_analysis.Conversation.Machine.{
  accept, enter_session, close_on_gap, record_sequence, preroll_for, open_conversation,
  push_preroll, trim_before, trim_preroll, take_in, is_exhausted, close_if_exhausted, fold_segment,
  observe_station,
}

pub record IsBounded (st : StationState) : Type 0 where
  pub preroll_small : length st.preroll ≤ max_preroll_segments
  pub segments_small : length st.segments < max_conversation_segments

new_station-IsBounded : (id : String) → IsBounded (new_station id)
new_station-IsBounded id = record { preroll_small = omega arith; segments_small = omega arith }

reset_station-IsBounded :
    (st : StationState) → length st.preroll ≤ max_preroll_segments → IsBounded (reset_station st)
unfolding reset_station
reset_station-IsBounded st h = record { preroll_small = h; segments_small = omega arith }

pub close_station-IsBounded :
    (env : Environment) (fresh : String) (reason : CloseReason) (st : StationState)
    → IsBounded st
    → IsBounded (close_station env fresh reason st).1
unfolding close_station
close_station-IsBounded env fresh reason st b = reset_station-IsBounded st b.preroll_small

length-trim_before-le :
    (newest window : ℕ) (ps : List TranscribedSegment)
    → length (trim_before newest window ps) ≤ length ps
unfolding trim_before
length-trim_before-le newest window [] = omega arith
length-trim_before-le newest window (p ∷ ps) =
    ground (arith, length-trim_before-le newest window ps)

length-trim_preroll-le :
    (env : Environment) (ps : List TranscribedSegment) → length (trim_preroll env ps) ≤ length ps
unfolding trim_preroll
length-trim_preroll-le env [] = omega arith
length-trim_preroll-le env (p ∷ ps) =
    length-trim_before-le (last_of p ps).ended_at env.pre_keyword (p ∷ ps)

length-push_preroll-le :
    (ps : List TranscribedSegment) (s : TranscribedSegment)
    → length ps ≤ max_preroll_segments
    → length (push_preroll ps s) ≤ max_preroll_segments
unfolding push_preroll
length-push_preroll-le ps s h =
    ground (arith, length-append (drop 1 ps) (s ∷ []), length-append ps (s ∷ []), length-drop 1 ps)

module _ (env : Environment) (fresh : String) (s : TranscribedSegment) where
  enter_session-IsBounded :
      (st : StationState) → IsBounded st → IsBounded (enter_session env fresh st s).1
  unfolding enter_session close_station reset_station
  enter_session-IsBounded st b = ground arith

  close_on_gap-IsBounded :
      (st : StationState) → IsBounded st → IsBounded (close_on_gap env fresh st s).1
  unfolding close_on_gap close_station reset_station
  close_on_gap-IsBounded st b = ground arith

  -- One more segment may fill the conversation up.
  record IsFull (st : StationState) : Type 0 where
    preroll_small : length st.preroll ≤ max_preroll_segments
    segments_full : length st.segments ≤ max_conversation_segments

  take_in-IsFull : (st : StationState) → IsBounded st → IsFull (take_in env fresh st s)
  unfolding take_in open_conversation preroll_for
  take_in-IsFull st b = ground (
    arith,
    length-append st.segments (s ∷ []),
    length-append (preroll_for env st s) (s ∷ []),
    length-filterb-le (λ item. leb s.started_at (item.ended_at + env.pre_keyword)) st.preroll,
    length-push_preroll-le st.preroll s b.preroll_small,
    length-trim_preroll-le env (push_preroll st.preroll s),
  )

  take_in_idle :
      (st : StationState)
      → IsBounded st
      → is_open (take_in env fresh st s) ≡ false
      → length (take_in env fresh st s).segments < max_conversation_segments
  unfolding take_in open_conversation is_open has_candidate
  take_in_idle st b = ground arith

  exhausted_by_length :
      (segments : List TranscribedSegment)
      → is_exhausted env segments ≡ false
      → length segments < max_conversation_segments
  unfolding is_exhausted
  exhausted_by_length [] h = omega arith
  exhausted_by_length (x ∷ xs) h = ground (arith, h)

  close_if_exhausted-IsBounded :
      (st : StationState)
      → IsFull st
      → (is_open st ≡ false → length st.segments < max_conversation_segments)
      → IsBounded (close_if_exhausted env fresh st).1
  unfolding close_if_exhausted close_station reset_station
  close_if_exhausted-IsBounded st f unopened = ground (arith, exhausted_by_length st.segments)

  fold_segment-IsBounded :
      (st : StationState) → IsBounded st → IsBounded (fold_segment env fresh st s).1
  unfolding fold_segment
  fold_segment-IsBounded st b =
      close_if_exhausted-IsBounded (record taken { last_segment_end = some s.ended_at })
        (record { preroll_small = full.preroll_small; segments_full = full.segments_full })
        (unfold is_open in take_in_idle recorded bounded)
    where
      settled : StationState
      settled = (close_on_gap env fresh (enter_session env fresh st s).1 s).1

      recorded : StationState
      recorded = record_sequence settled s

      bounded : IsBounded recorded
      bounded =
          let b' = close_on_gap-IsBounded _ (enter_session-IsBounded st b) in
          unfold record_sequence in
          record { preroll_small = b'.preroll_small; segments_small = b'.segments_small }

      taken : StationState
      taken = take_in env fresh recorded s

      full : IsFull taken
      full = take_in-IsFull recorded bounded

  -- A station that holds at most 40 segments of pre-roll and fewer than 200 of conversation is
  -- within these bounds after any segment.
  pub observe_station-IsBounded :
      (st : StationState) → IsBounded st → IsBounded (observe_station env fresh st s).1
  unfolding observe_station
  observe_station-IsBounded st b = elim (Bool-cases (accept st s)) [
    | inl taken ↦ rw (taken) (fold_segment-IsBounded st b)
    | inr refused ↦ rw (refused) b
  ]
