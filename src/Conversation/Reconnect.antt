-- ===== src/Conversation/Reconnect.antt =====
-- What a station remembers of the sequence numbers it has observed: a redelivered segment is
-- ignored, and so is a segment of a new session that reuses a number of the old one.
use radio_broadcast_analysis.Prelude.{
  ◌≢◌, ℕ, suc, ◌*◌, ◌≤◌, ◌<◌, String, true, Option, some, List, [], ◌≡◌, refl, sym, ap, ◌∙◌, inl,
  inr, arith, length, member, nat_Eq, string_Eq, eq_iff, str_eq, Bool-cases, Option-cases,
}
use radio_broadcast_analysis.Conversation.Data.{
  TranscribedSegment, StationState, max_conversation_segments,
}
use radio_broadcast_analysis.Conversation.Close.{Environment, reset_station, close_station}
use radio_broadcast_analysis.Conversation.Machine.{
  accept, enter_session, close_on_gap, add_seen, forget_old, record_sequence, take_in,
  open_conversation, close_if_exhausted, fold_segment, observe_station,
}
use radio_broadcast_analysis.Conversation.Emitted.{member-add_seen, member-forget_old}

-- The station is in the session and remembers these sequence numbers.
abbrev Remembers : Option String → List ℕ → StationState → Type 0
Remembers session seen st = (st.station_session_id ≡ session) × (st.seen_sequences ≡ seen)

module _ (env : Environment) (fresh : String) (s : TranscribedSegment) where
  enter_session-Remembers :
      (st : StationState)
      → Remembers (some s.station_session_id) st.seen_sequences (enter_session env fresh st s).1
  unfolding enter_session close_station reset_station
  enter_session-Remembers st = elim (Option-cases st.station_session_id) [
    | inl absent ↦ rw (absent) (refl, refl)
    | inr (current, present) ↦
        rw (present) (elim (Bool-cases (str_eq current s.station_session_id)) [
          | inl same ↦ rw (same) (refl, refl)
          | inr other ↦ rw (other) (refl, refl)
        ])
  ]

  close_on_gap-Remembers :
      (st : StationState)
      → Remembers st.station_session_id st.seen_sequences (close_on_gap env fresh st s).1
  unfolding close_on_gap close_station reset_station
  close_on_gap-Remembers st = ground arith

  take_in-Remembers :
      (st : StationState)
      → Remembers st.station_session_id st.seen_sequences (take_in env fresh st s)
  unfolding take_in open_conversation
  take_in-Remembers st = ground arith

  close_if_exhausted-Remembers :
      (st : StationState)
      → Remembers st.station_session_id st.seen_sequences (close_if_exhausted env fresh st).1
  unfolding close_if_exhausted close_station reset_station
  close_if_exhausted-Remembers st = ground arith

  fold_segment-Remembers :
      (st : StationState)
      → Remembers
          (some s.station_session_id)
          (forget_old s.sequence_number (add_seen st.seen_sequences s.sequence_number))
          (fold_segment env fresh st s).1
  unfolding fold_segment record_sequence
  fold_segment-Remembers st =
      let entered = (enter_session env fresh st s).1 in
      let waiting = (close_on_gap env fresh entered s).1 in
      let taken = take_in env fresh (record_sequence waiting s) s in
      let last = record taken { last_segment_end = some s.ended_at } in
      let a = enter_session-Remembers st in
      let b = close_on_gap-Remembers entered in
      let c = take_in-Remembers (record_sequence waiting s) in
      let d = close_if_exhausted-Remembers last in
      (
        d.0 ∙ (c.0 ∙ (b.0 ∙ a.0)),
        d.1
            ∙ (c.1
                ∙ ap (λ seen. forget_old s.sequence_number (add_seen seen s.sequence_number))
                    (b.1 ∙ a.1)),
      )

observe_station-remembered :
    (env : Environment) (fresh : String) (st : StationState) (s : TranscribedSegment)
    → st.station_session_id ≡ some s.station_session_id
    → member st.seen_sequences s.sequence_number ≡ true
    → observe_station env fresh st s ≡ ([], st)
unfolding observe_station accept
observe_station-remembered env fresh st s same seen =
    rw (same, (eq_iff s.station_session_id s.station_session_id).1 refl, seen) refl

observe_station-accepted :
    (env : Environment) (fresh : String) (st : StationState) (s : TranscribedSegment)
    → accept st s ≡ true
    → observe_station env fresh st s ≡ fold_segment env fresh st s
unfolding observe_station
observe_station-accepted env fresh st s taken = rw (taken) refl

accept-other :
    (st : StationState) (s : TranscribedSegment)
    → st.station_session_id ≢ some s.station_session_id
    → accept st s ≡ true
unfolding accept
accept-other st s other = elim (Option-cases st.station_session_id) [
  | inl absent ↦ rw (absent) refl
  | inr (current, present) ↦ elim (Bool-cases (str_eq current s.station_session_id)) [
    | inl same ↦ absurd (other (present ∙ ap some ((eq_iff current s.station_session_id).0 same)))
    | inr differs ↦ rw (present, differs) refl
  ]
]

-- A segment that is observed twice in a row is observed once: the second time nothing is closed
-- and the station stays as it is, whether the segment was accepted or not.
pub observe_station-redelivered :
    (env : Environment) (fresh again : String) (st : StationState) (s : TranscribedSegment)
    → observe_station env again (observe_station env fresh st s).1 s
      ≡ ([], (observe_station env fresh st s).1)
observe_station-redelivered env fresh again st s = elim (Bool-cases (accept st s)) [
  | inl taken ↦ rw (observe_station-accepted env fresh st s taken) (
      let r = fold_segment-Remembers env fresh s st in
      observe_station-remembered env again (fold_segment env fresh st s).1 s r.0 (
        rw (r.1) (
          member-forget_old s.sequence_number (add_seen st.seen_sequences s.sequence_number)
            (member-add_seen s.sequence_number st.seen_sequences))))
  | inr refused ↦ unfold observe_station in rw (refused, refused) refl
]

length-add_seen : (seen : List ℕ) (n : ℕ) → length (add_seen seen n) ≤ suc (length seen)
length-add_seen seen n = ground arith

member-kept :
    (seen : List ℕ) (n k : ℕ)
    → member seen k ≡ true
    → length seen < 4 * max_conversation_segments
    → member (forget_old n (add_seen seen n)) k ≡ true
member-kept seen n k h few = ground (arith, length-add_seen seen n)

-- After the first segment of a new session, while fewer than 800 sequence numbers of the old
-- session are remembered: a segment of the new session whose number the old session had used is
-- ignored, whatever it holds.
pub observe_station-resumed :
    (env : Environment) (fresh again : String) (st : StationState) (s t : TranscribedSegment)
    → st.station_session_id ≢ some s.station_session_id
    → t.station_session_id ≡ s.station_session_id
    → member st.seen_sequences t.sequence_number ≡ true
    → length st.seen_sequences < 4 * max_conversation_segments
    → observe_station env again (observe_station env fresh st s).1 t
      ≡ ([], (observe_station env fresh st s).1)
observe_station-resumed env fresh again st s t fresh_session same used few =
    rw (observe_station-accepted env fresh st s (accept-other st s fresh_session)) (
      let r = fold_segment-Remembers env fresh s st in
      observe_station-remembered env again (fold_segment env fresh st s).1 t
        (r.0 ∙ ap some (sym same))
        (rw (r.1) (member-kept st.seen_sequences s.sequence_number t.sequence_number used few)))
