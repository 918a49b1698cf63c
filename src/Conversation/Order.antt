-- ===== src/Conversation/Order.antt =====
-- Segments of one session come out in order: what is emitted is strictly increasing.
use radio_broadcast_analysis.Prelude.{
  ℕ, ◌≤◌, ◌<◌, String, Bool, true, ◌&&◌, some, List, [], ◌∷◌, ◌++◌, ◌≡◌, ◌≢◌, refl, inl, inr, arith,
  member, filterb, All, All-append, All-filterb, All-imp, nat_Eq, string_Eq, Bool-cases,
}
use radio_broadcast_analysis.Conversation.Data.{
  CloseReason, TranscribedSegment, ClosedConversation, StationState, is_open, is_some_match,
}
use radio_broadcast_analysis.Conversation.Close.{
  Environment, reset_station, last_of, closed_conversation, emit, close_station,
}
use radio_broadcast_analysis.Conversation.Machine.{
  to_list, gap, is_long, gap_reason, close_on_gap, preroll_for, open_conversation, push_preroll,
  trim_before, trim_preroll, take_in,
}
use radio_broadcast_analysis.Conversation.Text.{rebase_matches, deduplicate_matches}

-- Strictly increasing sequence numbers.
abbrev pub IsIncreasing : List TranscribedSegment → Type 0
IsIncreasing [] = Unit
IsIncreasing (x ∷ xs) = All (λ y. x.sequence_number < y.sequence_number) xs × IsIncreasing xs

-- The segment belongs to the session and is no later than the last one.
abbrev pub Known : String → ℕ → TranscribedSegment → Type 0
Known session last x = (x.station_session_id ≡ session) × (x.sequence_number ≤ last)

-- The segment belongs to the session and is before `s`.
abbrev pub Earlier : String → TranscribedSegment → TranscribedSegment → Type 0
Earlier session s x = (x.station_session_id ≡ session) × (x.sequence_number < s.sequence_number)

IsIncreasing-snoc :
    (session : String) (xs : List TranscribedSegment) (s : TranscribedSegment)
    → IsIncreasing xs
    → All (Earlier session s) xs
    → IsIncreasing (xs ++ s ∷ [])
IsIncreasing-snoc session [] s i k = (tt, tt)
IsIncreasing-snoc session (x ∷ xs) s i k = (
  All-append (λ y. x.sequence_number < y.sequence_number) xs (s ∷ []) i.0 (k.0.1, tt),
  IsIncreasing-snoc session xs s i.1 k.1,
)

Known-snoc :
    (session : String) (xs : List TranscribedSegment) (s : TranscribedSegment)
    → All (Earlier session s) xs
    → s.station_session_id ≡ session
    → All (Known session s.sequence_number) (xs ++ s ∷ [])
Known-snoc session xs s k e =
    All-append (Known session s.sequence_number) xs (s ∷ [])
      (All-imp (λ x h. (h.0, omega (arith, h.1))) xs k) ((e, omega arith), tt)

IsIncreasing-filterb :
    (p : TranscribedSegment → Bool) (xs : List TranscribedSegment)
    → IsIncreasing xs
    → IsIncreasing (filterb p xs)
IsIncreasing-filterb p [] i = tt
IsIncreasing-filterb p (x ∷ xs) i = ground (
  arith,
  IsIncreasing-filterb p xs i.1,
  All-filterb (λ y. x.sequence_number < y.sequence_number) p xs i.0,
)

trim_before-keeps :
    (P : TranscribedSegment → Type 0) (newest window : ℕ) (ps : List TranscribedSegment)
    → All P ps × IsIncreasing ps
    → All P (trim_before newest window ps) × IsIncreasing (trim_before newest window ps)
unfolding trim_before
trim_before-keeps P newest window [] h = h
trim_before-keeps P newest window (p ∷ ps) h = ground (arith, trim_before-keeps P newest window ps)

trim_preroll-keeps :
    (P : TranscribedSegment → Type 0) (env : Environment) (ps : List TranscribedSegment)
    → All P ps × IsIncreasing ps
    → All P (trim_preroll env ps) × IsIncreasing (trim_preroll env ps)
unfolding trim_preroll
trim_preroll-keeps P env [] h = h
trim_preroll-keeps P env (p ∷ ps) h =
    trim_before-keeps P (last_of p ps).ended_at env.pre_keyword (p ∷ ps) h

push_preroll-keeps :
    (session : String) (ps : List TranscribedSegment) (s : TranscribedSegment)
    → IsIncreasing ps
    → All (Earlier session s) ps
    → s.station_session_id ≡ session
    → All (Known session s.sequence_number) (push_preroll ps s) × IsIncreasing (push_preroll ps s)
unfolding push_preroll
push_preroll-keeps session [] s i k e = ground arith
push_preroll-keeps session (p ∷ ps) s i k e = ground (
  arith,
  Known-snoc session ps s k.1 e,
  Known-snoc session (p ∷ ps) s k e,
  IsIncreasing-snoc session ps s i.1 k.1,
  IsIncreasing-snoc session (p ∷ ps) s i k,
)

-- Every segment of the session that the station holds is before its last, in order.
pub record InSession (session : String) (st : StationState) : Type 0 where
  pub last : ℕ
  pub entered : st.station_session_id ≡ some session
  pub counted : st.last_sequence ≡ some last
  pub remembered : member st.seen_sequences last ≡ true
  pub held : All (Known session last) st.segments
  pub held_order : IsIncreasing st.segments
  pub waiting : All (Known session last) st.preroll
  pub waiting_order : IsIncreasing st.preroll

-- An emitted conversation of the session: its segments in order, and evidence of a keyword.
abbrev pub IsEvidence : String → ClosedConversation → Type 0
IsEvidence session c =
    IsIncreasing c.segments
    × All (λ x. x.station_session_id ≡ session) c.segments
    × (c.segments ≢ [])
    × (is_some_match c.matches ≡ true)

emit-IsEvidence :
    (env : Environment) (fresh session : String) (reason : CloseReason) (st : StationState)
    (segments : List TranscribedSegment)
    → IsIncreasing segments
    → All (λ x. x.station_session_id ≡ session) segments
    → All (IsEvidence session) (to_list (emit env fresh reason st segments))
unfolding emit closed_conversation
emit-IsEvidence env fresh session reason st [] i k = tt
emit-IsEvidence env fresh session reason st (x ∷ xs) i k =
    elim (Bool-cases (
      is_some_match
        (deduplicate_matches (rebase_matches env.is_space env.ms_of x.started_at (x ∷ xs))))) [
          | inl found ↦ rw (found) ((i, k, (λ e. cc), found), tt)
          | inr absent ↦ rw (absent) tt
        ]

pub close_station-IsEvidence :
    (env : Environment) (fresh session : String) (reason : CloseReason) (st : StationState)
    → IsIncreasing st.segments
    → All (λ x. x.station_session_id ≡ session) st.segments
    → All (IsEvidence session) (to_list (close_station env fresh reason st).0)
unfolding close_station
close_station-IsEvidence env fresh session reason st i k = elim (Bool-cases (is_open st)) [
  | inl open_ ↦ rw (open_) (emit-IsEvidence env fresh session reason st st.segments i k)
  | inr shut ↦ rw (shut) tt
]

-- What the station holds when it takes the segment in.
pub record IsReady (session : String) (s : TranscribedSegment) (st : StationState) : Type 0 where
  pub held : All (Earlier session s) st.segments
  pub held_order : IsIncreasing st.segments
  pub waiting : All (Earlier session s) st.preroll
  pub waiting_order : IsIncreasing st.preroll

module _ (env : Environment) (fresh session : String) (s : TranscribedSegment)
    (own : s.station_session_id ≡ session) where
  pub close_on_gap-IsReady :
      (st : StationState)
      → IsReady session s st
      → All (IsEvidence session) (close_on_gap env fresh st s).0
        × IsReady session s (close_on_gap env fresh st s).1
        × ((close_on_gap env fresh st s).1.station_session_id ≡ st.station_session_id)
  unfolding close_on_gap
  close_on_gap-IsReady st r = elim (Bool-cases (is_open st && is_long env.silence_end (gap st s))) [
    | inl ends ↦ rw (ends) (
      close_station-IsEvidence env fresh session (gap_reason s.content_class) st r.held_order
          (All-imp (λ x h. h.0) st.segments r.held),
      unfold close_station reset_station in
          record {
            held = tt;
            held_order = tt;
            waiting = r.waiting;
            waiting_order = r.waiting_order;
          },
      unfold close_station reset_station in refl,
    )
    | inr goes_on ↦ rw (goes_on) (tt, r, refl)
  ]

  pub take_in-Known :
      (st : StationState)
      → IsReady session s st
      → let st' = take_in env fresh st s in
        All (Known session s.sequence_number) st'.segments
        × IsIncreasing st'.segments
        × All (Known session s.sequence_number) st'.preroll
        × IsIncreasing st'.preroll
        × (st'.station_session_id ≡ st.station_session_id)
        × (st'.last_sequence ≡ st.last_sequence)
        × (st'.seen_sequences ≡ st.seen_sequences)
  unfolding take_in open_conversation preroll_for
  take_in-Known st r = ground (
    arith,
    Known-snoc session st.segments s r.held own,
    IsIncreasing-snoc session st.segments s r.held_order r.held,
    Known-snoc session (preroll_for env st s) s kept own,
    IsIncreasing-snoc session (preroll_for env st s) s kept_order kept,
    older st.segments r.held,
    older st.preroll r.waiting,
    trim_preroll-keeps (Known session s.sequence_number) env (push_preroll st.preroll s)
        (push_preroll-keeps session st.preroll s r.waiting_order r.waiting own),
  )
    where
      older :
          (xs : List TranscribedSegment)
          → All (Earlier session s) xs
          → All (Known session s.sequence_number) xs
      older xs k = All-imp (λ x h. (h.0, omega (arith, h.1))) xs k

      kept : All (Earlier session s) (preroll_for env st s)
      kept = unfold preroll_for in All-filterb (Earlier session s) _ st.preroll r.waiting

      kept_order : IsIncreasing (preroll_for env st s)
      kept_order = unfold preroll_for in IsIncreasing-filterb _ st.preroll r.waiting_order
