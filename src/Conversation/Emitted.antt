-- ===== src/Conversation/Emitted.antt =====
-- The runs of the conversation assembler over one session: what is emitted is in order.
use radio_broadcast_analysis.Prelude.{
  ℕ, ◌+◌, ◌*◌, ◌<◌, String, Bool, true, ◌&&◌, none, some, List, [], ◌∷◌, ◌++◌, ◌≡◌, ◌⊎◌, refl, ◌∙◌,
  inl, inr, arith, ltb, member, filterb, All, All-append, All-imp, nat_Eq, string_Eq, eq_iff,
  Bool-cases,
}
use radio_broadcast_analysis.Conversation.Data.{
  TranscribedSegment, ClosedConversation, StationState, new_station, is_open,
  max_conversation_segments, max_duration,
}
use radio_broadcast_analysis.Conversation.Close.{Environment, reset_station, close_station}
use radio_broadcast_analysis.Conversation.Machine.{
  is_after, accept, enter_session, close_on_gap, add_seen, forget_old, record_sequence, take_in,
  is_exhausted, close_if_exhausted, fold_segment, observe_station,
}
use radio_broadcast_analysis.Conversation.Order.{
  Known, Earlier, InSession, IsEvidence, IsReady, close_station-IsEvidence, close_on_gap-IsReady,
  take_in-Known,
}

member-filterb :
    (p : ℕ → Bool) (n : ℕ) (xs : List ℕ)
    → p n ≡ true
    → member xs n ≡ true
    → member (filterb p xs) n ≡ true
member-filterb p n [] h m = m
member-filterb p n (x ∷ xs) h m = ground (arith, member-filterb p n xs h)

pub member-add_seen : (n : ℕ) (xs : List ℕ) → member (add_seen xs n) n ≡ true
member-add_seen n xs = ground arith

pub member-forget_old :
    (n : ℕ) (xs : List ℕ) → member xs n ≡ true → member (forget_old n xs) n ≡ true
member-forget_old n xs m =
    ground (arith, member-filterb (λ value. ltb n (value + 2 * max_conversation_segments)) n xs)

module _ (env : Environment) (fresh session : String) (s : TranscribedSegment)
    (own : s.station_session_id ≡ session) where
  close_if_exhausted-InSession :
      (st : StationState)
      → InSession session st
      → All (IsEvidence session) (close_if_exhausted env fresh st).0
        × InSession session (close_if_exhausted env fresh st).1
  unfolding close_if_exhausted
  close_if_exhausted-InSession st i =
      elim (Bool-cases (is_open st && is_exhausted env st.segments)) [
        | inl ends ↦ rw (ends) (
          close_station-IsEvidence env fresh session max_duration st i.held_order
              (All-imp (λ x h. h.0) st.segments i.held),
          unfold close_station reset_station in
              record {
                last = i.last;
                entered = i.entered;
                counted = i.counted;
                remembered = i.remembered;
                held = tt;
                held_order = tt;
                waiting = i.waiting;
                waiting_order = i.waiting_order;
              },
        )
        | inr goes_on ↦ rw (goes_on) (tt, i)
      ]

  -- Once the sequence number is recorded and the segment taken in, it is the last of the session.
  advance-InSession :
      (st : StationState)
      → IsReady session s st
      → st.station_session_id ≡ some session
      → InSession session (record (take_in env fresh (record_sequence st s) s) {
        last_segment_end = some s.ended_at;
      })
  advance-InSession st r e =
      let k = take_in-Known env fresh session s own (record_sequence st s) (
        unfold record_sequence in
        record {
          held = r.held;
          held_order = r.held_order;
          waiting = r.waiting;
          waiting_order = r.waiting_order;
        }) in
      record {
        last = s.sequence_number;
        entered = k.4 ∙ (unfold record_sequence in e);
        counted = k.5 ∙ (unfold record_sequence in refl);
        remembered = rw (k.6) (
            unfold record_sequence in
            member-forget_old s.sequence_number (add_seen st.seen_sequences s.sequence_number)
              (member-add_seen s.sequence_number st.seen_sequences));
        held = k.0;
        held_order = k.1;
        waiting = k.2;
        waiting_order = k.3;
      }

  -- What follows the entry of the session, from a station that holds earlier segments only.
  after_entry-InSession :
      (st : StationState)
      → IsReady session s st
      → st.station_session_id ≡ some session
      → let (closed₂, st₂) = close_on_gap env fresh st s in
        let (closed₃, st₄) =
          close_if_exhausted env fresh (record (take_in env fresh (record_sequence st₂ s) s) {
            last_segment_end = some s.ended_at;
          }) in
        All (IsEvidence session) (closed₂ ++ closed₃) × InSession session st₄
  after_entry-InSession st r e =
      let g = close_on_gap-IsReady env fresh session s own st r in
      let x =
        close_if_exhausted-InSession _
          (advance-InSession (close_on_gap env fresh st s).1 g.1 (g.2 ∙ e)) in
      (All-append (IsEvidence session) _ _ g.0 x.0, x.1)

  accept-after :
      (st : StationState) (i : InSession session st)
      → accept st s ≡ true
      → i.last < s.sequence_number
  unfolding accept is_after
  accept-after st i taken =
      let h : accept st s ≡ true = taken in
      ground (arith, h, i.entered, i.counted, i.remembered, (eq_iff session session).1 refl, own)

  InSession-IsReady :
      (st : StationState) (i : InSession session st) → accept st s ≡ true → IsReady session s st
  InSession-IsReady st i taken = record {
    held = All-imp later st.segments i.held;
    held_order = i.held_order;
    waiting = All-imp later st.preroll i.waiting;
    waiting_order = i.waiting_order;
  }
    where
      later : (x : TranscribedSegment) → Known session i.last x → Earlier session s x
      later x h = (h.0, omega (arith, h.1, accept-after st i taken))

  enter_session-same :
      (st : StationState)
      → (st.station_session_id ≡ none) ⊎ (st.station_session_id ≡ some session)
      → enter_session env fresh st s ≡ ([], record st { station_session_id = some session })
  unfolding enter_session
  enter_session-same st (inl e) = rw (e, own) refl
  enter_session-same st (inr e) = rw (e, own) rw ((eq_iff session session).1 refl) refl

  fold_segment-InSession :
      (st : StationState)
      → (st.station_session_id ≡ none) ⊎ (st.station_session_id ≡ some session)
      → IsReady session s st
      → All (IsEvidence session) (fold_segment env fresh st s).0
        × InSession session (fold_segment env fresh st s).1
  unfolding fold_segment
  fold_segment-InSession st e r = rw (enter_session-same st e) (
      after_entry-InSession (record st { station_session_id = some session })
        (record {
          held = r.held;
          held_order = r.held_order;
          waiting = r.waiting;
          waiting_order = r.waiting_order;
        })
        refl)

  -- A segment of the session leaves the station in the session, and what it closes is in order.
  observe_station-InSession :
      (st : StationState)
      → InSession session st
      → All (IsEvidence session) (observe_station env fresh st s).0
        × InSession session (observe_station env fresh st s).1
  unfolding observe_station
  observe_station-InSession st i = elim (Bool-cases (accept st s)) [
    | inl taken ↦
        rw (taken) (fold_segment-InSession st (inr i.entered) (InSession-IsReady st i taken))
    | inr refused ↦ rw (refused) (tt, i)
  ]

  -- The first segment of a new station.
  new_station-InSession :
      (station_id : String)
      → All (IsEvidence session) (observe_station env fresh (new_station station_id) s).0
        × InSession session (observe_station env fresh (new_station station_id) s).1
  unfolding observe_station accept
  new_station-InSession station_id =
      fold_segment-InSession (new_station station_id) (inl refl)
        (record { held = tt; held_order = tt; waiting = tt; waiting_order = tt })

-- `observe` over the segments of one station, each with the id that `new_id()` would give.
unfoldable pub observe_all :
    Environment
    → StationState
    → List (String × TranscribedSegment)
    → List ClosedConversation × StationState
observe_all env st [] = ([], st)
observe_all env st ((fresh, s) ∷ rest) =
    let (closed, st₁) = observe_station env fresh st s in
    let (later, st₂) = observe_all env st₁ rest in (closed ++ later, st₂)

observe_all-InSession :
    (env : Environment) (session : String) (st : StationState)
    (arrivals : List (String × TranscribedSegment))
    → InSession session st
    → All (λ a. a.1.station_session_id ≡ session) arrivals
    → All (IsEvidence session) (observe_all env st arrivals).0
unfolding observe_all
observe_all-InSession env session st [] i own = tt
observe_all-InSession env session st ((fresh, s) ∷ rest) i own =
    let x = observe_station-InSession env fresh session s own.0 st i in
    All-append (IsEvidence session) _ _ x.0
      (observe_all-InSession env session (observe_station env fresh st s).1 rest x.1 own.1)

-- Whatever segments of one session a new station observes, in whatever order and however often,
-- each conversation that comes out has at least one segment, only segments of that session with
-- strictly increasing sequence numbers, and at least one match.
pub observe_all-IsEvidence :
    (env : Environment) (station_id session : String)
    (arrivals : List (String × TranscribedSegment))
    → All (λ a. a.1.station_session_id ≡ session) arrivals
    → All (IsEvidence session) (observe_all env (new_station station_id) arrivals).0
unfolding observe_all
observe_all-IsEvidence env station_id session [] own = tt
observe_all-IsEvidence env station_id session ((fresh, s) ∷ rest) own =
    let x = new_station-InSession env fresh session s own.0 station_id in
    All-append (IsEvidence session) _ _ x.0 (
      observe_all-InSession env session (observe_station env fresh (new_station station_id) s).1
        rest x.1 own.1)
