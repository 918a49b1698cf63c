-- ===== src/Stream/Numbers.antt =====
-- The sequence numbers of a session's segments, over one piece of audio.
use radio_broadcast_analysis.Prelude.{
  ℕ, zero, suc, ◌+◌, ◌*◌, String, not, ◌||◌, List, [], ◌∷◌, ◌++◌, map, ◌≡◌, refl, ap, ◌∙◌, inl, inr,
  leb, All, All-append, nat_Eq, string_Eq, Bool-cases, Option-cases,
}
use radio_broadcast_analysis.Audio.{AudioClassifier, Decision}
use radio_broadcast_analysis.RingBuffer.{
  RingBuffer, PcmWindow, Result, ok, err, append, position_ms,
}
use radio_broadcast_analysis.Stream.{
  StreamSettings, StationPlan, SegmentEvent, Session, is_empty, reach,
}
use radio_broadcast_analysis.Stream.Segmenting.{
  emit_window, flush_segment, extend_segment, cut_chunk, apply_decision, judge_window, next_window,
  classify_ready_windows, ingest_pcm, after_append, new_generation, verdict,
}

-- 1, 2, ..., n
abbrev pub numbers_to : ℕ → List ℕ
numbers_to zero = []
numbers_to (suc n) = numbers_to n ++ (suc n ∷ [])

pub record IsNumbered (station session : String) (sequence told : ℕ) (events : List SegmentEvent)
    : Type 0 where
  pub numbers : map (λ e. e.sequence_number) events ≡ numbers_to sequence
  pub counted : told ≡ sequence
  pub owned : All (λ e. (e.station_id ≡ station) × (e.station_session_id ≡ session)) events

-- The session has emitted the segments 1, 2, ..., `sequence` in this order, all under its own ids,
-- and the status tells their number.
abbrev pub Numbered : {C : Type 0} → StationPlan → String → Session C → Type 0
Numbered plan id s =
    (s.plan ≡ plan)
    × (s.session_id ≡ id)
    × IsNumbered plan.station_id id s.sequence s.status.segments_emitted s.emitted

map-append {ℓ κ} :
    {A : Type ℓ} {B : Type κ} (f : A → B) (xs ys : List A) → map f (xs ++ ys) ≡ map f xs ++ map f ys
map-append f [] ys = refl
map-append f (x ∷ xs) ys = ap (◌∷◌ (f x)) (map-append f xs ys)

module _ {C : Type 0} (classifier : AudioClassifier C) (settings : StreamSettings)
    (trace_of : ℕ → String) (plan : StationPlan) (id : String) where
  emit_window-Numbered :
      (s : Session C) (answer : Result PcmWindow)
      → Numbered plan id s
      → Numbered plan id (emit_window classifier settings trace_of s answer)
  unfolding emit_window
  emit_window-Numbered s (err e) h = h
  emit_window-Numbered s (ok w) h = elim (Bool-cases (is_empty w)) [
    | inl empty ↦ rw (empty) h
    | inr some_audio ↦ rw (some_audio) (
      h.0,
      h.1,
      record {
        numbers =
            map-append (λ e. e.sequence_number) s.emitted _
            ∙ ap (λ ns. ns ++ (suc s.sequence ∷ [])) h.2.numbers;
        counted = ap suc h.2.counted;
        owned = All-append _ s.emitted _ h.2.owned ((ap (λ p. p.station_id) h.0, h.1), tt);
      },
    )
  ]

  pub flush_segment-Numbered :
      (s : Session C)
      → Numbered plan id s
      → Numbered plan id (flush_segment classifier settings trace_of s)
  unfolding flush_segment
  flush_segment-Numbered s h =
      elim (Bool-cases (not s.segment_open || leb s.segment_end_ms s.segment_start_ms)) [
        | inl closed ↦ rw (closed) h
        | inr opened ↦ rw (opened) (emit_window-Numbered _ _ h)
      ]

  extend_segment-Numbered :
      (decision : Decision) (start_ms : ℕ) (s : Session C)
      → Numbered plan id s
      → Numbered plan id (extend_segment classifier settings trace_of decision start_ms s)
  unfolding extend_segment
  extend_segment-Numbered decision start_ms s h = elim (Bool-cases s.segment_open) [
    | inl opened ↦ rw (opened) h
    | inr closed ↦ rw (closed) h
  ]

  cut_chunk-Numbered :
      (s : Session C)
      → Numbered plan id s
      → Numbered plan id (cut_chunk classifier settings trace_of s)
  unfolding cut_chunk
  cut_chunk-Numbered s h =
      elim (Bool-cases
        (leb (s.segment_start_ms + settings.speech_chunk_seconds * 1000) s.segment_end_ms)) [
          | inl full ↦ rw (full) (flush_segment-Numbered s h)
          | inr short ↦ rw (short) h
        ]

  apply_decision-Numbered :
      (now : ℕ) (decision : Decision) (start_ms end_ms : ℕ) (s : Session C)
      → Numbered plan id s
      → Numbered plan id
          (apply_decision classifier settings trace_of now decision start_ms end_ms s)
  unfolding apply_decision
  apply_decision-Numbered now decision start_ms end_ms s h = elim (Bool-cases decision.keep) [
    | inl kept ↦ rw (kept) (
        cut_chunk-Numbered
          (reach now decision end_ms
            (extend_segment classifier settings trace_of decision start_ms s))
          (extend_segment-Numbered decision start_ms s h))
    | inr dropped ↦ rw (dropped) (flush_segment-Numbered s h)
  ]

  judge_window-Numbered :
      (now : ℕ) (s : Session C) (answer : Result PcmWindow)
      → Numbered plan id s
      → Numbered plan id (judge_window classifier settings trace_of now s answer).1
  unfolding judge_window
  judge_window-Numbered now s (err e) h = h
  judge_window-Numbered now s (ok w) h = elim (Bool-cases (is_empty w)) [
    | inl empty ↦ rw (empty) h
    | inr some_audio ↦ rw (some_audio) (
        let v = verdict classifier settings trace_of s w in
        apply_decision-Numbered now v.0 s.classified_to_ms
          (s.classified_to_ms + settings.classifier_window_ms) v.1 h)
  ]

  classify_ready_windows-Numbered :
      (fuel now : ℕ) (s : Session C)
      → Numbered plan id s
      → Numbered plan id (classify_ready_windows classifier settings trace_of fuel now s).1
  unfolding classify_ready_windows
  classify_ready_windows-Numbered zero now s h = h
  classify_ready_windows-Numbered (suc fuel) now s h =
      let k = judge_window-Numbered now s (next_window classifier settings trace_of s) h in
      elim (Bool-cases
        (leb (s.classified_to_ms + settings.classifier_window_ms) (position_ms s.buffer))) [
          | inl ready ↦
              rw (ready)
                (elim (Option-cases
                  (judge_window classifier settings trace_of now s
                    (next_window classifier settings trace_of s)).0) [
                      | inl fine ↦ rw (fine) (classify_ready_windows-Numbered fuel now _ k)
                      | inr (e, raised) ↦ rw (raised) k
                    ])
          | inr wait ↦ rw (wait) h
        ]

  after_append-Numbered :
      (now : ℕ) (s : Session C) (answer : Result (ℕ × RingBuffer))
      → Numbered plan id s
      → Numbered plan id (after_append classifier settings trace_of now s answer).1
  unfolding after_append
  after_append-Numbered now s (err e) h = h
  after_append-Numbered now s (ok (at, b)) h =
      classify_ready_windows-Numbered (suc (position_ms b)) now (record s { buffer = b }) h

  pub ingest_pcm-Numbered :
      (now : ℕ) (pcm : List ℕ) (s : Session C)
      → Numbered plan id s
      → Numbered plan id (ingest_pcm classifier settings trace_of now pcm s).1
  unfolding ingest_pcm
  ingest_pcm-Numbered now pcm s h = after_append-Numbered now s (append s.buffer now pcm) h

  pub new_generation-Numbered :
      (now : ℕ) (s : Session C)
      → Numbered plan id s
      → Numbered plan id (new_generation classifier settings trace_of now s)
  unfolding new_generation
  new_generation-Numbered now s h = h
