-- ===== src/Stream/Segments.antt =====
-- What becomes of a kept window: it is in the segment that is open, or in the one just emitted.
use radio_broadcast_analysis.Prelude.{
  ℕ, ◌+◌, ◌-◌, ◌*◌, ◌≤◌, ◌<◌, min, max, String, true, false, not, ◌||◌, List, [], ◌∷◌, ◌++◌, ◌≡◌,
  ◌⊎◌, refl, sym, ap, ◌∙◌, subst, inl, inr, arith, if◌then◌else◌, leb, nat_eq, length, nat_Eq,
  string_Eq, Bool-cases,
}
use radio_broadcast_analysis.Prelude.Int.{pos, le_ints}
use radio_broadcast_analysis.Audio.{AudioClassifier, Decision}
use radio_broadcast_analysis.RingBuffer.{
  RingBuffer, PcmWindow, Result, ok, err, window, oldest_offset_ms, ms_to_bytes,
}
use radio_broadcast_analysis.RingBuffer.Refinement.{Holds}
use radio_broadcast_analysis.RingBuffer.Reading.{slice, window_lem}
use radio_broadcast_analysis.Stream.{StreamSettings, SegmentEvent, Session, is_empty, reach}
use radio_broadcast_analysis.Stream.Segmenting.{
  emit_window, flush_segment, extend_segment, cut_chunk, apply_decision,
}

-- Where a segment may begin that is to contain the audio from `at_ms` on.
abbrev pub BeginsBy : {C : Type 0} → Session C → ℕ → ℕ → Type 0
BeginsBy s from_ms at_ms = from_ms ≤ max (oldest_offset_ms s.buffer) at_ms

-- The bytes of the stream between two times, as far as a buffer that holds the stream has them.
abbrev pub audio : RingBuffer → List ℕ → ℕ → ℕ → List ℕ
audio r written from_ms to_ms =
    slice written (max (ms_to_bytes r from_ms) (length written - r.capacity))
      (min (ms_to_bytes r to_ms) (length written))

-- The audio of each segment.
abbrev pub audio_of : List SegmentEvent → List (List ℕ)
audio_of [] = []
audio_of (e ∷ es) = e.pcm ∷ audio_of es

-- A further segment with this audio, if it is any.
abbrev pub and_then : List (List ℕ) → List ℕ → List (List ℕ)
and_then old [] = old
and_then old (b ∷ bs) = old ++ (b ∷ bs) ∷ []

audio_of-append :
    (es : List SegmentEvent) (e : SegmentEvent)
    → audio_of (es ++ e ∷ []) ≡ audio_of es ++ e.pcm ∷ []
audio_of-append [] e = refl
audio_of-append (x ∷ es) e = ap (◌∷◌ x.pcm) (audio_of-append es e)

and_then-some :
    (old : List (List ℕ)) (pcm : List ℕ)
    → nat_eq (length pcm) 0 ≡ false
    → and_then old pcm ≡ old ++ pcm ∷ []
and_then-some old [] h = absurd (cc)
and_then-some old (b ∷ bs) h = refl

and_then-none :
    (old : List (List ℕ)) (pcm : List ℕ) → nat_eq (length pcm) 0 ≡ true → and_then old pcm ≡ old
and_then-none old [] h = refl
and_then-none old (b ∷ bs) h = absurd (ground (arith, h))

module _ {C : Type 0} (classifier : AudioClassifier C) (settings : StreamSettings)
    (trace_of : ℕ → String) where
  emit_window-frame :
      (s : Session C) (answer : Result PcmWindow)
      → let s' = emit_window classifier settings trace_of s answer in
        (s'.buffer ≡ s.buffer) × (s'.segment_end_ms ≡ s.segment_end_ms)
  unfolding emit_window
  emit_window-frame s (err e) = (refl, refl)
  emit_window-frame s (ok w) = elim (Bool-cases (is_empty w)) [
    | inl empty ↦ rw (empty) (refl, refl)
    | inr some_audio ↦ rw (some_audio) (refl, refl)
  ]

  emit_window-audio :
      (s : Session C) (w : PcmWindow)
      → audio_of (emit_window classifier settings trace_of s (ok w)).emitted
        ≡ and_then (audio_of s.emitted) w.pcm
  unfolding emit_window
  emit_window-audio s w = elim (Bool-cases (is_empty w)) [
    | inl empty ↦ rw (empty) (sym (and_then-none (audio_of s.emitted) w.pcm empty))
    | inr some_audio ↦
        rw (some_audio)
          (audio_of-append s.emitted _ ∙ sym (and_then-some (audio_of s.emitted) w.pcm some_audio))
  ]

  -- A segment that is flushed is the audio between its two ends.
  emit_window-window :
      (s : Session C) (written : List ℕ) (from_ms to_ms : ℕ)
      → Holds s.buffer written
      → leb to_ms from_ms ≡ false
      → audio_of
          (emit_window classifier settings trace_of s
            (window s.buffer (pos from_ms) (pos to_ms))).emitted
        ≡ and_then (audio_of s.emitted) (audio s.buffer written from_ms to_ms)
  emit_window-window s written from_ms to_ms h proper =
      let k = window_lem s.buffer written h (pos from_ms) (pos to_ms) in
      let some_time : le_ints (pos to_ms) (pos from_ms) ≡ false = ground (arith, proper) in
      ap (λ r. audio_of (emit_window classifier settings trace_of s r).emitted) k.1
      ∙ emit_window-audio s k.0
      ∙ ap (and_then (audio_of s.emitted))
          (k.2 ∙ ap (λ b. if b then [] else audio s.buffer written from_ms to_ms) some_time)

  extend_segment-frame :
      (decision : Decision) (start_ms : ℕ) (s : Session C)
      → (s.segment_open ≡ true → BeginsBy s s.segment_start_ms start_ms)
      → let s' = extend_segment classifier settings trace_of decision start_ms s in
        (s'.buffer ≡ s.buffer)
        × (s'.segment_open ≡ true)
        × (s'.emitted ≡ s.emitted)
        × BeginsBy s s'.segment_start_ms start_ms
  unfolding extend_segment
  extend_segment-frame decision start_ms s h = elim (Bool-cases s.segment_open) [
    | inl opened ↦ rw (opened) (refl, refl, refl, h opened)
    | inr closed ↦ rw (closed) (refl, refl, refl, omega arith)
  ]

  module _ (positive : 0 < settings.speech_chunk_seconds)
      (overlap : settings.chunk_overlap_ms < settings.speech_chunk_seconds * 1000) where
    cut_chunk_lem :
        (written : List ℕ) (s : Session C)
        → Holds s.buffer written
        → s.segment_open ≡ true
        → let s' = cut_chunk classifier settings trace_of s in
          (s'.segment_open ≡ true)
          × (s'.segment_end_ms ≡ s.segment_end_ms)
          × (s.segment_end_ms < s'.segment_start_ms + settings.speech_chunk_seconds * 1000)
          × (s'.segment_start_ms
              ≤ max s.segment_start_ms (max (oldest_offset_ms s.buffer) s.segment_end_ms))
          × (((s'.segment_start_ms ≡ s.segment_start_ms) × (s'.emitted ≡ s.emitted))
              ⊎ (audio_of s'.emitted
                  ≡ and_then
                      (audio_of s.emitted)
                      (audio s.buffer written s.segment_start_ms s.segment_end_ms)))
    unfolding cut_chunk flush_segment
    cut_chunk_lem written s holds opened =
        elim (Bool-cases
          (leb (s.segment_start_ms + settings.speech_chunk_seconds * 1000) s.segment_end_ms)) [
            | inl full ↦
                let s1 = record s { segment_open = false } in
                let frame =
                  emit_window-frame s1
                    (window s.buffer (pos s.segment_start_ms) (pos s.segment_end_ms)) in
                let proper : (not s.segment_open || leb s.segment_end_ms s.segment_start_ms)
                    ≡ false =
                  ground (arith, opened, full, positive) in
                rw (full, proper)
                  (
                    refl,
                    frame.1,
                    omega (arith, overlap, frame.1),
                    omega (arith, frame.1, ap oldest_offset_ms frame.0),
                    inr (
                        emit_window-window s1 written s.segment_start_ms s.segment_end_ms holds
                          (ground (arith, full, positive))),
                  )
            | inr short ↦
                rw (short) (opened, refl, ground (arith, short), omega arith, inl (refl, refl))
          ]

    -- A kept window is not lost, while the buffer holds the stream of the session, chunks are longer
    -- than their overlap, and a segment that is open begins where the window does, or earlier, or
    -- where the buffer does. After `_apply_decision` a segment is open that ends with the window and
    -- is shorter than a chunk; and either it contains the window, as far as the buffer still has it,
    -- and nothing was emitted, or one segment was emitted whose audio is the bytes of the stream
    -- from the beginning of the window, or from earlier, up to the window's end, as far as the
    -- buffer has them; no segment is emitted if it has none of them. For the next window the
    -- condition on the open segment holds again.
    pub apply_decision-kept :
        (written : List ℕ) (now : ℕ) (decision : Decision) (start_ms end_ms : ℕ) (s : Session C)
        → Holds s.buffer written
        → decision.keep ≡ true
        → start_ms ≤ end_ms
        → (s.segment_open ≡ true → BeginsBy s s.segment_start_ms start_ms)
        → let s' = apply_decision classifier settings trace_of now decision start_ms end_ms s in
          (s'.segment_open ≡ true)
          × (s'.segment_end_ms ≡ end_ms)
          × (end_ms < s'.segment_start_ms + settings.speech_chunk_seconds * 1000)
          × BeginsBy s s'.segment_start_ms end_ms
          × ((BeginsBy s s'.segment_start_ms start_ms × (s'.emitted ≡ s.emitted))
              ⊎ ((from_ms : ℕ) × BeginsBy s from_ms start_ms
                  × (audio_of s'.emitted
                      ≡ and_then (audio_of s.emitted) (audio s.buffer written from_ms end_ms))))
    unfolding apply_decision
    apply_decision-kept written now decision start_ms end_ms s holds kept ordered h =
        let s1 =
          reach now decision end_ms
            (extend_segment classifier settings trace_of decision start_ms s) in
        let e = extend_segment-frame decision start_ms s h in
        let k = cut_chunk_lem written s1 (subst (λ b. Holds b written) (sym e.0) holds) e.1 in
        let oldest = ap oldest_offset_ms e.0 in
        rw (kept) (
          k.0,
          k.1,
          k.2,
          omega (arith, k.3, e.3, oldest),
          elim k.4 [
            | inl pending ↦ inl (omega (arith, pending.0, e.3), pending.1 ∙ e.2)
            | inr handed ↦ inr (
              s1.segment_start_ms,
              e.3,
              handed
                  ∙ ap
                      (λ es.
                        and_then (audio_of es) (audio s1.buffer written s1.segment_start_ms end_ms))
                      e.2
                  ∙ ap
                      (λ b.
                        and_then (audio_of s.emitted) (audio b written s1.segment_start_ms end_ms))
                      e.0,
            )
          ],
        )
