-- ===== src/Stream/Segmenting.antt =====
-- From the decoded audio of a session to its segments: `ingest_pcm`, `_classify_ready_windows`,
-- `_apply_decision`, `_flush_segment` and `_new_generation`.
use radio_broadcast_analysis.Prelude.{
  ℕ, zero, suc, ◌+◌, ◌-◌, ◌*◌, min, max, String, true, false, not, ◌||◌, Option, none, some, List,
  [], ◌∷◌, ◌++◌, if◌then◌else◌, leb, nat_Eq, string_Eq,
}
use radio_broadcast_analysis.Prelude.Int.{pos}
use radio_broadcast_analysis.Audio.{
  AudioContentClass, AudioClassifier, Decision, reset_policy, observe,
}
use radio_broadcast_analysis.RingBuffer.{
  RingBuffer, PcmWindow, Error, Result, ok, err, duration_ms, window, append, reset, position_ms,
  oldest_offset_ms,
}
use radio_broadcast_analysis.Stream.{
  speech_lead_ms, StreamSettings, SegmentEvent, Session, is_empty, is_over_music, reach,
}

-- The sessions of one process share the settings, the kind of classifier, and the ids that `new_id`
-- gives: `trace_of n` is the one drawn for the n-th segment of a session.
module _ {C : Type 0} (classifier : AudioClassifier C) (settings : StreamSettings)
    (trace_of : ℕ → String) where
  abbrev pub segment_event : Session C → PcmWindow → SegmentEvent
  segment_event s w = record {
    station_id = s.plan.station_id;
    station_session_id = s.session_id;
    sequence_number = suc s.sequence;
    pcm = w.pcm;
    sample_rate = w.sample_rate;
    started_at = w.started_at;
    ended_at = w.ended_at;
    duration_ms = duration_ms w;
    content_class = s.segment_class;
    content_class_confidence = s.segment_confidence;
    classifier_signals = s.segment_signals;
    keyword_index_version = s.keyword_index_version;
    trace_id = trace_of (suc s.sequence);
    generation = w.generation;
  }

  -- What `_flush_segment` makes of the window that it asked for.
  unfoldable pub emit_window : Session C → Result PcmWindow → Session C
  emit_window s (err e) = s
  emit_window s (ok w) = if is_empty w then s else record s {
    sequence = suc s.sequence;
    status = record s.status { segments_emitted = suc s.status.segments_emitted };
    emitted = s.emitted ++ (segment_event s w ∷ []);
  }

  -- `_flush_segment`
  unfoldable pub flush_segment : Session C → Session C
  flush_segment s =
      if not s.segment_open || leb s.segment_end_ms s.segment_start_ms
      then record s { segment_open = false }
      else emit_window (record s { segment_open = false })
          (window s.buffer (pos s.segment_start_ms) (pos s.segment_end_ms))

  -- The branch of `_apply_decision` that opens a segment, and the one that goes on with it.
  unfoldable pub extend_segment : Decision → ℕ → Session C → Session C
  extend_segment decision start_ms s =
      if s.segment_open
      then record s {
        segment_class =
            if is_over_music decision.content_class
            then AudioContentClass.speech_over_music
            else s.segment_class;
        segment_confidence = min s.segment_confidence decision.confidence;
      }
      else record s {
        segment_start_ms = max (oldest_offset_ms s.buffer) (start_ms - speech_lead_ms);
        segment_open = true;
        segment_class = decision.content_class;
        segment_confidence = decision.confidence;
        segment_signals = decision.signals;
      }

  -- The end of `_apply_decision`: a segment that has the length of a chunk is emitted, and the next
  -- one begins before its end.
  unfoldable pub cut_chunk : Session C → Session C
  unfolding flush_segment
  cut_chunk s =
      if leb (s.segment_start_ms + settings.speech_chunk_seconds * 1000) s.segment_end_ms
      then (let s' = flush_segment s in
          record s' {
            segment_open = true;
            segment_start_ms =
                max (oldest_offset_ms s'.buffer) (s'.segment_end_ms - settings.chunk_overlap_ms);
          })
      else s

  -- `_apply_decision`
  unfoldable pub apply_decision : ℕ → Decision → ℕ → ℕ → Session C → Session C
  unfolding flush_segment extend_segment cut_chunk
  apply_decision now decision start_ms end_ms s =
      if not decision.keep
      then flush_segment s
      else cut_chunk (reach now decision end_ms (extend_segment decision start_ms s))

  -- The decision on a window, and the session that has taken it in.
  abbrev pub verdict : Session C → PcmWindow → Decision × Session C
  verdict s w =
      let (result, classifier') = classifier.classify s.classifier w in
      let (decision, policy) = observe settings.policy s.policy result in
      (
        decision,
        record s {
          classified_to_ms = s.classified_to_ms + settings.classifier_window_ms;
          classifier = classifier';
          policy = policy;
        },
      )

  -- The body of the loop of `_classify_ready_windows`, after the buffer's answer.
  unfoldable pub judge_window : ℕ → Session C → Result PcmWindow → Option Error × Session C
  unfolding apply_decision
  judge_window now s (err e) = (some e, s)
  judge_window now s (ok w) =
      let end_ms = s.classified_to_ms + settings.classifier_window_ms in
      let (decision, s') = verdict s w in
      (
        none,
        (if is_empty w
            then record s { classified_to_ms = end_ms }
            else apply_decision now decision s.classified_to_ms end_ms s'),
      )

  abbrev pub next_window : Session C → Result PcmWindow
  next_window s =
      window s.buffer (pos s.classified_to_ms)
        (pos (s.classified_to_ms + settings.classifier_window_ms))

  -- `_classify_ready_windows`, with fuel: an exception ends it, and what was done before it stays.
  unfoldable pub classify_ready_windows : ℕ → ℕ → Session C → Option Error × Session C
  unfolding judge_window
  classify_ready_windows zero now s = (none, s)
  classify_ready_windows (suc fuel) now s =
      if leb (s.classified_to_ms + settings.classifier_window_ms) (position_ms s.buffer)
      then (let (error, s') = judge_window now s (next_window s) in
          elim error [ some e ↦ (some e, s') | none ↦ classify_ready_windows fuel now s' ])
      else (none, s)

  -- `ingest_pcm`, after the buffer has answered `append`.
  unfoldable pub after_append : ℕ → Session C → Result (ℕ × RingBuffer) → Option Error × Session C
  unfolding classify_ready_windows
  after_append now s (err e) = (some e, s)
  after_append now s (ok (_, b)) =
      classify_ready_windows (suc (position_ms b)) now (record s { buffer = b })

  unfoldable pub ingest_pcm : ℕ → List ℕ → Session C → Option Error × Session C
  unfolding after_append
  ingest_pcm now pcm s = after_append now s (append s.buffer now pcm)

  -- `_new_generation`
  unfoldable pub new_generation : ℕ → Session C → Session C
  new_generation now s =
      let (generation, b) = reset s.buffer now in
      record s {
        buffer = b;
        policy = reset_policy;
        classifier = classifier.reset s.classifier;
        classified_to_ms = 0;
        segment_open = false;
        status = record s.status { generation = generation };
      }
