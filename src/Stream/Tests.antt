-- ===== src/Stream/Tests.antt =====
-- A session at concrete audio: 8 samples a second, windows of a second, chunks of two.
use radio_broadcast_analysis.Prelude.{
  ℕ, ◌+◌, ◌≤◌, ◌<◌, String, true, false, none, some, List, [], ◌∷◌, ◌≡◌, ◌⊎◌, refl, arith, length,
  replicate, All, nat_Eq, string_Eq,
}
use radio_broadcast_analysis.Audio.{
  AudioContentClass, Decision, PolicySettings, always_transcribed, passthrough, observe,
}
use radio_broadcast_analysis.Prelude.Int.{pos}
use radio_broadcast_analysis.RingBuffer.{
  position_ms, append, write_wrapped, ms_to_bytes, bytes_to_ms, read_absolute, window_at, window,
  oldest_offset_ms,
}
use radio_broadcast_analysis.RingBuffer.Refinement.{Holds, Holds-fresh}
use radio_broadcast_analysis.Stream.{StreamSettings, StationPlan, Session, create, other_error}
use radio_broadcast_analysis.Stream.Segmenting.{emit_window, ingest_pcm, apply_decision}
use radio_broadcast_analysis.Stream.Run.{chunk, timed_out, Connection, run, reconnect_delay}
use radio_broadcast_analysis.Stream.Numbering.{run-Numbered}
use radio_broadcast_analysis.Stream.Numbers.{Numbered}
use radio_broadcast_analysis.Stream.Backoff.{Within, run-delays}
use radio_broadcast_analysis.Stream.Windows.{ingest_pcm_lem}
use radio_broadcast_analysis.Stream.Cuts.{Adds}
use radio_broadcast_analysis.Stream.Segments.{
  BeginsBy, audio, audio_of, and_then, apply_decision-kept,
}

abbrev policy : PolicySettings
policy = record {
  include_speech_over_music = true;
  transcribe_uncertain_audio = true;
  silence_end_seconds = 12;
  pure_music_discard_seconds = 8;
  include_long_form_singing = false;
  include_sung_advertising_jingles = true;
  jingle_max_seconds = 30;
  jingle_adjacency_seconds = 60;
}

abbrev settings : StreamSettings
settings = record {
  sample_rate = 8;
  ring_buffer_seconds = 4;
  classifier_window_ms = 1000;
  speech_chunk_seconds = 2;
  chunk_overlap_ms = 500;
  reconnect_min_ms = 2000;
  reconnect_max_ms = 120000;
  policy = policy;
}

abbrev plan : StationPlan
plan = record {
  station_id = "station";
  stream_url = "http://radio.example/live";
  display_name = "";
  keyword_index_version = 1;
  language_codes = [];
}

abbrev trace_of : ℕ → String
trace_of n = "trace"

abbrev new_session : Session Unit
new_session = create settings plan tt "session" 1000

abbrev two_seconds : List ℕ
two_seconds = replicate 32 7

-- A connection that streams for two seconds and then hangs.
abbrev streams : Connection
streams = record {
  opening = none;
  reads = chunk 3000 two_seconds ∷ timed_out ∷ [];
  stop_after = false;
  jitter = record { part = 1; whole = 2 };
  stop_waiting = false;
  retry_at = 9000;
}

abbrev fails : Connection
fails = record streams { opening = some (other_error "refused") }

abbrev connections : List Connection
connections = streams ∷ fails ∷ streams ∷ []

run-Numbered_example :
    Numbered plan "session" (run passthrough settings trace_of connections new_session).1
run-Numbered_example = run-Numbered passthrough settings trace_of plan tt "session" 1000 connections

run-delays_example :
    let (delays, _, raised) = run passthrough settings trace_of connections new_session in
    All (Within 2000 120000) delays × ((raised ≡ false) ⊎ (1020 ≤ length delays))
run-delays_example =
    run-delays passthrough settings trace_of (omega arith) connections new_session
      (refl, (refl, (refl, tt)))

-- The first attempt for which there is no delay.
overflows : reconnect_delay (pos 1024) 2000 120000 (record { part = 1; whole = 2 }) ≡ none
unfolding reconnect_delay
overflows = refl

ingest_pcm_lem_example :
    let (error, s') = ingest_pcm passthrough settings trace_of 3000 two_seconds new_session in
    (error ≡ none)
    × Holds s'.buffer two_seconds
    × (position_ms s'.buffer < s'.classified_to_ms + 1000)
    × Adds s'.buffer.generation two_seconds [] s'.emitted
ingest_pcm_lem_example =
    ingest_pcm_lem passthrough settings trace_of [] 3000 two_seconds new_session
      (Holds-fresh 8 4 1000 (omega arith) (omega arith)) refl (omega arith)

abbrev keep_speech : Decision
keep_speech = record {
  content_class = AudioContentClass.speech;
  keep = true;
  confidence = 500;
  reason = always_transcribed;
  run_ms = 1000;
  signals = [];
}

-- The session after two seconds, of which the first chunk was emitted.
abbrev after_two : Session Unit
after_two = (ingest_pcm passthrough settings trace_of 3000 two_seconds new_session).1

after_two-Holds : Holds after_two.buffer two_seconds
after_two-Holds =
    (ingest_pcm_lem passthrough settings trace_of [] 3000 two_seconds new_session
      (Holds-fresh 8 4 1000 (omega arith) (omega arith)) refl (omega arith)).1

after_two-start : after_two.segment_start_ms ≡ 1500
unfolding ingest_pcm observe emit_window append write_wrapped ms_to_bytes bytes_to_ms read_absolute
    window_at position_ms window oldest_offset_ms
after_two-start = refl

apply_decision-kept_example :
    let s' = apply_decision passthrough settings trace_of 3000 keep_speech 2000 4000 after_two in
    (s'.segment_open ≡ true)
    × (s'.segment_end_ms ≡ 4000)
    × (4000 < s'.segment_start_ms + 2000)
    × BeginsBy after_two s'.segment_start_ms 4000
    × ((BeginsBy after_two s'.segment_start_ms 2000 × (s'.emitted ≡ after_two.emitted))
        ⊎ ((from_ms : ℕ) × BeginsBy after_two from_ms 2000
            × (audio_of s'.emitted
                ≡ and_then
                    (audio_of after_two.emitted)
                    (audio after_two.buffer two_seconds from_ms 4000))))
apply_decision-kept_example =
    apply_decision-kept passthrough settings trace_of (omega arith) (omega arith) two_seconds 3000
      keep_speech 2000 4000 after_two after_two-Holds refl (omega arith)
      (λ opened. omega (arith, after_two-start))
