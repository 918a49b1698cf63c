-- ===== src/Stream.antt =====
-- app/services/stream_supervisor.py: one session of a station, from the decoded audio to the segments
-- that it emits. A time is a count of milliseconds, as in the ring buffer; an operation takes as
-- `now` what the clock gives while it runs. `emitted` is what the sink has received, which is
-- assumed to return. The decoder process and its diagnostics are not modelled.
pub mod Segmenting
pub mod Run
pub mod Backoff
pub mod Segments
pub mod Cuts
pub mod Windows
pub mod Numbers
pub mod Numbering
mod Tests
use radio_broadcast_analysis.Prelude.{
  ℕ, ◌+◌, String, Bool, true, false, ◌&&◌, Option, none, some, List, [], if◌then◌else◌, ltb, nat_eq,
  length, nat_Eq, string_Eq,
}
use radio_broadcast_analysis.Audio.{
  AudioContentClass, Signals, Decision, Policy, PolicySettings, reset_policy,
}
use radio_broadcast_analysis.RingBuffer.{RingBuffer, PcmWindow, Error, duration_ms, fresh}

-- SPEECH_LEAD_SECONDS
abbrev pub speech_lead_ms : ℕ
speech_lead_ms = 1000

-- What a session reads of the settings.
pub record StreamSettings : Type 0 where
  pub sample_rate : ℕ
  pub ring_buffer_seconds : ℕ
  pub classifier_window_ms : ℕ
  pub speech_chunk_seconds : ℕ
  pub chunk_overlap_ms : ℕ
  pub reconnect_min_ms : ℕ
  pub reconnect_max_ms : ℕ
  pub policy : PolicySettings

pub record StationPlan : Type 0 where
  pub station_id : String
  pub stream_url : String
  pub display_name : String
  pub keyword_index_version : ℕ
  pub language_codes : List String

pub record SegmentEvent : Type 0 where
  pub station_id : String
  pub station_session_id : String
  pub sequence_number : ℕ
  pub pcm : List ℕ
  pub sample_rate : ℕ
  pub started_at : ℕ
  pub ended_at : ℕ
  pub duration_ms : ℕ
  pub content_class : AudioContentClass
  pub content_class_confidence : ℕ
  pub classifier_signals : Signals
  pub keyword_index_version : ℕ
  pub trace_id : String
  pub generation : ℕ

-- What `last_error` tells, before it is put into words.
pub data StreamError : Type 0 where
  unsafe_url : String → StreamError
  no_audio stream_ended : StreamError
  buffer_error : Error → StreamError
  other_error : String → StreamError

pub record SessionStatus : Type 0 where
  pub station_id : String
  pub station_session_id : String
  pub generation : ℕ
  pub status : String
  pub last_audio_at : Option ℕ
  pub last_error : Option StreamError
  pub sample_rate : ℕ
  pub segments_emitted : ℕ
  pub bytes_decoded : ℕ
  pub reconnects : ℕ
  pub started_at : ℕ
  pub last_speech_at : Option ℕ

-- `StationSession`, with the classifier's state of type `C`.
pub record Session (C : Type 0) : Type 0 where
  pub plan : StationPlan
  pub policy : Policy
  pub classifier : C
  pub buffer : RingBuffer
  pub session_id : String
  pub sequence : ℕ
  pub stop : Bool
  pub status : SessionStatus
  pub segment_open : Bool
  pub segment_start_ms : ℕ
  pub segment_end_ms : ℕ
  pub segment_class : AudioContentClass
  pub segment_confidence : ℕ
  pub segment_signals : Signals
  pub classified_to_ms : ℕ
  pub keyword_index_version : ℕ
  pub emitted : List SegmentEvent

-- `is_empty`
abbrev pub is_empty : PcmWindow → Bool
is_empty w = nat_eq (length w.pcm) 0

abbrev pub is_over_music : AudioContentClass → Bool
is_over_music AudioContentClass.speech_over_music = true
is_over_music _ = false

abbrev pub is_speech : AudioContentClass → Bool
is_speech AudioContentClass.speech = true
is_speech _ = false

-- `__init__`, with the id that `new_id` gives
abbrev pub create : {C : Type 0} → StreamSettings → StationPlan → C → String → ℕ → Session C
create settings plan classifier session_id now = record {
  plan = plan;
  policy = reset_policy;
  classifier = classifier;
  buffer = fresh settings.sample_rate settings.ring_buffer_seconds now;
  session_id = session_id;
  sequence = 0;
  stop = false;
  status = record {
    station_id = plan.station_id;
    station_session_id = session_id;
    generation = 1;
    status = "connecting";
    last_audio_at = none;
    last_error = none;
    sample_rate = settings.sample_rate;
    segments_emitted = 0;
    bytes_decoded = 0;
    reconnects = 0;
    started_at = now;
    last_speech_at = none;
  };
  segment_open = false;
  segment_start_ms = 0;
  segment_end_ms = 0;
  segment_class = AudioContentClass.unknown;
  segment_confidence = 0;
  segment_signals = [];
  classified_to_ms = 0;
  keyword_index_version = plan.keyword_index_version;
  emitted = [];
}

module _ {C : Type 0} where
  -- `update_keyword_index_version`
  abbrev pub update_keyword_index_version : ℕ → Session C → Session C
  update_keyword_index_version version s =
      if nat_eq version s.keyword_index_version
      then s
      else record s { keyword_index_version = version }

  -- `is_holding`
  unfoldable pub is_holding : ℕ → ℕ → Session C → Bool
  is_holding now grace s =
      if s.segment_open && is_speech s.segment_class
      then true
      else elim s.status.last_speech_at [ none ↦ false | some spoken ↦ ltb now (spoken + grace) ]

  -- `request_stop`
  abbrev pub request_stop : Session C → Session C
  request_stop s = record s { stop = true }

  -- `_set_status`
  abbrev pub set_status : String → Option StreamError → Session C → Session C
  set_status status error s = record s {
    status = record s.status {
      status = status;
      last_error = elim error [ none ↦ s.status.last_error | some e ↦ some e ];
    };
  }

  -- The assignments of `_apply_decision` that both branches share.
  abbrev pub reach : ℕ → Decision → ℕ → Session C → Session C
  reach now decision end_ms s = record s {
    segment_end_ms = end_ms;
    status = record s.status {
      last_speech_at =
          if is_speech decision.content_class then some now else s.status.last_speech_at;
    };
  }
