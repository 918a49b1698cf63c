-- ===== src/Audio.antt =====
-- app/services/audio_classifier.py: the verdict on a window of audio and `RollingAudioPolicy`, which
-- decides what is kept. The measurements on the samples are not modelled: a classifier is whatever
-- implements `AudioClassifier`. A confidence is a count of thousandths.
pub mod History
pub mod Discard
mod Tests
use radio_broadcast_analysis.Prelude.{
  ℕ, suc, ◌+◌, ◌*◌, String, Bool, true, false, not, ◌&&◌, Option, none, some, [], if◌then◌else◌,
  ltb, leb, nat_eq, nat_Eq, string_Eq,
}
use radio_broadcast_analysis.Prelude.Int.{ℤ, pos, pos_part}
use radio_broadcast_analysis.Prelude.Dict.{Dict}
use radio_broadcast_analysis.RingBuffer.{PcmWindow, duration_ms}

-- AudioContentClass of app/pipeline/enums.py
pub data AudioContentClass : Type 0 where
  silence music singing speech speech_over_music jingle unknown : AudioContentClass

unfoldable pub class_number : AudioContentClass → ℕ
class_number AudioContentClass.silence = 0
class_number AudioContentClass.music = 1
class_number AudioContentClass.singing = 2
class_number AudioContentClass.speech = 3
class_number AudioContentClass.speech_over_music = 4
class_number AudioContentClass.jingle = 5
class_number AudioContentClass.unknown = 6

-- a == b
abbrev pub same_class : AudioContentClass → AudioContentClass → Bool
same_class a b = nat_eq (class_number a) (class_number b)

-- content_class in {"speech", "speech_over_music"}
abbrev pub has_speech : AudioContentClass → Bool
has_speech AudioContentClass.speech = true
has_speech AudioContentClass.speech_over_music = true
has_speech _ = false

-- The key of a signal and its value, in thousandths.
abbrev pub Signals : Type 0
Signals = Dict String ℤ

pub record ClassificationResult : Type 0 where
  pub content_class : AudioContentClass
  pub confidence : ℕ
  pub signals : Signals
  pub start_ms : ℕ
  pub duration_ms : ℤ

-- `AudioClassifier`: what the sessions use of a classifier, whose own state is `C`.
pub record AudioClassifier (C : Type 0) : Type 0 where
  pub classify : C → PcmWindow → ClassificationResult × C
  pub reset : C → C

-- `PassthroughClassifier`
abbrev pub passthrough : AudioClassifier Unit
passthrough = record {
  classify = λ _ window. (
    record {
      content_class = AudioContentClass.speech;
      confidence = 500;
      signals = [];
      start_ms = window.start_offset_ms;
      duration_ms = pos (duration_ms window);
    },
    tt,
  );
  reset = λ _. tt;
}

-- `_Run`
pub record Run : Type 0 where
  pub content_class : AudioContentClass
  pub duration_ms : ℕ
  pub confidence_sum : ℕ
  pub windows : ℕ

abbrev no_run : Run
no_run = record {
  content_class = AudioContentClass.unknown;
  duration_ms = 0;
  confidence_sum = 0;
  windows = 0;
}

-- mean_confidence < 0.55, exactly, where a run of no windows has the mean 0: a sum of floats may come
-- out on the other side when the mean is 0.55 itself
abbrev pub is_unsure : ℕ → ℕ → Bool
is_unsure confidence_sum windows =
    if nat_eq windows 0 then true else ltb confidence_sum (550 * windows)

-- The reasons of a decision, in the order of the source.
pub data Reason : Type 0 where
  always_transcribed over_music_retained over_music_disabled uncertain_transcribed : Reason
  uncertain_disabled short_silence sustained_silence short_music unconfident_music : Reason
  jingle_allowance long_form_singing sustained_music : Reason

pub record Decision : Type 0 where
  pub content_class : AudioContentClass
  pub keep : Bool
  pub confidence : ℕ
  pub reason : Reason
  pub run_ms : ℕ
  pub signals : Signals

-- What the policy reads of the settings.
pub record PolicySettings : Type 0 where
  pub include_speech_over_music : Bool
  pub transcribe_uncertain_audio : Bool
  pub silence_end_seconds : ℕ
  pub pure_music_discard_seconds : ℕ
  pub include_long_form_singing : Bool
  pub include_sung_advertising_jingles : Bool
  pub jingle_max_seconds : ℕ
  pub jingle_adjacency_seconds : ℕ

-- `RollingAudioPolicy`
pub record Policy : Type 0 where
  pub run : Run
  pub last_speech_end_ms : Option ℕ
  pub position_ms : ℕ

abbrev pub reset_policy : Policy
reset_policy = record { run = no_run; last_speech_end_ms = none; position_ms = 0 }

module _ (settings : PolicySettings) where
  -- `_is_jingle_context`
  unfoldable pub is_jingle_context : Policy → Bool
  is_jingle_context p =
      if not settings.include_sung_advertising_jingles
      then false
      else if ltb (settings.jingle_max_seconds * 1000) p.run.duration_ms
      then false
      else elim p.last_speech_end_ms [
        | none ↦ false
        | some spoken ↦
            leb (p.run.duration_ms + spoken) p.position_ms
            && leb p.position_ms
                (settings.jingle_adjacency_seconds * 1000 + (p.run.duration_ms + spoken))
      ]

  -- The part of `_should_keep` for music and singing.
  unfoldable pub keep_music : Policy → Bool → Bool × Reason
  unfolding is_jingle_context
  keep_music p is_singing =
      if ltb p.run.duration_ms (settings.pure_music_discard_seconds * 1000)
      then (true, short_music)
      else if is_unsure p.run.confidence_sum p.run.windows
      then (true, unconfident_music)
      else if is_jingle_context p
      then (true, jingle_allowance)
      else if is_singing && settings.include_long_form_singing
      then (true, long_form_singing)
      else (false, sustained_music)

  -- `_should_keep`
  unfoldable pub should_keep : Policy → AudioContentClass → Bool × Reason
  unfolding keep_music
  should_keep p AudioContentClass.speech = (true, always_transcribed)
  should_keep p AudioContentClass.jingle = (true, always_transcribed)
  should_keep p AudioContentClass.speech_over_music =
      if settings.include_speech_over_music
      then (true, over_music_retained)
      else (false, over_music_disabled)
  should_keep p AudioContentClass.unknown =
      if settings.transcribe_uncertain_audio
      then (true, uncertain_transcribed)
      else (false, uncertain_disabled)
  should_keep p AudioContentClass.silence =
      if ltb p.run.duration_ms (settings.silence_end_seconds * 1000)
      then (true, short_silence)
      else (false, sustained_silence)
  should_keep p AudioContentClass.music = keep_music p false
  should_keep p AudioContentClass.singing = keep_music p true

  -- The assignments of `observe`.
  unfoldable pub fold_result : Policy → ClassificationResult → Policy
  fold_result p result =
      let duration = pos_part result.duration_ms in
      let position = p.position_ms + duration in
      record {
        run =
            if same_class result.content_class p.run.content_class
            then record p.run {
              duration_ms = p.run.duration_ms + duration;
              confidence_sum = p.run.confidence_sum + result.confidence;
              windows = suc p.run.windows;
            }
            else record {
              content_class = result.content_class;
              duration_ms = duration;
              confidence_sum = result.confidence;
              windows = 1;
            };
        last_speech_end_ms =
            if has_speech result.content_class then some position else p.last_speech_end_ms;
        position_ms = position;
      }

  unfoldable pub observe : Policy → ClassificationResult → Decision × Policy
  unfolding fold_result should_keep
  observe p result =
      let p' = fold_result p result in
      let (keep, reason) = should_keep p' result.content_class in
      (
        record {
          content_class = result.content_class;
          keep = keep;
          confidence = result.confidence;
          reason = reason;
          run_ms = p'.run.duration_ms;
          signals = result.signals;
        },
        p',
      )
