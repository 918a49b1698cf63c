-- ===== src/Audio/Tests.antt =====
-- The policy at concrete verdicts.
use radio_broadcast_analysis.Prelude.{
  ℕ, ◌≤◌, true, false, List, [], ◌∷◌, ◌++◌, ◌≡◌, refl, arith, nat_Eq, string_Eq,
}
use radio_broadcast_analysis.Prelude.Int.{pos}
use radio_broadcast_analysis.Audio.{
  AudioContentClass, ClassificationResult, PolicySettings, is_unsure, observe, class_number,
}
use radio_broadcast_analysis.Audio.History.{observed}
use radio_broadcast_analysis.Audio.Discard.{observe-discards, observe-music, needed_ms}

abbrev settings : PolicySettings
settings = record {
  include_speech_over_music = true;
  transcribe_uncertain_audio = true;
  silence_end_seconds = 12;
  pure_music_discard_seconds = 8;
  include_long_form_singing = false;
  include_sung_advertising_jingles = true;
  jingle_max_seconds = 30;
  jingle_adjacency_seconds = 60;
}

abbrev judged : AudioContentClass → ℕ → ClassificationResult
judged c duration = record {
  content_class = c;
  confidence = 700;
  signals = [];
  start_ms = 0;
  duration_ms = pos duration;
}

abbrev music : ℕ → ClassificationResult
music = judged AudioContentClass.music

abbrev two_windows : List ClassificationResult
two_windows = music 3000 ∷ music 3000 ∷ []

-- The third window of music after nothing is discarded; after speech it is kept as a jingle.
third_window : (observe settings (observed settings two_windows) (music 3000)).0.keep ≡ false
unfolding observe observed class_number
third_window = refl

after_speech :
    (observe settings
      (observed settings (two_windows ++ (judged AudioContentClass.speech 3000 ∷ [])))
      (music 3000)).0.keep
    ≡ true
unfolding observe observed class_number
after_speech = refl

observe-discards_example :
    (needed_ms settings AudioContentClass.music ≤ 9000) × (false ≡ false → is_unsure 2100 3 ≡ false)
unfolding class_number
observe-discards_example = observe-discards settings two_windows (music 3000) refl third_window

observe-music_example :
    (observe settings (observed settings two_windows) (music 26000)).0.keep ≡ false
unfolding class_number
observe-music_example =
    observe-music settings two_windows (music 26000) refl (omega arith) (omega arith) refl
