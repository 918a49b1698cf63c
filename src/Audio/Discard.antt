-- ===== src/Audio/Discard.antt =====
-- What the rolling policy discards, in terms of the verdicts since its reset.
use radio_broadcast_analysis.Prelude.{
  ℕ, ◌*◌, ◌≤◌, ◌<◌, Bool, true, false, List, ◌∷◌, ◌≡◌, refl, sym, ap, ◌∙◌, inl, inr, arith, ltb,
  nat_Eq, string_Eq, Bool-cases,
}
use radio_broadcast_analysis.Audio.{
  AudioContentClass, ClassificationResult, PolicySettings, Policy, is_unsure, observe, should_keep,
  keep_music, is_jingle_context,
}
use radio_broadcast_analysis.Audio.History.{
  run_ms, run_confidence, run_windows, observed, observed_lem,
}

-- `is_discardable`
abbrev pub is_discardable : AudioContentClass → Bool
is_discardable AudioContentClass.silence = true
is_discardable AudioContentClass.music = true
is_discardable AudioContentClass.singing = true
is_discardable _ = false

-- How long a class has to hold before it is discarded.
abbrev pub needed_ms : PolicySettings → AudioContentClass → ℕ
needed_ms settings AudioContentClass.silence = settings.silence_end_seconds * 1000
needed_ms settings _ = settings.pure_music_discard_seconds * 1000

abbrev is_silence : AudioContentClass → Bool
is_silence AudioContentClass.silence = true
is_silence _ = false

module _ (settings : PolicySettings) where
  keep_music-false :
      (p : Policy) (singing : Bool)
      → (keep_music settings p singing).0 ≡ false
      → (settings.pure_music_discard_seconds * 1000 ≤ p.run.duration_ms)
        × (is_unsure p.run.confidence_sum p.run.windows ≡ false)
  unfolding keep_music
  keep_music-false p singing h =
      elim (Bool-cases (ltb p.run.duration_ms (settings.pure_music_discard_seconds * 1000))) [
        | inl short ↦
            let e : (keep_music settings p singing).0 ≡ true = rw (short) refl in absurd cc
        | inr long ↦ elim (Bool-cases (is_unsure p.run.confidence_sum p.run.windows)) [
          | inl unsure ↦
              let e : (keep_music settings p singing).0 ≡ true = rw (long, unsure) refl in absurd cc
          | inr sure ↦ (ground (arith, long), sure)
        ]
      ]

  should_keep-false :
      (p : Policy) (c : AudioContentClass)
      → is_discardable c ≡ true
      → (should_keep settings p c).0 ≡ false
      → (needed_ms settings c ≤ p.run.duration_ms)
        × (is_silence c ≡ false → is_unsure p.run.confidence_sum p.run.windows ≡ false)
  unfolding should_keep
  should_keep-false p AudioContentClass.silence d h = (ground (arith, h), λ e. absurd cc)
  should_keep-false p AudioContentClass.music d h =
      let k = keep_music-false p false h in (k.0, λ _. k.1)
  should_keep-false p AudioContentClass.singing d h =
      let k = keep_music-false p true h in (k.0, λ _. k.1)
  should_keep-false p AudioContentClass.speech d h = absurd cc
  should_keep-false p AudioContentClass.speech_over_music d h = absurd cc
  should_keep-false p AudioContentClass.jingle d h = absurd cc
  should_keep-false p AudioContentClass.unknown d h = absurd cc

  -- Silence, music or singing is discarded only when the newest verdicts of that one class add up
  -- to the time that the settings ask for; music and singing, moreover, only when their mean
  -- confidence is at least 0.55.
  pub observe-discards :
      (h : List ClassificationResult) (r : ClassificationResult)
      → is_discardable r.content_class ≡ true
      → (observe settings (observed settings h) r).0.keep ≡ false
      → (needed_ms settings r.content_class ≤ run_ms r.content_class (r ∷ h))
        × (is_silence r.content_class ≡ false
            → is_unsure
                (run_confidence r.content_class (r ∷ h))
                (run_windows r.content_class (r ∷ h))
              ≡ false)
  unfolding observe observed
  observe-discards h r d discarded =
      let k = observed_lem settings (r ∷ h) in
      let s = should_keep-false (observed settings (r ∷ h)) r.content_class d discarded in
      (omega (arith, k.1, s.0), λ e. rw (sym k.2, sym k.3) (s.1 e))

  -- Music that the classifier is sure of is discarded once it has lasted the discarding time and
  -- longer than the longest jingle, whatever was said before it.
  pub observe-music :
      (h : List ClassificationResult) (r : ClassificationResult)
      → r.content_class ≡ AudioContentClass.music
      → settings.pure_music_discard_seconds * 1000 ≤ run_ms r.content_class (r ∷ h)
      → settings.jingle_max_seconds * 1000 < run_ms r.content_class (r ∷ h)
      → is_unsure (run_confidence r.content_class (r ∷ h)) (run_windows r.content_class (r ∷ h))
        ≡ false
      → (observe settings (observed settings h) r).0.keep ≡ false
  unfolding observe observed should_keep keep_music is_jingle_context
  observe-music h r music long past sure =
      let p = observed settings (r ∷ h) in
      let k = observed_lem settings (r ∷ h) in
      let a : ltb p.run.duration_ms (settings.pure_music_discard_seconds * 1000) ≡ false =
        ground (arith, k.1, long) in
      let b : is_unsure p.run.confidence_sum p.run.windows ≡ false = rw (k.2, k.3) sure in
      let c : ltb (settings.jingle_max_seconds * 1000) p.run.duration_ms ≡ true =
        ground (arith, k.1, past) in
      let j : is_jingle_context settings p ≡ false =
        elim (Bool-cases settings.include_sung_advertising_jingles) [
          | inl on ↦ rw (on, c) refl
          | inr off ↦ rw (off) refl
        ] in
      let kept : (keep_music settings p false).0 ≡ false = rw (a, b, j) refl in
      ap (λ c. (should_keep settings p c).0) music ∙ kept
