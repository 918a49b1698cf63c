-- ===== src/Stream/Windows.antt =====
-- The windows that a session classifies and the audio that it emits, over a buffer that holds the
-- stream of its generation.
use radio_broadcast_analysis.Prelude.{
  ℕ, zero, suc, ◌+◌, ◌%◌, ◌<◌, String, Option, none, List, ◌++◌, ◌≡◌, refl, sym, ap, ◌∙◌, subst,
  inl, inr, arith, leb, length, nat_Eq, string_Eq, Bool-cases, if_both,
}
use radio_broadcast_analysis.Audio.{AudioClassifier}
use radio_broadcast_analysis.RingBuffer.{PcmWindow, Error, ok, position_ms}
use radio_broadcast_analysis.RingBuffer.Refinement.{Holds, append-Holds}
use radio_broadcast_analysis.Stream.{StreamSettings, Session, is_empty}
use radio_broadcast_analysis.Stream.Segmenting.{
  apply_decision, judge_window, next_window, classify_ready_windows, ingest_pcm, after_append,
  verdict,
}
use radio_broadcast_analysis.Stream.Cuts.{
  Adds, nothing_added, then_adds, window-slice, apply_decision-Step,
}

module _ {C : Type 0} (classifier : AudioClassifier C) (settings : StreamSettings)
    (trace_of : ℕ → String) (written : List ℕ) where
  -- What one window leaves as it is and emits; what is classified reaches its end.
  abbrev Judged : Session C → Option Error × Session C → Type 0
  Judged s (error, s') =
      (error ≡ none)
      × (s'.buffer ≡ s.buffer)
      × (s'.classified_to_ms ≡ s.classified_to_ms + settings.classifier_window_ms)
      × Adds s.buffer.generation written s.emitted s'.emitted

  judge_window-Judged :
      (now : ℕ) (s : Session C) (w : PcmWindow)
      → Holds s.buffer written
      → Judged s (judge_window classifier settings trace_of now s (ok w))
  unfolding judge_window
  judge_window-Judged now s w h =
      let end_ms = s.classified_to_ms + settings.classifier_window_ms in
      let v = verdict classifier settings trace_of s w in
      let k =
        apply_decision-Step classifier settings trace_of written now v.0 s.classified_to_ms end_ms
          v.1 h in
      if_both (λ s'. Judged s (none, s')) (is_empty w) (record s { classified_to_ms = end_ms })
        (apply_decision classifier settings trace_of now v.0 s.classified_to_ms end_ms v.1)
        (refl, refl, refl, nothing_added s.emitted) (refl, k.0, k.1, k.2)

  next_window-Judged :
      (now : ℕ) (s : Session C)
      → Holds s.buffer written
      → Judged s (
          judge_window classifier settings trace_of now s
            (next_window classifier settings trace_of s))
  next_window-Judged now s h =
      let answer =
        window-slice s.buffer written s.classified_to_ms
          (s.classified_to_ms + settings.classifier_window_ms) h in
      subst (λ r. Judged s (judge_window classifier settings trace_of now s r)) (sym answer.1)
        (judge_window-Judged now s answer.0 h)

  -- With fuel for the distance to the end of the audio the loop classifies all of it but less than
  -- a window.
  classify_ready_windows-Step :
      (fuel now : ℕ) (s : Session C)
      → Holds s.buffer written
      → 0 < settings.classifier_window_ms
      → position_ms s.buffer < s.classified_to_ms + fuel
      → let (error, s') = classify_ready_windows classifier settings trace_of fuel now s in
        (error ≡ none)
        × (s'.buffer ≡ s.buffer)
        × (position_ms s'.buffer < s'.classified_to_ms + settings.classifier_window_ms)
        × Adds s.buffer.generation written s.emitted s'.emitted
  unfolding classify_ready_windows
  classify_ready_windows-Step zero now s h w f = (refl, refl, omega arith, nothing_added s.emitted)
  classify_ready_windows-Step (suc fuel) now s h w f =
      let (error, s') =
        judge_window classifier settings trace_of now s
          (next_window classifier settings trace_of s) in
      let k = next_window-Judged now s h in
      let s'' = (classify_ready_windows classifier settings trace_of fuel now s').1 in
      elim (Bool-cases
        (leb (s.classified_to_ms + settings.classifier_window_ms) (position_ms s.buffer))) [
          | inl ready ↦
              let far : position_ms s'.buffer < s'.classified_to_ms + fuel =
                omega (arith, ap position_ms k.1, k.2) in
              let r =
                classify_ready_windows-Step fuel now s' (subst (λ b. Holds b written) (sym k.1) h) w
                  far in
              rw (ready, k.0)
                (
                  r.0,
                  r.1 ∙ k.1,
                  r.2,
                  then_adds k.3
                      (subst (λ b. Adds b.generation written s'.emitted s''.emitted) k.1 r.3),
                )
          | inr wait ↦ rw (wait) (refl, refl, ground (arith, wait), nothing_added s.emitted)
        ]

module _ {C : Type 0} (classifier : AudioClassifier C) (settings : StreamSettings)
    (trace_of : ℕ → String) (written : List ℕ) where
  -- On a session whose buffer holds a stream, whole samples of any number are taken in without an
  -- error, the loop over the windows ends by its own test, with less than a window of the stream
  -- left to classify, and each segment emitted on the way is a stretch of that stream.
  pub ingest_pcm_lem :
      (now : ℕ) (pcm : List ℕ) (s : Session C)
      → Holds s.buffer written
      → length pcm % 2 ≡ 0
      → 0 < settings.classifier_window_ms
      → let (error, s') = ingest_pcm classifier settings trace_of now pcm s in
        (error ≡ none)
        × Holds s'.buffer (written ++ pcm)
        × (position_ms s'.buffer < s'.classified_to_ms + settings.classifier_window_ms)
        × Adds s'.buffer.generation (written ++ pcm) s.emitted s'.emitted
  unfolding ingest_pcm after_append
  ingest_pcm_lem now pcm s h even w =
      let (b, e, h') = append-Holds s.buffer now written pcm h even in
      let s1 = record s { buffer = b } in
      let s2 =
        (classify_ready_windows classifier settings trace_of (suc (position_ms b)) now s1).1 in
      let k =
        classify_ready_windows-Step classifier settings trace_of (written ++ pcm)
          (suc (position_ms b)) now s1 h' w (omega arith) in
      subst
        (λ answer.
          let (error, s') = after_append classifier settings trace_of now s answer in
          (error ≡ none)
          × Holds s'.buffer (written ++ pcm)
          × (position_ms s'.buffer < s'.classified_to_ms + settings.classifier_window_ms)
          × Adds s'.buffer.generation (written ++ pcm) s.emitted s'.emitted)
        (sym e)
        (
          k.0,
          subst (λ b. Holds b (written ++ pcm)) (sym k.1) h',
          k.2,
          subst (λ b. Adds b.generation (written ++ pcm) s.emitted s2.emitted) (sym k.1) k.3,
        )
