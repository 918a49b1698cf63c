-- ===== src/Audio/History.antt =====
-- The rolling policy as a function of all the verdicts since its reset.
use radio_broadcast_analysis.Prelude.{
  ℕ, ◌+◌, true, false, Option, none, some, List, [], ◌∷◌, ◌≡◌, refl, sym, ap, ◌∙◌, inl, inr, arith,
  if◌then◌else◌, nat_eq, nat_Eq, string_Eq, Bool-cases,
}
use radio_broadcast_analysis.Prelude.Int.{pos_part}
use radio_broadcast_analysis.Audio.{
  AudioContentClass, class_number, same_class, has_speech, ClassificationResult, PolicySettings,
  Policy, reset_policy, observe, fold_result,
}

number_class : ℕ → AudioContentClass
number_class n =
    if nat_eq n 0
    then AudioContentClass.silence
    else if nat_eq n 1
    then AudioContentClass.music
    else if nat_eq n 2
    then AudioContentClass.singing
    else if nat_eq n 3
    then AudioContentClass.speech
    else if nat_eq n 4
    then AudioContentClass.speech_over_music
    else if nat_eq n 5
    then AudioContentClass.jingle
    else AudioContentClass.unknown

number-class_number : (c : AudioContentClass) → number_class (class_number c) ≡ c
unfolding number_class class_number
number-class_number AudioContentClass.silence = refl
number-class_number AudioContentClass.music = refl
number-class_number AudioContentClass.singing = refl
number-class_number AudioContentClass.speech = refl
number-class_number AudioContentClass.speech_over_music = refl
number-class_number AudioContentClass.jingle = refl
number-class_number AudioContentClass.unknown = refl

pub same_class-≡ : (a b : AudioContentClass) → same_class a b ≡ true → a ≡ b
same_class-≡ a b h =
    sym (number-class_number a) ∙ (ap number_class (ground (arith, h)) ∙ number-class_number b)

-- A history lists the verdicts, the newest first. The class of the newest is that of the run:
abbrev pub latest_class : List ClassificationResult → AudioContentClass
latest_class [] = AudioContentClass.unknown
latest_class (r ∷ h) = r.content_class

-- The sum of `f` over the newest verdicts that are all of class `c`.
abbrev pub run_sum : (ClassificationResult → ℕ) → AudioContentClass → List ClassificationResult → ℕ
run_sum f c [] = 0
run_sum f c (r ∷ h) = if same_class r.content_class c then f r + run_sum f c h else 0

abbrev pub milliseconds : ClassificationResult → ℕ
milliseconds r = pos_part r.duration_ms

abbrev pub run_ms : AudioContentClass → List ClassificationResult → ℕ
run_ms = run_sum milliseconds

abbrev pub run_confidence : AudioContentClass → List ClassificationResult → ℕ
run_confidence = run_sum (λ r. r.confidence)

abbrev pub run_windows : AudioContentClass → List ClassificationResult → ℕ
run_windows = run_sum (λ r. 1)

abbrev pub total_ms : List ClassificationResult → ℕ
total_ms [] = 0
total_ms (r ∷ h) = total_ms h + milliseconds r

-- Where the newest verdict with speech ends.
abbrev pub speech_end : List ClassificationResult → Option ℕ
speech_end [] = none
speech_end (r ∷ h) =
    if has_speech r.content_class then some (total_ms h + milliseconds r) else speech_end h

module _ (settings : PolicySettings) where
  -- The policy that has observed a history since its reset.
  unfoldable pub observed : List ClassificationResult → Policy
  unfolding observe
  observed [] = reset_policy
  observed (r ∷ h) = (observe settings (observed h) r).1

nat_eq_refl : (n : ℕ) → nat_eq n n ≡ true
nat_eq_refl n = ground arith

-- The verdicts before the newest do not count when their class is another one.
run_sum-other :
    (f : ClassificationResult → ℕ) (c : AudioContentClass) (h : List ClassificationResult)
    → same_class c (latest_class h) ≡ false
    → run_sum f c h ≡ 0
run_sum-other f c [] differ = refl
run_sum-other f c (r ∷ h) differ =
    let e : same_class r.content_class c ≡ false = ground (arith, differ) in rw (e) refl

module _ (settings : PolicySettings) where
  -- What `observe` keeps is what the history says: the run is the newest verdicts of one class,
  -- with their duration, their confidence and their number, the position is the total duration,
  -- and the last speech is where the newest verdict with speech ends.
  pub observed_lem :
      (h : List ClassificationResult)
      → let p = observed settings h in
        let c = latest_class h in
        (p.run.content_class ≡ c)
        × (p.run.duration_ms ≡ run_ms c h)
        × (p.run.confidence_sum ≡ run_confidence c h)
        × (p.run.windows ≡ run_windows c h)
        × (p.position_ms ≡ total_ms h)
        × (p.last_speech_end_ms ≡ speech_end h)
  unfolding observed observe fold_result
  observed_lem [] = (refl, refl, refl, refl, refl, refl)
  observed_lem (r ∷ h) =
      let k = observed_lem h in
      let p = observed settings h in
      let position : p.position_ms + milliseconds r ≡ total_ms h + milliseconds r =
        ap (λ n. n + milliseconds r) k.4 in
      let speech : (if has_speech r.content_class
            then some (p.position_ms + milliseconds r)
            else p.last_speech_end_ms)
          ≡ speech_end (r ∷ h) =
        rw (k.4, k.5) refl in
      rw (nat_eq_refl (class_number r.content_class))
        (elim (Bool-cases (same_class r.content_class p.run.content_class)) [
          | inl same ↦
              let e = same_class-≡ r.content_class p.run.content_class same in
              let c : latest_class h ≡ r.content_class = sym (e ∙ k.0) in
              rw (same) (
                sym e,
                omega (arith, k.1, ap (λ c. run_ms c h) c),
                omega (arith, k.2, ap (λ c. run_confidence c h) c),
                omega (arith, k.3, ap (λ c. run_windows c h) c),
                position,
                speech,
              )
          | inr other ↦
              let differ : same_class r.content_class (latest_class h) ≡ false =
                ap (same_class r.content_class) (sym k.0) ∙ other in
              rw (other) (
                refl,
                omega (arith, run_sum-other milliseconds r.content_class h differ),
                omega (arith, run_sum-other (λ r. r.confidence) r.content_class h differ),
                omega (arith, run_sum-other (λ r. 1) r.content_class h differ),
                position,
                speech,
              )
        ])
