-- ===== src/Conversation/Rebase.antt =====
-- `_rebase_matches`: the spans of the matches, cut out of the assembled transcript.
use radio_broadcast_analysis.Conversation.Strip.{lstrip-suffix, rstrip-prefix}
use mathlib.Core.Path.{ap₂}
use radio_broadcast_analysis.Conversation.Cut.{cut, cut-middle}
use radio_broadcast_analysis.Prelude.{
  ℕ, ◌+◌, ◌-◌, ◌≤◌, Bool, List, [], ◌∷◌, ◌++◌, ◌≡◌, refl, sym, ap, ◌∙◌, inl, inr, arith, length,
  nat_Eq, string_Eq, Bool-cases, All, if◌then◌else◌, map, append-nil, false, true, ◌⊎◌,
  length-append, append_assoc,
}
use radio_broadcast_analysis.Matching.Data.{KeywordMatch}
use radio_broadcast_analysis.Conversation.Data.{TranscribedSegment}
use radio_broadcast_analysis.Conversation.Text.{
  is_empty, lstrip, rstrip, strip, rebase_match, spoken, rebase_from, join, transcript_of,
  rebase_matches,
}

-- The pieces of a text that some matches mark.
pub cuts : List ℕ → List KeywordMatch → List (List ℕ)
cuts text ms = map (λ m. cut text m.start_char m.end_char) ms

cuts-append :
    (text : List ℕ) (xs ys : List KeywordMatch)
    → cuts text (xs ++ ys) ≡ cuts text xs ++ cuts text ys
unfolding cuts
cuts-append text [] ys = refl
cuts-append text (x ∷ xs) ys = ap (◌∷◌ (cut text x.start_char x.end_char)) (cuts-append text xs ys)

List-cases {ℓ} : {A : Type ℓ} (xs : List A) → (xs ≡ []) ⊎ ((y : A) × (ys : List A) × (xs ≡ y ∷ ys))
List-cases [] = inl refl
List-cases (y ∷ ys) = inr (y, ys, refl)

module _ (is_space : ℕ → Bool) where
  abbrev pub left_trim : TranscribedSegment → ℕ
  left_trim s = length s.text - length (lstrip is_space s.text)

  -- The match lies in the stripped part of its segment's text.
  abbrev pub IsInside : TranscribedSegment → KeywordMatch → Type 0
  IsInside s m =
      (left_trim s ≤ m.start_char)
      × (m.start_char ≤ m.end_char)
      × (m.end_char ≤ left_trim s + length (strip is_space s.text))

  cut-strip :
      (s : TranscribedSegment) (m : KeywordMatch)
      → IsInside s m
      → cut (strip is_space s.text) (m.start_char - left_trim s) (m.end_char - left_trim s)
        ≡ cut s.text m.start_char m.end_char
  unfolding strip
  cut-strip s m h =
      let (head, e, n, le) = lstrip-suffix is_space s.text in
      let (tail, f) = rstrip-prefix is_space (lstrip is_space s.text) in
      let start : length head + (m.start_char - left_trim s) ≡ m.start_char = omega (arith, n) in
      let end : length head + (m.end_char - left_trim s) ≡ m.end_char = omega (arith, n) in
      sym (
        cut-middle head (rstrip is_space (lstrip is_space s.text)) tail (m.start_char - left_trim s)
          (m.end_char - left_trim s) (omega arith))
      ∙ ap
          (λ t.
            cut (head ++ t) (length head + (m.start_char - left_trim s))
              (length head + (m.end_char - left_trim s)))
          (sym f)
      ∙ ap
          (λ t.
            cut t (length head + (m.start_char - left_trim s))
              (length head + (m.end_char - left_trim s)))
          (sym e)
      ∙ ap (λ k. cut s.text k (length head + (m.end_char - left_trim s))) start
      ∙ ap (cut s.text m.start_char) end

  -- The texts that the matches of the spoken segments stand for, in their order.
  abbrev pub evidence : List TranscribedSegment → List (List ℕ)
  evidence [] = []
  evidence (s ∷ segments) =
      if is_empty (strip is_space s.text)
      then evidence segments
      else map (λ m. cut s.text m.start_char m.end_char) s.matches ++ evidence segments

  module _ (s : TranscribedSegment) (segments : List TranscribedSegment) where
    spoken-blank :
        is_empty (strip is_space s.text) ≡ true
        → spoken is_space (s ∷ segments) ≡ spoken is_space segments
    unfolding spoken
    spoken-blank blank = ground (arith, blank)

    spoken-heard :
        is_empty (strip is_space s.text) ≡ false
        → spoken is_space (s ∷ segments) ≡ strip is_space s.text ∷ spoken is_space segments
    unfolding spoken
    spoken-heard heard = ground (arith, heard)

    evidence-blank :
        is_empty (strip is_space s.text) ≡ true → evidence (s ∷ segments) ≡ evidence segments
    evidence-blank blank = ground (arith, blank)

    evidence-heard :
        is_empty (strip is_space s.text) ≡ false
        → evidence (s ∷ segments)
          ≡ map (λ m. cut s.text m.start_char m.end_char) s.matches ++ evidence segments
    evidence-heard heard = ground (arith, heard)

  module _ (ms_of : ℕ → ℕ) where
    abbrev own : ℕ → List ℕ → TranscribedSegment → List KeywordMatch
    own started_at before s =
        map
          (rebase_match is_space ms_of (length before) (left_trim s)
            (ms_of (s.started_at - started_at)))
          s.matches

    rebase-blank :
        (started_at base : ℕ) (s : TranscribedSegment) (segments : List TranscribedSegment)
        → is_empty (strip is_space s.text) ≡ true
        → rebase_from is_space ms_of started_at base (s ∷ segments)
          ≡ rebase_from is_space ms_of started_at base segments
    unfolding rebase_from
    rebase-blank started_at base s segments blank = ground (arith, blank)

    rebase-heard :
        (started_at base : ℕ) (s : TranscribedSegment) (segments : List TranscribedSegment)
        → is_empty (strip is_space s.text) ≡ false
        → rebase_from is_space ms_of started_at base (s ∷ segments)
          ≡ map
              (rebase_match is_space ms_of base (left_trim s) (ms_of (s.started_at - started_at)))
              s.matches
            ++ rebase_from is_space ms_of started_at
                (base + (length (strip is_space s.text) + 1))
                segments
    unfolding rebase_from
    rebase-heard started_at base s segments heard = ground (arith, heard)

    cut-rebased :
        (s : TranscribedSegment) (before after : List ℕ) (offset : ℕ) (ms : List KeywordMatch)
        → All (IsInside s) ms
        → map
            (λ m. cut (before ++ (strip is_space s.text ++ after)) m.start_char m.end_char)
            (map (rebase_match is_space ms_of (length before) (left_trim s) offset) ms)
          ≡ map (λ m. cut s.text m.start_char m.end_char) ms
    unfolding rebase_match
    cut-rebased s before after offset [] h = refl
    cut-rebased s before after offset (m ∷ ms) h =
        ap₂ ◌∷◌
          (cut-middle before (strip is_space s.text) after (m.start_char - left_trim s)
              (m.end_char - left_trim s) (omega (arith, h.0))
            ∙ cut-strip s m h.0)
          (cut-rebased s before after offset ms h.1)

    silent :
        (started_at base : ℕ) (segments : List TranscribedSegment)
        → spoken is_space segments ≡ []
        → (rebase_from is_space ms_of started_at base segments ≡ []) × (evidence segments ≡ [])
    unfolding spoken rebase_from
    silent started_at base [] h = (refl, refl)
    silent started_at base (s ∷ segments) h = elim (Bool-cases (is_empty (strip is_space s.text))) [
      | inl blank ↦
          let rest = silent started_at base segments (ground (arith, h)) in
          (ground (arith, rest), ground (arith, rest))
      | inr heard ↦ absurd (ground (arith, h))
    ]

    cut-rebase_from :
        (started_at : ℕ) (before : List ℕ) (segments : List TranscribedSegment)
        → All (λ s. All (IsInside s) s.matches) segments
        → cuts
            (before ++ join is_space (spoken is_space segments))
            (rebase_from is_space ms_of started_at (length before) segments)
          ≡ evidence segments
    unfolding spoken rebase_from cuts join
    cut-rebase_from started_at before [] h = refl
    cut-rebase_from started_at before (s ∷ segments) h =
        elim (Bool-cases (is_empty (strip is_space s.text))) [
          | inl blank ↦ cc (
            spoken-blank s segments blank,
            rebase-blank started_at (length before) s segments blank,
            evidence-blank s segments blank,
            cut-rebase_from started_at before segments h.1,
          )
          | inr heard ↦ elim (List-cases (spoken is_space segments)) [
            | inl last ↦
                let quiet =
                  silent started_at (length before + (length (strip is_space s.text) + 1)) segments
                    last in
                ap₂ cuts
                  (ap (λ t. before ++ join is_space t)
                      (spoken-heard s segments heard ∙ ap (◌∷◌ (strip is_space s.text)) last)
                    ∙ ap (◌++◌ before) (sym (append-nil (strip is_space s.text))))
                  (rebase-heard started_at (length before) s segments heard
                    ∙ ap (◌++◌ (own started_at before s)) quiet.0
                    ∙ append-nil (own started_at before s))
                ∙ cut-rebased s before [] (ms_of (s.started_at - started_at)) s.matches h.0
                ∙ sym (append-nil (map (λ m. cut s.text m.start_char m.end_char) s.matches))
                ∙ ap (◌++◌ (map (λ m. cut s.text m.start_char m.end_char) s.matches)) (sym quiet.1)
                ∙ sym (evidence-heard s segments heard)
            | inr (u, us, more) ↦
                let t = strip is_space s.text in
                let j = join is_space (spoken is_space segments) in
                let before' = before ++ (t ++ 32 ∷ []) in
                let size : length before' ≡ length before + (length t + 1) =
                  omega (
                    arith,
                    length-append {0} before (t ++ 32 ∷ []),
                    length-append {0} t (32 ∷ []),
                  ) in
                let whole : before ++ join is_space (spoken is_space (s ∷ segments))
                    ≡ before ++ (t ++ 32 ∷ j) =
                  ap (λ x. before ++ join is_space x) (spoken-heard s segments heard)
                  ∙ ap (λ x. before ++ join is_space (t ∷ x)) more
                  ∙ ap (λ x. before ++ (t ++ 32 ∷ join is_space x)) (sym more) in
                let split : before' ++ j ≡ before ++ (t ++ 32 ∷ j) =
                  append_assoc before (t ++ 32 ∷ []) j
                  ∙ ap (◌++◌ before) (append_assoc t (32 ∷ []) j) in
                ap₂ cuts whole (rebase-heard started_at (length before) s segments heard)
                ∙ cuts-append (before ++ (t ++ 32 ∷ j)) (own started_at before s) (
                    rebase_from is_space ms_of started_at (length before + (length t + 1)) segments)
                ∙ ap₂ ◌++◌
                    (cut-rebased s before (32 ∷ j) (ms_of (s.started_at - started_at)) s.matches
                      h.0)
                    (ap₂ cuts (sym split)
                        (ap (λ n. rebase_from is_space ms_of started_at n segments) (sym size))
                      ∙ cut-rebase_from started_at before' segments h.1)
                ∙ sym (evidence-heard s segments heard)
          ]
        ]

  -- Cutting the rebased spans out of the assembled transcript gives the texts that the matches had
  -- in their own segments, in the same order, whatever blank segments stand in between; each match
  -- has to lie in the stripped part of its segment.
  pub rebase_matches_lem :
      (ms_of : ℕ → ℕ) (started_at : ℕ) (segments : List TranscribedSegment)
      → All (λ s. All (IsInside s) s.matches) segments
      → cuts (transcript_of is_space segments) (rebase_matches is_space ms_of started_at segments)
        ≡ evidence segments
  unfolding transcript_of rebase_matches
  rebase_matches_lem ms_of started_at segments h = cut-rebase_from ms_of started_at [] segments h
