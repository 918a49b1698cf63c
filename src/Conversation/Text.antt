-- ===== src/Conversation/Text.antt =====
-- The helpers of app/services/conversation_assembler.py: the assembled text, the rebased and
-- de-duplicated matches, the dominant language. `is_space` is `str.isspace` of one code point.
-- `ms_of` is int(span.total_seconds() * 1000), a float product, of a span of microseconds.
use radio_broadcast_analysis.Prelude.{
  ℕ, ◌+◌, ◌-◌, String, Bool, true, false, not, ◌&&◌, Option, none, some, List, [], ◌∷◌, ◌++◌, map,
  if◌then◌else◌, ltb, nat_eq, length, filterb, nat_Eq, string_Eq, str_eq,
}
use radio_broadcast_analysis.Prelude.Dict.{Dict, get, put}
use radio_broadcast_analysis.Prelude.Sort.{sort_by}
use radio_broadcast_analysis.Prelude.Text.{text_leb}
use radio_broadcast_analysis.Matching.Data.{KeywordMatch}
use radio_broadcast_analysis.Conversation.Data.{TranscribedSegment}

abbrev pub is_empty {ℓ} : {A : Type ℓ} → List A → Bool
is_empty [] = true
is_empty (x ∷ xs) = false

module _ (is_space : ℕ → Bool) where
  unfoldable pub lstrip : List ℕ → List ℕ
  lstrip [] = []
  lstrip (c ∷ cs) = if is_space c then lstrip cs else c ∷ cs

  unfoldable pub rstrip : List ℕ → List ℕ
  rstrip [] = []
  rstrip (c ∷ cs) = let rest = rstrip cs in if is_empty rest && is_space c then [] else c ∷ rest

  unfoldable pub strip : List ℕ → List ℕ
  unfolding lstrip rstrip
  strip text = rstrip (lstrip text)

  -- " ".join(texts)
  unfoldable pub join : List (List ℕ) → List ℕ
  join [] = []
  join (t ∷ []) = t
  join (t ∷ u ∷ us) = t ++ 32 ∷ join (u ∷ us)

  -- The texts that the join keeps.
  unfoldable pub spoken : List TranscribedSegment → List (List ℕ)
  spoken segments = filterb (λ t. not (is_empty t)) (map (λ s. strip s.text) segments)

  unfoldable pub transcript_of : List TranscribedSegment → List ℕ
  unfolding join spoken
  transcript_of segments = join (spoken segments)

  module _ (ms_of : ℕ → ℕ) where
    unfoldable pub rebase_match : ℕ → ℕ → ℕ → KeywordMatch → KeywordMatch
    rebase_match char_base left_trim offset_ms m = record m {
      start_char = char_base + (m.start_char - left_trim);
      end_char = char_base + (m.end_char - left_trim);
      start_ms = elim m.start_ms [ none ↦ none | some ms ↦ some (ms + offset_ms) ];
      end_ms = elim m.end_ms [ none ↦ none | some ms ↦ some (ms + offset_ms) ];
    }

    -- The loop of `_rebase_matches`, from one character base.
    unfoldable pub rebase_from : ℕ → ℕ → List TranscribedSegment → List KeywordMatch
    rebase_from started_at char_base [] = []
    rebase_from started_at char_base (s ∷ segments) =
        let stripped = strip s.text in
        let left_trim = length s.text - length (lstrip s.text) in
        let skipped = rebase_from started_at char_base segments in
        let next = rebase_from started_at (char_base + (length stripped + 1)) segments in
        if is_empty stripped
        then skipped
        else map (rebase_match char_base left_trim (ms_of (s.started_at - started_at))) s.matches
          ++ next

    -- `_rebase_matches`
    unfoldable pub rebase_matches : ℕ → List TranscribedSegment → List KeywordMatch
    unfolding rebase_from
    rebase_matches started_at segments = rebase_from started_at 0 segments

-- One step of the loop of `_deduplicate_matches`.
unfoldable pub keep_stronger :
    Dict String KeywordMatch → KeywordMatch → Option KeywordMatch → Dict String KeywordMatch
keep_stronger best m none = put best m.keyword_id m
keep_stronger best m (some current) =
    if ltb current.confidence m.confidence then put best m.keyword_id m else best

unfoldable pub strongest : Dict String KeywordMatch → List KeywordMatch → Dict String KeywordMatch
unfolding keep_stronger
strongest best [] = best
strongest best (m ∷ ms) = strongest (keep_stronger best m (get best m.keyword_id)) ms

-- (start_char, keyword_id) <= (start_char, keyword_id)
abbrev pub match_leb : KeywordMatch → KeywordMatch → Bool
match_leb a b =
    if nat_eq a.start_char b.start_char
    then text_leb a.keyword_id b.keyword_id
    else ltb a.start_char b.start_char

-- `_deduplicate_matches`
unfoldable pub deduplicate_matches : List KeywordMatch → List KeywordMatch
unfolding strongest
deduplicate_matches matches = sort_by match_leb (map (λ slot. slot.1) (strongest [] matches))

weight_of : Option ℕ → ℕ
weight_of none = 0
weight_of (some w) = w

add_weight : Dict String ℕ → Option String → ℕ → Dict String ℕ
add_weight weights none size = weights
add_weight weights (some language) size =
    if str_eq language ""
    then weights
    else put weights language (weight_of (get weights language) + size)

language_weights : Dict String ℕ → List TranscribedSegment → Dict String ℕ
language_weights weights [] = weights
language_weights weights (s ∷ segments) =
    language_weights (add_weight weights s.language (length s.text)) segments

-- max(weights, key=...): the first key of the greatest weight.
heaviest : String → ℕ → Dict String ℕ → String
heaviest code weight [] = code
heaviest code weight ((c, w) ∷ rest) =
    let (code', weight') = (if ltb weight w then (c, w) else (code, weight)) in
    heaviest code' weight' rest

first_heaviest : Dict String ℕ → Option String
first_heaviest [] = none
first_heaviest ((c, w) ∷ rest) = some (heaviest c w rest)

-- `_dominant_language`
unfoldable pub dominant_language : List TranscribedSegment → Option String
unfolding weight_of add_weight language_weights heaviest first_heaviest
dominant_language segments = first_heaviest (language_weights [] segments)
