-- ===== src/Matching/Selection.antt =====
-- `_deduplicate` of app/services/keyword_matcher.py: which of the overlapping matches are kept.
use radio_broadcast_analysis.Prelude.{
  ℕ, ◌+◌, String, Bool, ◌&&◌, Option, none, some, List, [], ◌∷◌, ◌++◌, ◌==◌, if◌then◌else◌, ltb,
  leb, nat_eq, anyb, nat_Eq, string_Eq,
}
use radio_broadcast_analysis.Prelude.Dict.{Dict, get, put}
use radio_broadcast_analysis.Prelude.Sort.{sort_by}
use radio_broadcast_analysis.Prelude.Text.{text_leb}
use radio_broadcast_analysis.Matching.Data.{KeywordMatch}

-- The order by (-(end_char - start_char), -confidence, start_char), without the subtractions.
abbrev pub weight_leb : KeywordMatch → KeywordMatch → Bool
weight_leb a b =
    if nat_eq (a.end_char + b.start_char) (b.end_char + a.start_char)
    then if nat_eq a.confidence b.confidence
      then leb a.start_char b.start_char
      else ltb b.confidence a.confidence
    else ltb (b.end_char + a.start_char) (a.end_char + b.start_char)

-- The order of the keys of `ranked`.
unfoldable pub rank_leb : KeywordMatch → KeywordMatch → Bool
rank_leb a b =
    if a.keyword_id == b.keyword_id then weight_leb a b else text_leb a.keyword_id b.keyword_id

abbrev pub span : KeywordMatch → ℕ × ℕ
span m = (m.start_char, m.end_char)

-- start < match.end_char and match.start_char < end
abbrev pub hits : ℕ × ℕ → KeywordMatch → Bool
hits s m = ltb s.0 m.end_char && ltb m.start_char s.1

unfoldable pub is_taken : KeywordMatch → List (ℕ × ℕ) → Bool
is_taken m spans = anyb (λ s. hits s m) spans

-- claimed.setdefault(match.keyword_id, [])
abbrev pub spans_of : Option (List (ℕ × ℕ)) → List (ℕ × ℕ)
spans_of none = []
spans_of (some spans) = spans

-- The loop of `_deduplicate`.
unfoldable pub keep_ranked : Dict String (List (ℕ × ℕ)) → List KeywordMatch → List KeywordMatch
unfolding is_taken
keep_ranked claimed [] = []
keep_ranked claimed (m ∷ ranked) =
    let spans = spans_of (get claimed m.keyword_id) in
    let skipped = keep_ranked (put claimed m.keyword_id spans) ranked in
    let later = keep_ranked (put claimed m.keyword_id (spans ++ span m ∷ [])) ranked in
    if is_taken m spans then skipped else m ∷ later

-- (start_char, keyword_id) <= (start_char, keyword_id)
abbrev pub place_leb : KeywordMatch → KeywordMatch → Bool
place_leb a b =
    if nat_eq a.start_char b.start_char
    then text_leb a.keyword_id b.keyword_id
    else ltb a.start_char b.start_char

-- `_deduplicate`
unfoldable pub deduplicate : List KeywordMatch → List KeywordMatch
unfolding keep_ranked rank_leb
deduplicate matches = sort_by place_leb (keep_ranked [] (sort_by rank_leb matches))
