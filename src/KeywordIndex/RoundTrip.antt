-- ===== src/KeywordIndex/RoundTrip.antt =====
-- Reading the payload of an index back gives the index.
use radio_broadcast_analysis.Prelude.{
  ℕ, ◌<◌, String, Bool, true, false, not, Option, none, some, List, [], ◌∷◌, ◌≡◌, refl, sym, inl,
  inr, arith, if◌then◌else◌, ltb, All, All-imp, nat_Eq, string_Eq, eq_iff, str_eq, Bool-cases,
}
use radio_broadcast_analysis.Prelude.Dict.{Dict}
use radio_broadcast_analysis.KeywordIndex.{
  KeywordAlias, KeywordEntry, IndexTerm, StationKeywordIndex,
}
use radio_broadcast_analysis.KeywordIndex.Json.{
  Json, text, lookup, get_field, each, to_items, each-to_items, list_at,
}
use radio_broadcast_analysis.KeywordIndex.Payload.{
  alias_json, entry_json, term_json, policy_json, to_payload, text_of, policy_of, alias_of,
  entry_of, term_of, language_of, language_json, index_from_payload,
}

abbrev pub NonEmpty : String → Type 0
NonEmpty s = str_eq s "" ≡ false

-- What an index has to have for its payload to keep it: where a default stands for an empty text or a
-- threshold of 0, no such value.
abbrev pub IsKeptAlias : KeywordAlias → Type 0
IsKeptAlias a = NonEmpty a.kind

abbrev pub IsKeptEntry : KeywordEntry → Type 0
IsKeptEntry e =
    NonEmpty e.keyword_type
    × NonEmpty e.match_mode
    × (0 < e.semantic_threshold)
    × All IsKeptAlias e.aliases

abbrev pub IsKeptTerm : IndexTerm → Type 0
IsKeptTerm t = NonEmpty t.display × NonEmpty t.kind

or_empty : (s : String) → (if not (str_eq s "") then s else "") ≡ s
or_empty s = elim (Bool-cases (str_eq s "")) [
  | inl empty ↦ rw (empty) (sym ((eq_iff s "").0 empty))
  | inr some_text ↦ rw (some_text) refl
]

or_default : (s default : String) → NonEmpty s → (if not (str_eq s "") then s else default) ≡ s
or_default s default h = rw (h) refl

or_zero : (n : ℕ) → (if ltb 0 n then some n else some 0) ≡ some n
or_zero n = ground arith

or_number : (n default : ℕ) → 0 < n → (if ltb 0 n then some n else some default) ≡ some n
or_number n default h = let positive : ltb 0 n ≡ true = ground (arith, h) in rw (positive) refl

module _ (render : Json → String) (parse : Json → Option ℕ) where
  texts : (xs : List String) → each (text_of render parse) (to_items text xs) ≡ some xs
  texts xs = each-to_items (text_of render parse) text xs (all xs)
    where
      all : (xs : List String) → All (λ x. text_of render parse (text x) ≡ some x) xs
      all [] = tt
      all (x ∷ xs) = (refl, all xs)

  policies : (policy : Dict String Bool) → policy_of render parse (policy_json policy) ≡ some policy
  unfolding policy_of policy_json
  policies [] = refl
  policies ((k, b) ∷ policy) = rw (policies policy) refl

  language-json :
      (language : Option String) → language_of render parse (language_json language) ≡ some language
  language-json none = refl
  language-json (some s) = refl

  alias_of-alias_json :
      (a : KeywordAlias) → IsKeptAlias a → alias_of render parse (alias_json a) ≡ some a
  unfolding alias_of lookup get_field
  alias_of-alias_json a h = rw (language-json a.language, or_default a.kind "canonical" h) refl

  entry_of-entry_json :
      (e : KeywordEntry) → IsKeptEntry e → entry_of render parse (entry_json e) ≡ some e
  unfolding entry_of lookup get_field list_at
  entry_of-entry_json e h =
      let aliases =
        each-to_items (alias_of render parse) alias_json e.aliases (all e.aliases h.3) in
      rw
        (
          or_number e.semantic_threshold 7400 h.2,
          aliases,
          texts e.languages,
          policies e.content_policy,
          or_empty e.entity_id,
          or_default e.keyword_type "brand" h.0,
          or_default e.match_mode "tokens" h.1,
        )
        refl
    where
      all :
          (xs : List KeywordAlias)
          → All IsKeptAlias xs
          → All (λ a. alias_of render parse (alias_json a) ≡ some a) xs
      all xs k = All-imp alias_of-alias_json xs k

  term_of-term_json : (t : IndexTerm) → IsKeptTerm t → term_of render parse (term_json t) ≡ some t
  unfolding term_of lookup get_field
  term_of-term_json t h =
      rw
        (
          language-json t.language,
          texts t.keyword_ids,
          or_default t.display t.normalized h.0,
          or_default t.kind "canonical" h.1,
        )
        refl

  -- An index is read back from its payload as it was published, whatever Python makes of values of
  -- other kinds, if no keyword type, match mode or kind and no displayed form in it is empty and no
  -- threshold is 0.
  pub index_from_payload-to_payload :
      (index : StationKeywordIndex)
      → All IsKeptEntry index.entries
      → All IsKeptTerm index.terms
      → index_from_payload render parse (to_payload index) ≡ some index
  unfolding index_from_payload to_payload lookup get_field list_at
  index_from_payload-to_payload index entries terms =
      rw
        (
          each-to_items (entry_of render parse) entry_json index.entries
              (All-imp entry_of-entry_json index.entries entries),
          each-to_items (term_of render parse) term_json index.terms
              (All-imp term_of-term_json index.terms terms),
          or_zero index.version,
          or_empty index.fingerprint,
        )
        refl
