-- ===== src/KeywordIndex/Payload.antt =====
-- `to_payload` and `index_from_payload`. A value of a kind that the index cannot hold, such as a number
-- for a language, and a missing key are both `none`.
use radio_broadcast_analysis.Prelude.{
  ℕ, String, Bool, true, Option, none, some, [], ◌∷◌, if◌then◌else◌, nat_Eq, string_Eq,
}
use radio_broadcast_analysis.Prelude.Dict.{Dict}
use radio_broadcast_analysis.KeywordIndex.{
  KeywordAlias, KeywordEntry, IndexTerm, StationKeywordIndex, keyword_count, campaign_count,
  alias_count,
}
use radio_broadcast_analysis.KeywordIndex.Json.{
  Json, null, boolean, number, text, array, object, Fields, done, field, lookup, get_field, truthy,
  each, items_of, list_at, characters, keys, fields_of, to_items, ◌>>=◌,
}

abbrev pub language_json : Option String → Json
language_json none = null
language_json (some s) = text s

unfoldable pub policy_json : Dict String Bool → Fields
policy_json [] = done
policy_json ((k, b) ∷ policy) = field k (boolean b) (policy_json policy)

abbrev pub alias_json : KeywordAlias → Json
alias_json a = object (
    field "value" (text a.value)
      (field "language" (language_json a.language) (field "kind" (text a.kind) done)))

abbrev pub entry_json : KeywordEntry → Json
entry_json e = object (
    field "keyword_id" (text e.keyword_id) (
      field "campaign_id" (text e.campaign_id) (
        field "entity_id" (text e.entity_id) (
          field "canonical_value" (text e.canonical_value) (
            field "keyword_type" (text e.keyword_type) (
              field "match_mode" (text e.match_mode) (
                field "semantic_matching" (boolean e.semantic_matching) (
                  field "semantic_threshold" (number e.semantic_threshold) (
                    field "languages" (array (to_items text e.languages)) (
                      field "content_policy" (object (policy_json e.content_policy))
                        (field "aliases" (array (to_items alias_json e.aliases)) done)))))))))))

abbrev pub term_json : IndexTerm → Json
term_json t = object (
    field "normalized" (text t.normalized) (
      field "display" (text t.display) (
        field "language" (language_json t.language) (
          field "kind" (text t.kind) (
            field "keyword_ids" (array (to_items text t.keyword_ids))
              (field "requires_word_boundaries" (boolean t.requires_word_boundaries) done))))))

unfoldable pub to_payload : StationKeywordIndex → Fields
unfolding to_items policy_json
to_payload index = field "schema" (text "radio.keyword-index.v1") (
    field "station_id" (text index.station_id) (
      field "version" (number index.version) (
        field "fingerprint" (text index.fingerprint) (
          field "keyword_count" (number (keyword_count index)) (
            field "campaign_count" (number (campaign_count index)) (
              field "alias_count" (number (alias_count index)) (
                field "entries" (array (to_items entry_json index.entries))
                  (field "terms" (array (to_items term_json index.terms)) done))))))))

-- Python's `str`, `int` and `float` of the values that are not of the kind themselves.
module _ (render : Json → String) (parse : Json → Option ℕ) where
  abbrev pub str_of : Json → String
  str_of (text s) = s
  str_of v = render v

  abbrev pub number_of : Json → Option ℕ
  number_of (number n) = some n
  number_of v = parse v

  -- str(item[k])
  abbrev pub required : Fields → String → Option String
  required item k = do v ← lookup item k; some (str_of v)

  -- str(item.get(k) or default)
  abbrev pub text_or : Fields → String → String → String
  text_or item k default = let v = get_field item k in if truthy v then str_of v else default

  -- float(item.get(k) or default)
  abbrev pub number_or : Fields → String → ℕ → Option ℕ
  number_or item k default =
      let v = get_field item k in if truthy v then number_of v else some default

  abbrev pub language_of : Json → Option (Option String)
  language_of null = some none
  language_of (text s) = some (some s)
  language_of v = none

  abbrev pub text_of : Json → Option String
  text_of (text s) = some s
  text_of v = none

  abbrev pub object_of : Json → Option Fields
  object_of (object fields) = some fields
  object_of v = none

  unfoldable pub policy_of : Fields → Option (Dict String Bool)
  policy_of done = some []
  policy_of (field k (boolean b) fields) = do policy ← policy_of fields; some ((k, b) ∷ policy)
  policy_of (field k v fields) = none

  unfoldable pub alias_of : Json → Option KeywordAlias
  unfolding lookup get_field
  alias_of v = do
    alias ← object_of v
    value ← required alias "value"
    language ← language_of (get_field alias "language")
    some (record { value = value; language = language; kind = text_or alias "kind" "canonical" })

  unfoldable pub entry_of : Json → Option KeywordEntry
  unfolding lookup get_field each policy_of alias_of list_at characters keys
  entry_of v = do
    item ← object_of v
    keyword_id ← required item "keyword_id"
    campaign_id ← required item "campaign_id"
    canonical_value ← required item "canonical_value"
    threshold ← number_or item "semantic_threshold" 7400
    alias_items ← list_at item "aliases"
    aliases ← each alias_of alias_items
    language_items ← items_of (get_field item "languages")
    languages ← each text_of language_items
    policy_fields ← fields_of (get_field item "content_policy")
    policy ← policy_of policy_fields
    some (record {
      keyword_id = keyword_id;
      campaign_id = campaign_id;
      entity_id = text_or item "entity_id" "";
      canonical_value = canonical_value;
      keyword_type = text_or item "keyword_type" "brand";
      match_mode = text_or item "match_mode" "tokens";
      semantic_matching = truthy (get_field item "semantic_matching");
      semantic_threshold = threshold;
      aliases = aliases;
      languages = languages;
      content_policy = policy;
    })

  unfoldable pub term_of : Json → Option IndexTerm
  unfolding lookup get_field each characters keys
  term_of v = do
    item ← object_of v
    normalized ← required item "normalized"
    language ← language_of (get_field item "language")
    id_items ← items_of (get_field item "keyword_ids")
    keyword_ids ← each text_of id_items
    some (record {
      normalized = normalized;
      display = text_or item "display" normalized;
      language = language;
      kind = text_or item "kind" "canonical";
      keyword_ids = keyword_ids;
      requires_word_boundaries = elim (lookup item "requires_word_boundaries") [
        | none ↦ true
        | some b ↦ truthy b
      ];
    })

  unfoldable pub index_from_payload : Fields → Option StationKeywordIndex
  unfolding lookup get_field each entry_of term_of list_at characters keys
  index_from_payload payload = do
    entry_items ← list_at payload "entries"
    entries ← each entry_of entry_items
    term_items ← list_at payload "terms"
    terms ← each term_of term_items
    station_id ← required payload "station_id"
    version ← number_or payload "version" 0
    some (record {
      station_id = station_id;
      version = version;
      fingerprint = text_or payload "fingerprint" "";
      entries = entries;
      terms = terms;
    })
