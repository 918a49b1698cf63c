-- ===== src/Shards.antt =====
-- app/pipeline/ids.py: station ids and the shard that runs a station. A text is a list of code
-- points; `hash` is the BLAKE2b digest as a number, `is_space` is str.isspace of a code point.
mod Tests
use native.Mathlib.Nat.{mod-lt}
use radio_broadcast_analysis.Prelude.{
  ℕ, ◌-◌, ◌%◌, ◌<◌, Bool, false, not, ◌&&◌, ◌||◌, List, [], ◌∷◌, ◌≡◌, refl, arith, if◌then◌else◌,
  ltb, leb, nat_eq, length, anyb, nat_Eq, string_Eq,
}
use radio_broadcast_analysis.Conversation.Text.{strip}

-- MAX_MESSAGE_GROUP_ID_LENGTH
abbrev pub max_message_group_id_length : ℕ
max_message_group_id_length = 128

pub data IdentifierError : Type 0 where
  empty_id too_long bad_character no_shards bad_index : IdentifierError

pub data Checked {ℓ} (A : Type ℓ) : Type ℓ where
  ok : A → Checked A
  err : IdentifierError → Checked A

abbrev pub is_between : ℕ → ℕ → ℕ → Bool
is_between low high c = leb low c && leb c high

-- [A-Za-z0-9]
unfoldable pub is_alphanumeric : ℕ → Bool
is_alphanumeric c = is_between 65 90 c || (is_between 97 122 c || is_between 48 57 c)

-- [A-Za-z0-9_-]
unfoldable pub is_id_character : ℕ → Bool
unfolding is_alphanumeric
is_id_character c = is_alphanumeric c || (nat_eq c 95 || nat_eq c 45)

-- STATION_ID_PATTERN.fullmatch
unfoldable pub matches_pattern : List ℕ → Bool
unfolding is_id_character
matches_pattern [] = false
matches_pattern (c ∷ cs) =
    is_alphanumeric c && (not (anyb (λ x. not (is_id_character x)) cs) && leb (length cs) 126)

-- The tests of `validate_station_id`, of the stripped text.
unfoldable pub check_id : List ℕ → Checked (List ℕ)
unfolding matches_pattern
check_id [] = err empty_id
check_id (c ∷ cs) =
    if ltb max_message_group_id_length (length (c ∷ cs))
    then err too_long
    else if matches_pattern (c ∷ cs)
    then ok (c ∷ cs)
    else err bad_character

module _ (is_space : ℕ → Bool) where
  -- `validate_station_id`
  unfoldable pub validate_station_id : List ℕ → Checked (List ℕ)
  unfolding check_id
  validate_station_id value = check_id (strip is_space value)

  module _ (hash : List ℕ → ℕ) where
    abbrev pub shard_of : ℕ → Checked (List ℕ) → Checked ℕ
    shard_of shard_count (err e) = err e
    shard_of shard_count (ok id) = ok (hash id % shard_count)

    -- `stable_shard_index`
    unfoldable pub stable_shard_index : List ℕ → ℕ → Checked ℕ
    unfolding validate_station_id
    stable_shard_index station_id shard_count =
        if ltb shard_count 1
        then err no_shards
        else shard_of shard_count (validate_station_id station_id)

    abbrev pub is_index : ℕ → Checked ℕ → Checked Bool
    is_index i (err e) = err e
    is_index i (ok j) = ok (nat_eq j i)

    -- `owns_station`
    unfoldable pub owns_station : List ℕ → ℕ → ℕ → Checked Bool
    unfolding stable_shard_index
    owns_station station_id shard_count shard_index =
        if leb shard_count shard_index
        then err bad_index
        else is_index shard_index (stable_shard_index station_id shard_count)

    -- Of a station with a valid id exactly one shard is the owner: there is an index below the
    -- number of shards that owns it, and every index below it answers whether it is that one.
    pub owns_station_unique :
        (station_id id : List ℕ) (shard_count : ℕ)
        → 0 < shard_count
        → validate_station_id station_id ≡ ok id
        → (owner : ℕ) × (owner < shard_count)
          × ((i : ℕ)
              → i < shard_count
              → owns_station station_id shard_count i ≡ ok (nat_eq owner i))
    unfolding owns_station
    owns_station_unique station_id id shard_count some_ valid = (
      hash id % shard_count,
      mod-lt (hash id) some_,
      λ i lt.
          let e : leb shard_count i ≡ false = ground arith in
          let k : ltb shard_count 1 ≡ false = ground arith in rw (e, k, valid) refl,
    )
