-- ===== src/Shards/Tests.antt =====
-- The shards of a concrete station.
use radio_broadcast_analysis.Prelude.{
  ℕ, ◌<◌, Bool, List, [], ◌∷◌, ◌≡◌, refl, arith, nat_eq, length, nat_Eq, string_Eq,
}
use radio_broadcast_analysis.Conversation.Text.{strip, lstrip, rstrip}
use radio_broadcast_analysis.Shards.{
  ok, err, bad_character, check_id, matches_pattern, is_id_character, is_alphanumeric,
  validate_station_id, owns_station, owns_station_unique,
}

abbrev is_blank : ℕ → Bool
is_blank c = nat_eq c 32

-- "kexp "
abbrev typed : List ℕ
typed = 107 ∷ 101 ∷ 120 ∷ 112 ∷ 32 ∷ []

abbrev kexp : List ℕ
kexp = 107 ∷ 101 ∷ 120 ∷ 112 ∷ []

typed_valid : validate_station_id is_blank typed ≡ ok kexp
unfolding validate_station_id strip lstrip rstrip check_id matches_pattern is_id_character
    is_alphanumeric
typed_valid = refl

-- "../x"
escape_refused : validate_station_id is_blank (46 ∷ 46 ∷ 47 ∷ 120 ∷ []) ≡ err bad_character
unfolding validate_station_id strip lstrip rstrip check_id matches_pattern is_id_character
    is_alphanumeric
escape_refused = refl

owns_station_unique_example :
    (owner : ℕ) × (owner < 4)
    × ((i : ℕ) → i < 4 → owns_station is_blank length typed 4 i ≡ ok (nat_eq owner i))
owns_station_unique_example =
    owns_station_unique is_blank length typed kexp 4 (omega arith) typed_valid
