-- ===== src/Planner/Tests.antt =====
-- A cycle at concrete rows: one station is new, one comes back, one is not referred to.
use radio_broadcast_analysis.Prelude.{
  ℕ, String, Bool, true, none, some, List, [], ◌∷◌, ◌≡◌, refl, nat_eq, length, member, nat_Eq,
  string_Eq,
}
use radio_broadcast_analysis.Prelude.Dict.{Dict, get, contains}
use radio_broadcast_analysis.KeywordIndex.{count_distinct}
use radio_broadcast_analysis.Planner.{
  State, Subscription, Binding, Database, PlannerSettings, Resolver, new_row,
}
use radio_broadcast_analysis.Planner.Cycle.{shard_index_of, plan_once, assigned_stations}
use radio_broadcast_analysis.Planner.Rows.{HasRow, Serves, in_pool}
use radio_broadcast_analysis.Planner.Referenced.{plan_once-referenced}

abbrev settings : PlannerSettings
settings = record {
  shard_count = 2;
  url_resolve_per_cycle = 1;
  url_retry_seconds = 900;
  winddown_grace_seconds = 300;
}

abbrev resolver : Resolver
resolver = record {
  resolve = λ id. some "http://radio.example/live";
  metadata = λ id. record {
    display_name = id;
    station_uuid = none;
    country_code = none;
    language_codes = none;
  };
}

abbrev binding : String → Binding Unit
binding campaign = record { campaign_id = campaign; content = tt }

abbrev desired : Dict String (List (Binding Unit))
desired =
    ("jazz", binding "c1" ∷ binding "c2" ∷ binding "c1" ∷ []) ∷ ("news", binding "c1" ∷ []) ∷ []

abbrev winding : Subscription
winding = record (new_row 1 0 0) {
  state = State.winding_down;
  state_reason = some "was_active";
  winddown_after = some 500;
}

abbrev database : Database
database = record {
  subscriptions =
      ("jazz", winding) ∷ ("talk", record (new_row 1 1 0) { state = State.active }) ∷ [];
  versions = [];
}

abbrev is_space : ℕ → Bool
is_space c = nat_eq c 32

abbrev hash : List ℕ → ℕ
hash id = length id

abbrev after : Database
after = (plan_once is_space hash settings (λ _ _. "f") (some resolver) desired 1000 database).1

has_jazz : contains desired "jazz" ≡ true
unfolding contains
has_jazz = refl

plan_once-referenced_example :
    let shard = shard_index_of is_space hash settings "jazz" in
    HasRow (Serves in_pool 2 shard) "jazz" after.subscriptions
    × (member (assigned_stations shard after.subscriptions) "jazz" ≡ true)
unfolding count_distinct get
plan_once-referenced_example =
    plan_once-referenced is_space hash settings (λ _ _. "f") (some resolver) desired 1000 database
      "jazz" has_jazz
