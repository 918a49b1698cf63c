-- ===== src/Planner.antt =====
-- app/services/subscription_planner.py: the cycle that turns the campaigns into subscriptions. The table
-- station_subscriptions is a dictionary by its primary key; a time is a count of seconds. What the
-- resolver of stream URLs and the fingerprint of an index give are parameters.
pub mod Cycle
pub mod Rows
pub mod Written
pub mod Referenced
mod Tests
use radio_broadcast_analysis.Prelude.{
  ℕ, String, Bool, true, false, not, Option, none, some, List, if◌then◌else◌, nat_Eq, string_Eq,
  str_eq,
}
use radio_broadcast_analysis.Prelude.Dict.{Dict, get, put}

-- SubscriptionState of app/pipeline/enums.py
pub data State : Type 0 where
  desired pending_capacity starting active degraded winding_down stopped : State

-- ACTIVE_SUBSCRIPTION_STATES
abbrev pub is_active : State → Bool
is_active State.starting = true
is_active State.active = true
is_active State.degraded = true
is_active State.winding_down = true
is_active _ = false

-- What the planner reads and writes of a row of station_subscriptions.
pub record Subscription : Type 0 where
  pub reference_count : ℕ
  pub state : State
  pub state_reason : Option String
  pub shard_index : ℕ
  pub station_uuid : Option String
  pub country_code : Option String
  pub language_codes : Option String
  pub stream_url : Option String
  pub stream_url_retry_after : Option ℕ
  pub display_name : String
  pub last_error : Option String
  pub winddown_after : Option ℕ
  pub keyword_index_version : ℕ
  pub created_at : ℕ
  pub updated_at : ℕ

-- A row of station_keyword_index_versions.
pub record IndexVersion : Type 0 where
  pub station_id : String
  pub version : ℕ
  pub fingerprint : String

-- A keyword of a campaign, as far as the counting of references reads it; `content` is the rest.
pub record Binding (B : Type 0) : Type 0 where
  pub campaign_id : String
  pub content : B

pub record Database : Type 0 where
  pub subscriptions : Dict String Subscription
  pub versions : List IndexVersion

pub record PlannerSettings : Type 0 where
  pub shard_count : ℕ
  pub url_resolve_per_cycle : ℕ
  pub url_retry_seconds : ℕ
  pub winddown_grace_seconds : ℕ

-- What the resolver of stream URLs tells of a station.
pub record Metadata : Type 0 where
  pub display_name : String
  pub station_uuid : Option String
  pub country_code : Option String
  pub language_codes : Option String

pub record Resolver : Type 0 where
  pub resolve : String → Option String
  pub metadata : String → Metadata

-- `PlanResult`
pub record PlanResult : Type 0 where
  pub unique_requested : ℕ
  pub unique_active : ℕ
  pub pending_capacity : ℕ
  pub created_subscriptions : ℕ
  pub reused_subscriptions : ℕ
  pub winding_down : ℕ
  pub stopped : ℕ
  pub index_versions_published : ℕ
  pub reused_station_streams : ℕ

abbrev pub Table : Type 0
Table = Dict String Subscription

-- UPDATE station_subscriptions SET f WHERE station_id=?
abbrev pub set_row : Table → String → (Subscription → Subscription) → Option Subscription → Table
set_row t id f none = t
set_row t id f (some r) = put t id (f r)

abbrev pub update_row : Table → String → (Subscription → Subscription) → Table
update_row t id f = set_row t id f (get t id)

-- INSERT ... ON CONFLICT(station_id) DO UPDATE SET f
abbrev pub upsert_row :
    Table → String → Subscription → (Subscription → Subscription) → Option Subscription → Table
upsert_row t id row f none = put t id row
upsert_row t id row f (some r) = put t id (f r)

abbrev pub is_was_active : Option String → Bool
is_was_active none = false
is_was_active (some reason) = str_eq reason "was_active"

-- The state of a subscription whose station is referenced again, or still.
abbrev pub revived : State → Option String → State
revived State.stopped reason = State.desired
revived State.winding_down reason = if is_was_active reason then State.active else State.desired
revived state reason = state

abbrev pub or_else : Option String → Option String → Option String
or_else none b = b
or_else (some a) b = some a

abbrev pub new_row : ℕ → ℕ → ℕ → Subscription
new_row reference_count shard now = record {
  reference_count = reference_count;
  state = State.desired;
  state_reason = none;
  shard_index = shard;
  station_uuid = none;
  country_code = none;
  language_codes = none;
  stream_url = none;
  stream_url_retry_after = none;
  display_name = "";
  last_error = none;
  winddown_after = none;
  keyword_index_version = 0;
  created_at = now;
  updated_at = now;
}

abbrev pub count_again : ℕ → ℕ → ℕ → Subscription → Subscription
count_again reference_count shard now r = record r {
  reference_count = reference_count;
  shard_index = shard;
  updated_at = now;
}

abbrev pub reuse : State → ℕ → ℕ → ℕ → Subscription → Subscription
reuse state reference_count shard now r = record r {
  reference_count = reference_count;
  shard_index = shard;
  state = state;
  winddown_after = none;
  updated_at = now;
}

abbrev pub resolved : String → Metadata → ℕ → Subscription → Subscription
resolved url metadata now r = record r {
  stream_url = some url;
  station_uuid = metadata.station_uuid;
  display_name = if str_eq metadata.display_name "" then r.display_name else metadata.display_name;
  country_code = or_else metadata.country_code r.country_code;
  language_codes = or_else metadata.language_codes r.language_codes;
  stream_url_retry_after = none;
  last_error = none;
  updated_at = now;
}

abbrev pub unresolved : ℕ → ℕ → Subscription → Subscription
unresolved retry_at now r = record r {
  stream_url_retry_after = some retry_at;
  last_error = some "stream URL could not be resolved";
  updated_at = now;
}

abbrev pub armed : ℕ → ℕ → Subscription → Subscription
armed deadline now r = record r {
  state = State.winding_down;
  state_reason = some (if is_active r.state then "was_active" else "was_idle");
  winddown_after = some deadline;
  updated_at = now;
}

abbrev pub released : ℕ → Subscription → Subscription
released now r = record r {
  state = State.stopped;
  state_reason = some "unreferenced";
  winddown_after = none;
  reference_count = 0;
  updated_at = now;
}

-- `_normalize_rotation_pool`, of a row
abbrev pub pooled : ℕ → Subscription → Subscription
pooled now r = elim r.state [
  | State.desired ↦ record r {
    state = State.pending_capacity;
    state_reason = some "Waiting for a listening turn";
    updated_at = now;
  }
  | _ ↦ r
]
