-- ===== src/Planner/Cycle.antt =====
-- The steps of `plan_once`.
use radio_broadcast_analysis.Prelude.{
  ℕ, suc, ◌+◌, ◌-◌, String, Bool, true, false, not, ◌&&◌, ◌||◌, Option, none, some, List, [], ◌∷◌,
  ◌++◌, map, if◌then◌else◌, ltb, leb, nat_eq, length, filterb, anyb, count, nat_Eq, string_Eq,
  str_eq,
}
use radio_broadcast_analysis.Prelude.Dict.{Dict, get, contains}
use radio_broadcast_analysis.Prelude.Sort.{sort_by}
use radio_broadcast_analysis.Prelude.Text.{codes, text_leb}
use radio_broadcast_analysis.KeywordIndex.{count_distinct}
use radio_broadcast_analysis.Shards.{Checked, ok, err, stable_shard_index}
use radio_broadcast_analysis.Planner.{
  State, is_active, Subscription, IndexVersion, Binding, Database, PlannerSettings, Resolver,
  PlanResult, Table, update_row, upsert_row, revived, new_row, count_again, reuse, resolved,
  unresolved, armed, released, pooled,
}

abbrev pub is_stopped : State → Bool
is_stopped State.stopped = true
is_stopped _ = false

abbrev pub is_pending : State → Bool
is_pending State.pending_capacity = true
is_pending _ = false

abbrev pub keys {ℓ} : {V : Type ℓ} → Dict String V → List String
keys d = map (λ slot. slot.0) d

-- len({binding["campaign_id"] for binding in bindings})
abbrev pub references : {B : Type 0} → List (Binding B) → ℕ
references bindings = count_distinct (map (λ b. b.campaign_id) bindings)

abbrev pub bindings_of : {B : Type 0} → Option (List (Binding B)) → List (Binding B)
bindings_of none = []
bindings_of (some bindings) = bindings

-- The shard of a station. Its id has passed validate_station_id, and the settings ask for at least
-- one shard, so there is no error.
abbrev pub shard_or : Checked ℕ → ℕ
shard_or (ok i) = i
shard_or (err e) = 0

-- The latest version of a station's index.
abbrev pub later : IndexVersion → Option IndexVersion → Option IndexVersion
later v none = some v
later v (some w) = if ltb v.version w.version then some w else some v

unfoldable pub latest : List IndexVersion → String → Option IndexVersion
latest [] id = none
latest (v ∷ versions) id =
    let rest = latest versions id in if str_eq v.station_id id then later v rest else rest

abbrev pub publish_version : ℕ → IndexVersion → Database → Database
publish_version now v db = record {
  subscriptions =
      update_row db.subscriptions v.station_id
        (λ r. record r { keyword_index_version = v.version; updated_at = now });
  versions = db.versions ++ (v ∷ []);
}

-- `_publish_indexes`, of one station: a version only when the fingerprint changes.
abbrev pub publish_one : ℕ → String → String → Option IndexVersion → Database → ℕ × Database
publish_one now id fingerprint none db =
    (1, publish_version now (record { station_id = id; version = 1; fingerprint = fingerprint }) db)
publish_one now id fingerprint (some v) db = if str_eq fingerprint v.fingerprint then (0, db) else (
  1,
  publish_version now
      (record { station_id = id; version = suc v.version; fingerprint = fingerprint }) db,
)

-- `_normalize_rotation_pool`
abbrev pub pool : ℕ → Table → Table
pool now t = map (λ (id, r). (id, pooled now r)) t

module _ {B : Type 0} (fingerprint_of : String → List (Binding B) → String) where
  -- `_publish_indexes`
  unfoldable pub publish_indexes :
      ℕ → Dict String (List (Binding B)) → List String → Database → ℕ × Database
  publish_indexes now desired [] db = (0, db)
  publish_indexes now desired (id ∷ ids) db =
      let (one, db1) =
        publish_one now id (fingerprint_of id (bindings_of (get desired id)))
          (latest db.versions id) db in
      let (rest, db2) = publish_indexes now desired ids db1 in (one + rest, db2)

module _ (is_space : ℕ → Bool) (hash : List ℕ → ℕ) (settings : PlannerSettings) where
  abbrev pub shard_index_of : String → ℕ
  shard_index_of id = shard_or (stable_shard_index is_space hash (codes id) settings.shard_count)

  -- str(url or "").strip()
  abbrev pub has_text : Option String → Bool
  has_text none = false
  has_text (some url) = anyb (λ c. not (is_space c)) (codes url)

  -- The stations whose stream URL is not looked up: those with one, and those that back off.
  abbrev pub needs_no_url : ℕ → Option Subscription → Bool
  needs_no_url now none = false
  needs_no_url now (some r) =
      has_text r.stream_url || elim r.stream_url_retry_after [ none ↦ false | some at ↦ ltb now at ]

  -- What `_fill_stream_url` writes for the answer of the resolver, whose url may be empty.
  abbrev pub write_url : Resolver → String → ℕ → Option String → Subscription → Subscription
  write_url resolver id now none r = unresolved (now + settings.url_retry_seconds) now r
  write_url resolver id now (some url) r =
      if str_eq url ""
      then unresolved (now + settings.url_retry_seconds) now r
      else resolved url (resolver.metadata id) now r

  -- `_fill_stream_url`
  unfoldable pub fill_stream_url :
      Option Resolver → String → Option Subscription → ℕ → Table → Bool × Table
  fill_stream_url none id row now t = (false, t)
  fill_stream_url (some resolver) id row now t =
      if needs_no_url now row
      then (false, t)
      else (true, update_row t id (write_url resolver id now (resolver.resolve id)))

  -- The row of a desired station, created or reused; `row` is the one it had before the cycle.
  unfoldable pub write_row : String → ℕ → ℕ → Option Subscription → Table → Table
  write_row id n now none t =
      let shard = shard_index_of id in
      upsert_row t id (new_row n shard now) (count_again n shard now) (get t id)
  write_row id n now (some r) t =
      update_row t id (reuse (revived r.state r.state_reason) n (shard_index_of id) now)

  abbrev pub is_new : Option Subscription → ℕ
  is_new none = 1
  is_new (some r) = 0

  -- The loop of `_upsert_subscriptions`, with the budget of lookups.
  unfoldable pub upsert_all :
      {B : Type 0}
      → Option Resolver
      → Dict String (List (Binding B))
      → Table
      → ℕ
      → List String
      → ℕ
      → Table
      → ℕ × Table
  unfolding fill_stream_url write_row
  upsert_all resolver desired existing now [] budget t = (0, t)
  upsert_all resolver desired existing now (id ∷ ids) budget t =
      let row = get existing id in
      let t1 = write_row id (references (bindings_of (get desired id))) now row t in
      let (spent, t2) =
        if ltb 0 budget then fill_stream_url resolver id row now t1 else (false, t1) in
      let (created, t3) =
        upsert_all resolver desired existing now ids (if spent then budget - 1 else budget) t2 in
      (created + is_new row, t3)

  -- What `_wind_down_unreferenced` does to a station that no campaign refers to.
  unfoldable pub wind_down : String → ℕ → Subscription → Table → (ℕ × ℕ) × Table
  wind_down id now r t = elim r.winddown_after [
    | none ↦ ((1, 0), update_row t id (armed (now + settings.winddown_grace_seconds) now))
    | some deadline ↦
        if leb deadline now then ((0, 1), update_row t id (released now)) else ((0, 0), t)
  ]

  -- `_wind_down_unreferenced`
  unfoldable pub wind_down_all :
      {B : Type 0}
      → Dict String (List (Binding B))
      → ℕ
      → List (String × Subscription)
      → Table
      → (ℕ × ℕ) × Table
  unfolding wind_down
  wind_down_all desired now [] t = ((0, 0), t)
  wind_down_all desired now ((id, r) ∷ rows) t =
      let (done, t1) =
        if contains desired id || is_stopped r.state then ((0, 0), t) else wind_down id now r t in
      let (rest, t2) = wind_down_all desired now rows t1 in ((done.0 + rest.0, done.1 + rest.1), t2)

  module _ {B : Type 0} (fingerprint_of : String → List (Binding B) → String) where
    -- `plan_once`
    unfoldable pub plan_once :
        Option Resolver → Dict String (List (Binding B)) → ℕ → Database → PlanResult × Database
    unfolding upsert_all wind_down_all publish_indexes
    plan_once resolver desired now db =
        let existing = db.subscriptions in
        let ids = sort_by text_leb (keys desired) in
        let (created, t1) =
          upsert_all resolver desired existing now ids settings.url_resolve_per_cycle existing in
        let ((winding, stopped), t2) = wind_down_all desired now existing t1 in
        let (published, db3) =
          publish_indexes fingerprint_of now desired ids (record db { subscriptions = t2 }) in
        let t4 = pool now db3.subscriptions in
        (
          record {
            unique_requested = length desired;
            unique_active = count (λ (_, r). is_active r.state) t4;
            pending_capacity = count (λ (_, r). is_pending r.state) t4;
            created_subscriptions = created;
            reused_subscriptions = length desired - created;
            winding_down = winding;
            stopped = stopped;
            index_versions_published = published;
            reused_station_streams = count (λ (_, bindings). ltb 1 (references bindings)) desired;
          },
          record db3 { subscriptions = t4 },
        )

-- The states of the rotation pool.
abbrev pub is_assignable : State → Bool
is_assignable State.winding_down = false
is_assignable State.stopped = false
is_assignable _ = true

-- `assigned_stations`, by their ids
unfoldable pub assigned_stations : ℕ → Table → List String
assigned_stations shard t =
    sort_by text_leb
      (keys (filterb (λ (_, r). nat_eq r.shard_index shard && is_assignable r.state) t))
