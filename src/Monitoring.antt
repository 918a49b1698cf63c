-- ===== src/Monitoring.antt =====
-- app/db_catalog.py and app/services/monitoring.py: the managed stations, the references of
-- campaigns to them, and the jobs that start and stop them. Times are counts of microseconds,
-- compared as their texts are.
pub mod Stopping
pub mod Jobs
mod Tests
use radio_broadcast_analysis.Outbox.{iso_leb}
use radio_broadcast_analysis.Prelude.{
  ℕ, suc, ◌+◌, String, Bool, true, false, not, ◌&&◌, ◌||◌, Option, none, some, List, [], ◌∷◌, ◌++◌,
  map, if◌then◌else◌, ltb, nat_eq, member, filterb, count, nat_Eq, string_Eq, str_eq,
}
use radio_broadcast_analysis.Prelude.Sort.{sort_by}

-- The columns of `managed_stations` that the lifecycle reads and writes.
pub record ManagedStation : Type 0 where
  pub id : ℕ
  pub desired_state : String
  pub actual_state : String
  pub legacy_pinned : Bool
  pub active_campaign_count : ℕ
  pub stop_after : Option ℕ
  pub updated_at : ℕ

pub record StationJob : Type 0 where
  pub id : ℕ
  pub managed_station_id : ℕ
  pub action : String
  pub status : String
  pub attempts : ℕ
  pub last_error : Option String
  pub created_at : ℕ
  pub updated_at : ℕ

-- `members` is campaign_station_members, `active_campaigns` the campaigns with status 'active'.
pub record Store : Type 0 where
  pub stations : List ManagedStation
  pub jobs : List StationJob
  pub last_job : ℕ
  pub members : List (String × ℕ)
  pub active_campaigns : List String

abbrev pub is_unfinished : StationJob → Bool
is_unfinished j = str_eq j.status "pending" || str_eq j.status "running"

abbrev pub first_id : List StationJob → Option ℕ
first_id [] = none
first_id (j ∷ jobs) = some j.id

-- `enqueue_job`
unfoldable pub enqueue_job : ℕ → ℕ → String → Store → ℕ × Store
enqueue_job now station action db =
    elim (first_id (
      filterb
        (λ j. (nat_eq j.managed_station_id station && str_eq j.action action) && is_unfinished j)
        db.jobs)) [
          | some id ↦ (id, db)
          | none ↦ (
            suc db.last_job,
            record db {
              last_job = suc db.last_job;
              jobs =
                  db.jobs
                  ++ record {
                    id = suc db.last_job;
                    managed_station_id = station;
                    action = action;
                    status = "pending";
                    attempts = 0;
                    last_error = none;
                    created_at = now;
                    updated_at = now;
                  }
                    ∷ [];
            },
          )
        ]

abbrev pub change_job : ℕ → (StationJob → StationJob) → List StationJob → List StationJob
change_job id f jobs = map (λ j. if nat_eq j.id id then f j else j) jobs

abbrev pub first_job : List StationJob → Option StationJob
first_job [] = none
first_job (j ∷ jobs) = some j

-- `claim_next_job`
unfoldable pub claim_next_job : ℕ → Store → Option StationJob × Store
claim_next_job now db =
    let next = first_job (
      sort_by (λ a b. iso_leb a.created_at b.created_at)
        (filterb (λ j. str_eq j.status "pending") db.jobs)) in
    if ltb 0 (count (λ j. str_eq j.status "running") db.jobs) then (none, db) else elim next [
      | none ↦ (none, db)
      | some row ↦
          let run : StationJob → StationJob =
            λ j. record j { status = "running"; attempts = suc j.attempts; updated_at = now } in
          (some (run row), record db { jobs = change_job row.id run db.jobs })
    ]

-- `finish_job`
unfoldable pub finish_job : ℕ → ℕ → String → Option String → Store → Store
finish_job now id status error db = record db {
  jobs =
      change_job id (λ j. record j { status = status; last_error = error; updated_at = now })
        db.jobs;
}

-- The subquery `refs` of `recompute_reference_counts`
unfoldable pub references : Store → ℕ → ℕ
references db station = count (λ m. nat_eq m.1 station && member db.active_campaigns m.0) db.members

abbrev pub is_unset : Option ℕ → Bool
is_unset none = true
is_unset (some at) = false

abbrev pub set_count : ℕ → ℕ → ManagedStation → ManagedStation
set_count now refs r =
    if nat_eq refs r.active_campaign_count
    then r
    else record r { active_campaign_count = refs; updated_at = now }

-- The stop timer is armed.
abbrev pub arms : ManagedStation → Bool
arms r = is_unset r.stop_after && (ltb 0 r.active_campaign_count || str_eq r.desired_state "active")

abbrev pub arm : ℕ → ℕ → ManagedStation → ManagedStation → ManagedStation
arm now grace old r =
    if arms old then record r { stop_after = some (now + grace); updated_at = now } else r

abbrev pub disarm : ℕ → ManagedStation → ManagedStation → ManagedStation
disarm now old r =
    if is_unset old.stop_after then r else record r { stop_after = none; updated_at = now }

abbrev pub revive : ℕ → ManagedStation → ManagedStation → ManagedStation
revive now old r =
    if str_eq old.actual_state "stopped" && not old.legacy_pinned
    then record r { desired_state = "active"; actual_state = "pending_capacity"; updated_at = now }
    else r

-- One turn of the loop of `recompute_reference_counts`, on the row as it was read.
unfoldable pub recount : ℕ → ℕ → ℕ → ManagedStation → ManagedStation
recount now grace refs r =
    let counted = set_count now refs r in
    if nat_eq refs 0 && not r.legacy_pinned
    then arm now grace r counted
    else if ltb 0 refs
    then revive now r (disarm now r counted)
    else counted

-- `recompute_reference_counts`, and the ids that it returns
unfoldable pub recompute_reference_counts : ℕ → ℕ → Store → List ℕ × Store
unfolding recount references
recompute_reference_counts now grace db =
    let dropped : ManagedStation → Bool =
      λ r. (nat_eq (references db r.id) 0 && not r.legacy_pinned) && arms r in
    (
      map (λ r. r.id) (filterb dropped db.stations),
      record db { stations = map (λ r. recount now grace (references db r.id) r) db.stations },
    )

abbrev pub may_stop : String → Bool
may_stop state =
    member ("active" ∷ "degraded" ∷ "activating" ∷ "pending_capacity" ∷ "pending_probe" ∷ []) state

abbrev pub is_due_for_stop : ℕ → ManagedStation → Bool
is_due_for_stop now r = elim r.stop_after [
  | none ↦ false
  | some at ↦ (iso_leb at now && not r.legacy_pinned) && may_stop r.actual_state
]

-- `stations_due_for_stop`
unfoldable pub stations_due_for_stop : ℕ → Store → List ManagedStation
stations_due_for_stop now db = filterb (is_due_for_stop now) db.stations

abbrev pub change_station : ℕ → (ManagedStation → ManagedStation) → Store → Store
change_station id f db = record db {
  stations = map (λ r. if nat_eq r.id id then f r else r) db.stations;
}

-- One turn of the loop of `on_campaign_status_change`
unfoldable pub stop_station : ℕ → ManagedStation → Store → Store
unfolding enqueue_job
stop_station now r db =
    if str_eq r.actual_state "pending_capacity" || str_eq r.actual_state "pending_probe"
    then change_station r.id
        (λ x. record x {
          desired_state = "stopped";
          actual_state = "stopped";
          stop_after = none;
          updated_at = now;
        })
        db
    else (enqueue_job now r.id "stop"
        (change_station r.id (λ x. record x { desired_state = "stopped"; updated_at = now }) db)).1

unfoldable pub stop_all : ℕ → List ManagedStation → Store → Store
unfolding stop_station
stop_all now [] db = db
stop_all now (r ∷ due) db = stop_all now due (stop_station now r db)

-- `on_campaign_status_change`
unfoldable pub on_campaign_status_change : ℕ → ℕ → Store → Store
unfolding recompute_reference_counts stations_due_for_stop stop_all
on_campaign_status_change now grace db =
    let counted = (recompute_reference_counts now grace db).1 in
    stop_all now (stations_due_for_stop now counted) counted
