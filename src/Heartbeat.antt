-- ===== src/Heartbeat.antt =====
-- app/pipeline/heartbeat.py: the rows of `worker_heartbeats`, and what health is read off them.
pub mod Coverage
pub mod Jobs
mod Tests
use radio_broadcast_analysis.Prelude.{
  ℕ, zero, suc, ◌+◌, ◌-◌, ◌*◌, max, String, Bool, true, false, not, ◌&&◌, ◌||◌, Option, none, some,
  List, [], ◌∷◌, map, if◌then◌else◌, ltb, leb, take, filterb, count, nat_Eq, string_Eq, str_eq,
}
use radio_broadcast_analysis.Prelude.Sort.{sort_by}
use radio_broadcast_analysis.Prelude.Dict.{Dict, get, put, contains}
use radio_broadcast_analysis.Prelude.Text.{text_leb}
use radio_broadcast_analysis.Outbox.{iso_leb, or_zero}

-- A row of `worker_heartbeats`; times in microseconds, the detail as its text.
pub record Worker : Type 0 where
  pub worker_id : String
  pub role : String
  pub shard_index : ℕ
  pub shard_count : ℕ
  pub status : String
  pub detail : List ℕ
  pub pipeline_mode : String
  pub started_at : ℕ
  pub last_seen : ℕ

-- `HeartbeatWriter`
pub record HeartbeatWriter : Type 0 where
  pub worker_id : String
  pub role : String
  pub shard_index : ℕ
  pub shard_count : ℕ
  pub pipeline_mode : String
  pub started_at : ℕ

abbrev pub beat_row : HeartbeatWriter → String → List ℕ → ℕ → Worker
beat_row h status detail now = record {
  worker_id = h.worker_id;
  role = h.role;
  shard_index = h.shard_index;
  shard_count = h.shard_count;
  status = status;
  detail = take 4000 detail;
  pipeline_mode = h.pipeline_mode;
  started_at = h.started_at;
  last_seen = now;
}

-- `beat`: ON CONFLICT(worker_id) DO UPDATE, which keeps the first started_at.
unfoldable pub beat : HeartbeatWriter → String → List ℕ → ℕ → List Worker → List Worker
beat h status detail now [] = beat_row h status detail now ∷ []
beat h status detail now (w ∷ workers) =
    if str_eq w.worker_id h.worker_id
    then record (beat_row h status detail now) { started_at = w.started_at } ∷ workers
    else w ∷ beat h status detail now workers

-- `stop`: the detail is the text of the reason.
unfoldable pub stop : HeartbeatWriter → List ℕ → ℕ → List Worker → List Worker
stop h detail now workers = beat h "stopped" detail now workers

-- `age > stale_after`
abbrev pub is_stale : ℕ → ℕ → Worker → Bool
is_stale stale_after now w = ltb (w.last_seen + stale_after) now

abbrev pub is_live : ℕ → ℕ → Worker → Bool
is_live stale_after now w = not (is_stale stale_after now w || str_eq w.status "stopped")

-- ORDER BY role, worker_id
abbrev pub worker_before : Worker → Worker → Bool
worker_before a b =
    if str_eq a.role b.role then text_leb a.worker_id b.worker_id else text_leb a.role b.role

pub record Bucket : Type 0 where
  pub all : ℕ
  pub live : ℕ
  pub stale : ℕ

abbrev pub bucket_of : Option Bucket → Bucket
bucket_of none = record { all = 0; live = 0; stale = 0 }
bucket_of (some b) = b

abbrev pub add_worker : Bool → Bucket → Bucket
add_worker live b =
    if live
    then record b { all = suc b.all; live = suc b.live }
    else record b { all = suc b.all; stale = suc b.stale }

-- The loop of `snapshot`, for `roles`.
unfoldable pub bucket_all : ℕ → ℕ → Dict String Bucket → List Worker → Dict String Bucket
bucket_all stale_after now roles [] = roles
bucket_all stale_after now roles (w ∷ workers) =
    bucket_all stale_after now
      (put roles w.role (add_worker (is_live stale_after now w) (bucket_of (get roles w.role))))
      workers

-- `snapshot`
unfoldable pub snapshot : ℕ → ℕ → List Worker → Dict String Bucket × List Worker
unfolding bucket_all
snapshot stale_after now rows =
    let workers = sort_by worker_before rows in (bucket_all stale_after now [] workers, workers)

pub data RoleStatus : Type 0 where
  absent live_role stale_role : RoleStatus

abbrev pub status_of : Option Bucket → RoleStatus
status_of none = absent
status_of (some b) = if ltb 0 b.live then live_role else stale_role

-- `role_status`
unfoldable pub role_status : ℕ → ℕ → String → List Worker → RoleStatus
unfolding snapshot
role_status stale_after now role rows = status_of (get (snapshot stale_after now rows).0 role)

-- The workers that `shard_coverage` looks at.
unfoldable pub holders : ℕ → ℕ → String → List Worker → List Worker
unfolding snapshot
holders stale_after now role rows =
    filterb (λ w. str_eq w.role role && is_live stale_after now w) (snapshot stale_after now rows).1

pub record ShardCoverage : Type 0 where
  pub expected : ℕ
  pub covered : List ℕ
  pub missing : List ℕ
  pub duplicated : List ℕ
  pub healthy : Bool

-- max(worker["shard_count"] for worker in workers)
unfoldable pub greatest_count : List Worker → ℕ
greatest_count [] = 0
greatest_count (w ∷ workers) = max w.shard_count (greatest_count workers)

unfoldable pub tally : Dict ℕ ℕ → List Worker → Dict ℕ ℕ
tally seen [] = seen
tally seen (w ∷ workers) =
    tally (put seen w.shard_index (or_zero (get seen w.shard_index) + 1)) workers

-- [index for index in range(n) if index not in seen], from the index on
unfoldable pub absent_from : Dict ℕ ℕ → ℕ → ℕ → List ℕ
absent_from seen index zero = []
absent_from seen index (suc n) =
    let rest = absent_from seen (suc index) n in if contains seen index then rest else index ∷ rest

abbrev pub is_none_left : List ℕ → Bool
is_none_left [] = true
is_none_left (x ∷ xs) = false

unfoldable pub coverage_of : List Worker → ShardCoverage
unfolding greatest_count tally absent_from
coverage_of [] = record {
  expected = 0;
  covered = [];
  missing = [];
  duplicated = [];
  healthy = false;
}
coverage_of (w ∷ ws) =
    let seen = tally [] (w ∷ ws) in
    let missing = absent_from seen 0 (greatest_count (w ∷ ws)) in
    let duplicated = sort_by leb (map (λ slot. slot.0) (filterb (λ slot. ltb 1 slot.1) seen)) in
    record {
      expected = greatest_count (w ∷ ws);
      covered = sort_by leb (map (λ slot. slot.0) seen);
      missing = missing;
      duplicated = duplicated;
      healthy = is_none_left missing && is_none_left duplicated;
    }

-- `shard_coverage`
unfoldable pub shard_coverage : ℕ → ℕ → String → List Worker → ShardCoverage
unfolding coverage_of holders
shard_coverage stale_after now role rows = coverage_of (holders stale_after now role rows)

-- `HeartbeatReader.prune`
unfoldable pub forget : ℕ → ℕ → List Worker → ℕ × List Worker
forget older_than_days now rows =
    let old : Worker → Bool =
      λ w. not (iso_leb (now - older_than_days * 86400000000) w.last_seen) in
    (count old rows, filterb (λ w. not (old w)) rows)
