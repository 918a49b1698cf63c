-- ===== src/Outbox.antt =====
-- app/pipeline/outbox.py: the rows of `outbox_events` and what each statement does to them. A
-- datetime is a count of microseconds from the beginning of the year 1; a stored timestamp is the
-- datetime that its text names, and is compared as the texts are.
pub mod Dispatch
pub mod Stamps
pub mod Settled
pub mod Claims
pub mod Unique
pub mod Fates
pub mod Cycle
pub mod Exclusive
pub mod Rows
mod Tests
use radio_broadcast_analysis.Prelude.{
  ℕ, zero, suc, ◌+◌, ◌-◌, ◌*◌, ◌/◌, ◌%◌, ◌≤◌, ◌<◌, min, max, String, Bool, true, false, not, ◌&&◌,
  ◌||◌, Option, none, some, List, [], ◌∷◌, ◌++◌, map, ◌≡◌, ◌≢◌, ◌↔◌, ◌⊎◌, refl, sym, ap, ◌∙◌, subst,
  inl, inr, arith, Eq, ◌==◌, if◌then◌else◌, ltb, leb, nat_eq, nat_eq_iff, length, take, drop,
  replicate, last?, get_elem?, member, filterb, anyb, count, All, All-append, All-filterb, All-imp,
  All-zip, All-map, count-append, count-filterb-split, length-append, length-map, length-replicate,
  length-take, length-drop, length-filterb-le, nat_Eq, string_Eq, eq_iff, str_eq, Bool-cases,
  Option-cases, append-nil, append_assoc,
}
use radio_broadcast_analysis.Prelude.Sort.{sort_by}
use radio_broadcast_analysis.Prelude.Text.{codes_leb}
use radio_broadcast_analysis.Prelude.IsoFormat.{isoformat}

-- OutboxStatus of app/pipeline/enums.py
pub data Status : Type 0 where
  pending sending sent failed : Status

abbrev pub status_eq : Status → Status → Bool
status_eq Status.pending Status.pending = true
status_eq Status.sending Status.sending = true
status_eq Status.sent Status.sent = true
status_eq Status.failed Status.failed = true
status_eq _ _ = false

-- `_iso`: the zone "+00:00" is written as "Z".
unfoldable pub iso : ℕ → List ℕ
unfolding isoformat
iso t = isoformat t (90 ∷ [])

-- a <= b of two stored timestamps, by their code points
unfoldable pub iso_leb : ℕ → ℕ → Bool
unfolding iso
iso_leb a b = codes_leb (iso a) (iso b)

-- _BACKOFF_SECONDS
abbrev pub backoff_seconds : List ℕ
backoff_seconds = 2 ∷ 5 ∷ 15 ∷ 30 ∷ 60 ∷ 120 ∷ 300 ∷ 600 ∷ 900 ∷ 1800 ∷ []

abbrev pub or_zero : Option ℕ → ℕ
or_zero none = 0
or_zero (some n) = n

-- `backoff_delay`, in microseconds: `jitter` scales the base.
unfoldable pub backoff_delay : ℕ → (ℕ → ℕ) → ℕ
backoff_delay attempts jitter =
    jitter
      (or_zero (get_elem? backoff_seconds (min attempts (length backoff_seconds - 1))) * 1000000)

-- A row of `outbox_events`
pub record Row : Type 0 where
  pub event_id : String
  pub queue_name : String
  pub message_group_id : String
  pub message_deduplication_id : String
  pub payload : List ℕ
  pub status : Status
  pub attempts : ℕ
  pub available_at : ℕ
  pub lease_expires_at : Option ℕ
  pub sqs_message_id : Option String
  pub sent_at : Option ℕ
  pub last_error : Option (List ℕ)
  pub trace_id : Option String
  pub created_at : ℕ
  pub updated_at : ℕ

-- A row of `processing_failures` that the dispatcher writes; its message names `max_attempts`.
pub record Failure : Type 0 where
  pub queue_name : String
  pub message_deduplication_id : String
  pub max_attempts : ℕ
  pub detail : List ℕ
  pub payload_preview : List ℕ
  pub trace_id : Option String
  pub created_at : ℕ

pub record Outbox : Type 0 where
  pub rows : List Row
  pub failures : List Failure

abbrev pub is_message : String → String → Row → Bool
is_message queue_name id r = str_eq r.queue_name queue_name && str_eq r.message_deduplication_id id

-- The row that the INSERT of `enqueue` gives.
abbrev pub new_row : ℕ → String → String → String → String → List ℕ → Option String → Row
new_row now event_id queue_name group_id deduplication_id payload trace_id = record {
  event_id = event_id;
  queue_name = queue_name;
  message_group_id = group_id;
  message_deduplication_id = deduplication_id;
  payload = payload;
  status = Status.pending;
  attempts = 0;
  available_at = now;
  lease_expires_at = none;
  sqs_message_id = none;
  sent_at = none;
  last_error = none;
  trace_id = trace_id;
  created_at = now;
  updated_at = now;
}

-- `enqueue`: ON CONFLICT(queue_name, message_deduplication_id) DO NOTHING
unfoldable pub enqueue :
    Outbox → ℕ → String → String → String → String → List ℕ → Option String → Outbox
enqueue box now event_id queue_name group_id deduplication_id payload trace_id =
    if anyb (is_message queue_name deduplication_id) box.rows then box else record box {
      rows =
          box.rows
          ++ new_row now event_id queue_name group_id deduplication_id payload trace_id ∷ [];
    }

-- UPDATE ... WHERE event_id = ?
unfoldable pub update : String → (Row → Row) → List Row → List Row
update id f [] = []
update id f (r ∷ rows) = (if str_eq r.event_id id then f r else r) ∷ update id f rows

abbrev pub is_stale : ℕ → Row → Bool
is_stale now r = elim r.lease_expires_at [
  | none ↦ false
  | some until ↦ status_eq r.status Status.sending && iso_leb until now
]

abbrev pub reclaimed : ℕ → Row → Row
reclaimed now r =
    if is_stale now r
    then record r { status = Status.pending; lease_expires_at = none; updated_at = now }
    else r

-- `reclaim_stale_leases`
unfoldable pub reclaim_stale_leases : ℕ → Outbox → ℕ × Outbox
reclaim_stale_leases now box =
    (count (is_stale now) box.rows, record box { rows = map (reclaimed now) box.rows })

-- `prune`
unfoldable pub prune : ℕ → ℕ → Outbox → ℕ × Outbox
prune retention_days now box =
    let old : Row → Bool = λ r.
      status_eq r.status Status.sent
      && not (iso_leb (now - retention_days * 86400000000) r.updated_at) in
    (count old box.rows, record box { rows = filterb (λ r. not (old r)) box.rows })
