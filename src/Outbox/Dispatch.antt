-- ===== src/Outbox/Dispatch.antt =====
-- `OutboxDispatcher.dispatch_once`: claim a batch, send each event, record each outcome. Each
-- transaction is one step; what a queue and the clock answer is given by the event.
use radio_broadcast_analysis.Prelude.{
  ℕ, suc, ◌+◌, String, Bool, ◌&&◌, Option, none, some, List, [], ◌∷◌, ◌++◌, map, if◌then◌else◌, leb,
  nat_eq, length, take, filterb, nat_Eq, string_Eq,
}
use radio_broadcast_analysis.Prelude.Sort.{sort_by}
use radio_broadcast_analysis.Outbox.{
  Status, Row, Failure, Outbox, update, iso_leb, backoff_delay, status_eq, reclaim_stale_leases,
}

pub record OutboxEvent : Type 0 where
  pub event_id : String
  pub queue_name : String
  pub message_group_id : String
  pub message_deduplication_id : String
  pub payload : List ℕ
  pub attempts : ℕ
  pub trace_id : Option String

pub record Dispatcher : Type 0 where
  pub batch_size : ℕ
  pub max_attempts : ℕ
  pub lease : ℕ

-- What `self._queues` does with an event: no queue of that name, a message id, or an exception
-- with its detail.
pub data Reply : Type 0 where
  unconfigured : List ℕ → Reply
  delivered : String → Reply
  raised : List ℕ → Reply

-- A reply, the clock when it is recorded, and the jitter that is drawn.
pub record Answer : Type 0 where
  pub reply : Reply
  pub at : ℕ
  pub jitter : ℕ → ℕ

pub record Stats : Type 0 where
  pub claimed : ℕ
  pub sent : ℕ
  pub retried : ℕ
  pub failed : ℕ
  pub skipped : ℕ

abbrev pub to_event : Row → OutboxEvent
to_event r = record {
  event_id = r.event_id;
  queue_name = r.queue_name;
  message_group_id = r.message_group_id;
  message_deduplication_id = r.message_deduplication_id;
  payload = r.payload;
  attempts = r.attempts;
  trace_id = r.trace_id;
}

abbrev pub is_due : ℕ → Row → Bool
is_due now r = status_eq r.status Status.pending && iso_leb r.available_at now

-- ORDER BY available_at_utc, created_at_utc
abbrev pub due_before : Row → Row → Bool
due_before a b =
    if nat_eq a.available_at b.available_at
    then iso_leb a.created_at b.created_at
    else iso_leb a.available_at b.available_at

-- The rows that the SELECT of `_claim_batch` returns.
unfoldable pub due_rows : Dispatcher → ℕ → List Row → List Row
due_rows d now rows = take d.batch_size (sort_by due_before (filterb (is_due now) rows))

-- UPDATE ... SET status='sending' ... AND status='pending'
abbrev pub leased : Dispatcher → ℕ → Row → Row
leased d now r =
    if status_eq r.status Status.pending
    then record r {
      status = Status.sending;
      lease_expires_at = some (now + d.lease);
      updated_at = now;
    }
    else r

unfoldable pub lease_all : Dispatcher → ℕ → List Row → List Row → List Row
lease_all d now [] rows = rows
lease_all d now (c ∷ chosen) rows = lease_all d now chosen (update c.event_id (leased d now) rows)

-- `_claim_batch`
unfoldable pub claim_batch : Dispatcher → ℕ → Outbox → List OutboxEvent × Outbox
unfolding due_rows lease_all
claim_batch d now box =
    let chosen = due_rows d now box.rows in
    (map to_event chosen, record box { rows = lease_all d now chosen box.rows })

-- `_mark_sent`
abbrev pub marked_sent : ℕ → String → Row → Row
marked_sent now message_id r = record r {
  status = Status.sent;
  sqs_message_id = some message_id;
  sent_at = some now;
  lease_expires_at = none;
  last_error = none;
  updated_at = now;
}

-- `_schedule_retry`, of an event with this many attempts before
abbrev pub scheduled : ℕ → (ℕ → ℕ) → ℕ → List ℕ → Row → Row
scheduled now jitter attempts detail r = record r {
  status = Status.pending;
  attempts = suc r.attempts;
  available_at = now + backoff_delay attempts jitter;
  lease_expires_at = none;
  last_error = some (take 500 detail);
  updated_at = now;
}

-- `_release`
abbrev pub released : ℕ → (ℕ → ℕ) → List ℕ → Row → Row
released now jitter error r = record r {
  status = Status.pending;
  available_at = now + backoff_delay 0 jitter;
  lease_expires_at = none;
  last_error = some (take 500 error);
  updated_at = now;
}

-- The UPDATE of `_mark_failed`
abbrev pub abandoned : ℕ → List ℕ → Row → Row
abandoned now detail r = record r {
  status = Status.failed;
  attempts = suc r.attempts;
  lease_expires_at = none;
  last_error = some (take 500 detail);
  updated_at = now;
}

-- The INSERT of `_mark_failed`
abbrev pub failure_of : Dispatcher → ℕ → OutboxEvent → List ℕ → Failure
failure_of d now e detail = record {
  queue_name = e.queue_name;
  message_deduplication_id = e.message_deduplication_id;
  max_attempts = d.max_attempts;
  detail = take 800 detail;
  payload_preview = take 400 e.payload;
  trace_id = e.trace_id;
  created_at = now;
}

-- The change of the row that one turn of the loop of `dispatch_once` writes.
abbrev pub answered : Dispatcher → OutboxEvent → ℕ → (ℕ → ℕ) → Reply → Row → Row
answered d e at jitter (unconfigured error) r = released at jitter error r
answered d e at jitter (delivered id) r = marked_sent at id r
answered d e at jitter (raised detail) r =
    if leb d.max_attempts (suc e.attempts)
    then abandoned at detail r
    else scheduled at jitter e.attempts detail r

unfoldable pub outcome : Dispatcher → OutboxEvent → Answer → Row → Row
outcome d e answer r = answered d e answer.at answer.jitter answer.reply r

-- The failure that it records.
abbrev pub reported : Dispatcher → OutboxEvent → ℕ → Reply → List Failure
reported d e at (raised detail) =
    if leb d.max_attempts (suc e.attempts) then failure_of d at e detail ∷ [] else []
reported d e at _ = []

unfoldable pub failures_of : Dispatcher → OutboxEvent → Answer → List Failure
failures_of d e answer = reported d e answer.at answer.reply

unfoldable pub counted : Dispatcher → OutboxEvent → Reply → Stats → Stats
counted d e (unconfigured error) stats = record stats { skipped = suc stats.skipped }
counted d e (delivered id) stats = record stats { sent = suc stats.sent }
counted d e (raised detail) stats =
    if leb d.max_attempts (suc e.attempts)
    then record stats { failed = suc stats.failed }
    else record stats { retried = suc stats.retried }

-- The loop of `dispatch_once`
unfoldable pub send_all :
    Dispatcher → (OutboxEvent → Answer) → List OutboxEvent → Stats → Outbox → Stats × Outbox
unfolding outcome failures_of counted
send_all d answer [] stats box = (stats, box)
send_all d answer (e ∷ events) stats box =
    send_all d answer events (counted d e (answer e).reply stats) (record {
      rows = update e.event_id (outcome d e (answer e)) box.rows;
      failures = box.failures ++ failures_of d e (answer e);
    })

-- `dispatch_once`: the clock reads `reclaim_at`, then `claim_at`.
unfoldable pub dispatch_once : Dispatcher → (OutboxEvent → Answer) → ℕ → ℕ → Outbox → Stats × Outbox
unfolding send_all
dispatch_once d answer reclaim_at claim_at box =
    let (n, live) = reclaim_stale_leases reclaim_at box in
    let (events, claimed) = claim_batch d claim_at live in
    send_all d answer events
      (record { claimed = length events; sent = 0; retried = 0; failed = 0; skipped = 0 }) claimed
