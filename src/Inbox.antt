-- ===== src/Inbox.antt =====
-- app/pipeline/idempotency.py and app/pipeline/errors.py: the inbox of one queue. A time is a
-- count of microseconds.
pub mod Failures
pub mod Processor
pub mod Durable
pub mod Redelivery
mod Tests
use radio_broadcast_analysis.Prelude.{
  ℕ, zero, suc, ◌+◌, ◌-◌, ◌*◌, ◌/◌, ◌%◌, ◌≤◌, ◌<◌, min, max, String, Bool, true, false, not, ◌&&◌,
  ◌||◌, Option, none, some, List, [], ◌∷◌, ◌++◌, map, ◌≡◌, ◌≢◌, ◌↔◌, ◌⊎◌, refl, sym, ap, ◌∙◌, subst,
  inl, inr, arith, Eq, ◌==◌, if◌then◌else◌, ltb, leb, nat_eq, nat_eq_iff, length, take, drop,
  replicate, last?, get_elem?, member, filterb, anyb, count, All, All-append, All-filterb, All-imp,
  All-zip, All-map, count-append, count-filterb-split, length-append, length-map, length-replicate,
  length-take, length-drop, length-filterb-le, nat_Eq, string_Eq, eq_iff, str_eq, Bool-cases,
  Option-cases, append-nil, append_assoc,
}
use radio_broadcast_analysis.Prelude.Dict.{Dict, get, put, contains}
use radio_broadcast_analysis.Outbox.{iso_leb}
use radio_broadcast_analysis.Queue.{ReceivedMessage}

-- InboxStatus of app/pipeline/enums.py
pub data InboxStatus : Type 0 where
  processing processed failed : InboxStatus

abbrev pub is_processed : InboxStatus → Bool
is_processed InboxStatus.processed = true
is_processed _ = false

-- A row of `inbox_messages`; its key is the deduplication id.
pub record InboxRow : Type 0 where
  pub message_id : ℕ
  pub status : InboxStatus
  pub result_reference : Option String
  pub error_code : Option String
  pub receive_count : ℕ
  pub trace_id : Option String
  pub first_seen_at : ℕ
  pub processed_at : Option ℕ

abbrev pub Inbox : Type 0
Inbox = Dict String InboxRow

abbrev pub row_is_processed : Option InboxRow → Bool
row_is_processed none = false
row_is_processed (some r) = is_processed r.status

-- `already_processed`
unfoldable pub already_processed : Inbox → String → Bool
already_processed inbox id = row_is_processed (get inbox id)

-- The row that `record_processed` writes: the INSERT, or the SET of its conflict clause.
abbrev pub processed_row :
    ReceivedMessage → Option String → Option String → ℕ → Option InboxRow → InboxRow
processed_row m result_reference trace_id now none = record {
  message_id = m.message_id;
  status = InboxStatus.processed;
  result_reference = result_reference;
  error_code = none;
  receive_count = m.receive_count;
  trace_id = trace_id;
  first_seen_at = now;
  processed_at = some now;
}
processed_row m result_reference trace_id now (some r) = record r {
  status = InboxStatus.processed;
  result_reference = result_reference;
  receive_count = m.receive_count;
  processed_at = some now;
}

-- `record_processed`
unfoldable pub record_processed :
    Inbox → ReceivedMessage → Option String → Option String → ℕ → Inbox
record_processed inbox m result_reference trace_id now =
    put inbox m.deduplication_id
      (processed_row m result_reference trace_id now (get inbox m.deduplication_id))

abbrev pub failed_row : ReceivedMessage → String → ℕ → Option InboxRow → InboxRow
failed_row m error_code now none = record {
  message_id = m.message_id;
  status = InboxStatus.failed;
  result_reference = none;
  error_code = some error_code;
  receive_count = m.receive_count;
  trace_id = none;
  first_seen_at = now;
  processed_at = some now;
}
failed_row m error_code now (some r) = record r {
  status = InboxStatus.failed;
  error_code = some error_code;
  receive_count = m.receive_count;
  processed_at = some now;
}

-- `record_failed`, without a trace id, as the processor calls it
unfoldable pub record_failed : Inbox → ReceivedMessage → String → ℕ → Inbox
record_failed inbox m error_code now =
    put inbox m.deduplication_id (failed_row m error_code now (get inbox m.deduplication_id))

abbrev pub is_older : ℕ → String × InboxRow → Bool
is_older cutoff slot = elim slot.1.processed_at [ none ↦ false | some at ↦ not (iso_leb cutoff at) ]

-- `InboxGuard.prune`
unfoldable pub prune_inbox : ℕ → ℕ → Inbox → ℕ × Inbox
prune_inbox retention_days now inbox =
    let old = is_older (now - retention_days * 86400000000) in
    (count old inbox, filterb (λ slot. not (old slot)) inbox)
