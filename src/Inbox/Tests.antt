-- ===== src/Inbox/Tests.antt =====
-- The message processor on a concrete message.
use radio_broadcast_analysis.Prelude.{
  true, false, Option, none, some, [], ◌∷◌, ◌≡◌, refl, ap, ◌∙◌, ◌==◌, nat_Eq, string_Eq, eq_iff,
  if_cases,
}
use radio_broadcast_analysis.Prelude.Dict.{get, contains, get-put}
use radio_broadcast_analysis.Queue.{ReceivedMessage, Handle, handle_Eq, init, send}
use radio_broadcast_analysis.Inbox.{
  InboxRow, already_processed, record_processed, processed_row, row_is_processed,
}
use radio_broadcast_analysis.Inbox.Processor.{
  decided, MessageProcessor, World, Turn, duplicate, Handler, process_one, conclude, acknowledge,
}
use radio_broadcast_analysis.Inbox.Redelivery.{IsKeeping, polls, process_one-redelivered}
use radio_broadcast_analysis.Inbox.Durable.{
  IsDurable, is_retried, is_settled, is_done, process_one_lem,
}

abbrev processor : MessageProcessor
processor = record {
  component = "transcriber";
  queue_name = "asr.fifo";
  visibility_seconds = 300;
  max_messages = 5;
}

abbrev turn : Turn
turn = record { beats = 60 ∷ 120 ∷ []; deadline = 1800; at = 200000000; is_writable = true }

abbrev message : ReceivedMessage
message = record {
  message_id = 1;
  receipt_handle = record { message = 1; receive = 1 };
  body = "segment";
  group_id = "kexp";
  deduplication_id = "d1";
  receive_count = 1;
}

abbrev world : World
world = record { queue = init 300 300; inbox = []; failures = [] }

-- A handler that commits the inbox row and then says that the message is handled.
abbrev committing : Handler
committing m inbox = (
  decided (record {
    handled = true;
    result_reference = none;
    duplicate = false;
    error_code = none;
    retryable = false;
  }),
  record_processed inbox m none none 200000000,
)

processed_row-is_processed :
    (m : ReceivedMessage) (row : Option InboxRow)
    → row_is_processed (some (processed_row m none none 200000000 row)) ≡ true
processed_row-is_processed m none = refl
processed_row-is_processed m (some r) = refl

committing-IsDurable : IsDurable committing
unfolding already_processed record_processed
committing-IsDurable m inbox claimed =
    rw
      (
        get-put inbox m.deduplication_id m.deduplication_id
            (processed_row m none none 200000000 (get inbox m.deduplication_id)),
        (eq_iff m.deduplication_id m.deduplication_id).1 refl,
      )
      (processed_row-is_processed m (get inbox m.deduplication_id))

process_one_lem_example :
    let (verdict, w') = process_one processor committing turn message world in
    (is_retried verdict ≡ false → is_settled w'.inbox "d1" ≡ true)
    × ((k : Handle)
        → is_retried verdict ≡ true
        → contains w'.queue.in_flight k ≡ contains world.queue.in_flight k)
process_one_lem_example =
    process_one_lem processor committing turn message world committing-IsDurable

handled : is_done (process_one processor committing turn message world).0 ≡ true
unfolding process_one already_processed get conclude
handled = refl

-- The same queue with one message in it.
abbrev sent_world : World
sent_world = record world { queue = (send (init 300 300) 5 "segment" "kexp" "d1").1 }

committing-IsKeeping : IsKeeping committing
unfolding already_processed record_processed
committing-IsKeeping m inbox id known =
    let row = processed_row m none none 200000000 (get inbox m.deduplication_id) in
    ap row_is_processed (get-put inbox m.deduplication_id id row)
    ∙ if_cases (λ (r : Option InboxRow). row_is_processed r ≡ true) (m.deduplication_id == id)
        (some row) (get inbox id) (λ _. processed_row-is_processed m (get inbox m.deduplication_id))
        (λ _. known)

process_one-redelivered_example :
    let w₁ =
      polls processor committing
        (λ m. turn)
        ((10, sent_world.queue) ∷ [])
        (process_one processor committing turn message world).1 in
    process_one processor committing turn message w₁ ≡ (duplicate, acknowledge message w₁)
process_one-redelivered_example =
    process_one-redelivered processor committing committing turn turn (λ m. turn)
      ((10, sent_world.queue) ∷ []) message message world committing-IsDurable committing-IsKeeping
      handled refl
