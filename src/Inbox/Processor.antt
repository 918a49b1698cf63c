-- ===== src/Inbox/Processor.antt =====
-- `MessageProcessor.poll_once` and the `VisibilityHeartbeat` that runs during the handler.
use radio_broadcast_analysis.Prelude.{
  ℕ, suc, String, Bool, Option, none, some, List, [], ◌∷◌, ◌++◌, if◌then◌else◌, ltb, length, take,
  nat_Eq, string_Eq, str_eq,
}
use radio_broadcast_analysis.Queue.{
  MemoryQueue, ReceivedMessage, Handle, receive, delete, extend_visibility,
}
use radio_broadcast_analysis.Inbox.{Inbox, already_processed, record_failed}
use radio_broadcast_analysis.Inbox.Failures.{
  ErrorClass, PipelineError, FailureRecord, is_retryable, as_failure_record, code_of,
}

pub record ProcessingOutcome : Type 0 where
  pub handled : Bool
  pub result_reference : Option String
  pub duplicate : Bool
  pub error_code : Option String
  pub retryable : Bool

-- What a handler does: it raises an error of the pipeline or another one, or decides.
pub data Attempt : Type 0 where
  raised : PipelineError → Attempt
  crashed : List ℕ → List ℕ → Attempt
  decided : ProcessingOutcome → Attempt

pub record MessageProcessor : Type 0 where
  pub component : String
  pub queue_name : String
  pub visibility_seconds : ℕ
  pub max_messages : ℕ

-- A row of `processing_failures` that the processor writes.
pub record FailureRow : Type 0 where
  pub component : String
  pub record_ : FailureRecord
  pub queue_name : String
  pub message_deduplication_id : String
  pub created_at : ℕ

pub record World : Type 0 where
  pub queue : MemoryQueue
  pub inbox : Inbox
  pub failures : List FailureRow

-- What one message meets: the times at which its heartbeat wakes and the deadline, both of the
-- monotonic clock, the clock when it is recorded, and whether the failure's INSERT succeeds.
pub record Turn : Type 0 where
  pub beats : List ℕ
  pub deadline : ℕ
  pub at : ℕ
  pub is_writable : Bool

-- The loop of `VisibilityHeartbeat._run`, until it is stopped: it ends at the first wake after the
-- deadline.
unfoldable pub keep_invisible : ℕ → ℕ → Handle → List ℕ → MemoryQueue → MemoryQueue
keep_invisible visibility deadline handle [] queue = queue
keep_invisible visibility deadline handle (now ∷ beats) queue =
    let extended =
      keep_invisible visibility deadline handle beats
        (extend_visibility queue now handle visibility) in
    if ltb deadline now then queue else extended

-- `_record_failure`: an exception of the database is suppressed.
unfoldable pub record_failure :
    MessageProcessor → Turn → ReceivedMessage → PipelineError → World → World
record_failure p turn m e w =
    if turn.is_writable
    then record w {
      failures =
          w.failures
          ++ record {
            component = p.component;
            record_ = as_failure_record e;
            queue_name = p.queue_name;
            message_deduplication_id = m.deduplication_id;
            created_at = turn.at;
          }
            ∷ [];
    }
    else w

pub data Verdict : Type 0 where
  processed duplicate retried failed : Verdict

abbrev pub acknowledge : ReceivedMessage → World → World
acknowledge m w = record w { queue = delete w.queue m.receipt_handle }

-- `inbox.record_failed`, and then the delete
abbrev pub reject : ReceivedMessage → String → ℕ → World → World
reject m error_code now w =
    acknowledge m (record w { inbox = record_failed w.inbox m error_code now })

abbrev pub code_or : Option String → String → String
code_or none default = default
code_or (some code) default = if str_eq code "" then default else code

-- What follows the handler in the loop of `poll_once`.
unfoldable pub conclude :
    MessageProcessor → Turn → ReceivedMessage → World → Attempt → Verdict × World
unfolding record_failure
conclude p turn m w (raised e) =
    let logged = record_failure p turn m e w in
    if is_retryable e.error_class
    then (retried, logged)
    else (failed, reject m (code_of e.error_class) turn.at logged)
conclude p turn m w (crashed message detail) = (
  retried,
  record_failure p turn m
      (record {
        error_class = ErrorClass.retryable;
        message = message;
        detail = some (take 800 detail);
      })
      w,
)
conclude p turn m w (decided outcome) =
    if outcome.duplicate
    then (duplicate, acknowledge m w)
    else if outcome.handled
    then (processed, acknowledge m w)
    else if outcome.retryable
    then (retried, w)
    else (failed, reject m (code_or outcome.error_code "handler_rejected") turn.at w)

-- The handler, which reads and writes the inbox in its own transaction.
abbrev pub Handler : Type 0
Handler = ReceivedMessage → Inbox → Attempt × Inbox

-- One turn of the loop of `poll_once`
unfoldable pub process_one :
    MessageProcessor → Handler → Turn → ReceivedMessage → World → Verdict × World
unfolding keep_invisible conclude
process_one p handler turn m w =
    if already_processed w.inbox m.deduplication_id
    then (duplicate, acknowledge m w)
    else (let (attempt, inbox) = handler m w.inbox in
        conclude p turn m
          (record w {
            queue =
                keep_invisible p.visibility_seconds turn.deadline m.receipt_handle turn.beats
                  w.queue;
            inbox = inbox;
          })
          attempt)

pub record Stats : Type 0 where
  pub received : ℕ
  pub processed_ : ℕ
  pub duplicate_ : ℕ
  pub retried_ : ℕ
  pub failed_ : ℕ

abbrev pub add_verdict : Verdict → Stats → Stats
add_verdict processed s = record s { processed_ = suc s.processed_ }
add_verdict duplicate s = record s { duplicate_ = suc s.duplicate_ }
add_verdict retried s = record s { retried_ = suc s.retried_ }
add_verdict failed s = record s { failed_ = suc s.failed_ }

-- The loop of `poll_once`, where no statement on the inbox raises an error of the database.
unfoldable pub process_all :
    MessageProcessor
    → Handler
    → (ReceivedMessage → Turn)
    → List ReceivedMessage
    → Stats
    → World
    → Stats × World
unfolding process_one
process_all p handler turn [] stats w = (stats, w)
process_all p handler turn (m ∷ messages) stats w =
    let (verdict, w₁) = process_one p handler (turn m) m w in
    process_all p handler turn messages (add_verdict verdict stats) w₁

-- `poll_once`, at a time of the monotonic clock
unfoldable pub poll_once :
    MessageProcessor → Handler → (ReceivedMessage → Turn) → ℕ → World → Stats × World
unfolding process_all
poll_once p handler turn now w =
    let (messages, queue) = receive w.queue now p.max_messages in
    process_all p handler turn messages
      (record {
        received = length messages;
        processed_ = 0;
        duplicate_ = 0;
        retried_ = 0;
        failed_ = 0;
      })
      (record w { queue = queue })
