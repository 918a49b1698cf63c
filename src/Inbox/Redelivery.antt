-- ===== src/Inbox/Redelivery.antt =====
-- What the cycles of `poll_once` do with a message that the inbox has as processed.
use radio_broadcast_analysis.Prelude.{
  ℕ, String, true, false, some, List, [], ◌∷◌, ◌≡◌, ap, ◌∙◌, inl, inr, arith, ◌==◌, if◌then◌else◌,
  nat_Eq, string_Eq, eq_iff, Bool-cases, if_both, if_cases,
}
use radio_broadcast_analysis.Prelude.Dict.{get, get-put}
use radio_broadcast_analysis.Queue.{ReceivedMessage, MemoryQueue, receive}
use radio_broadcast_analysis.Inbox.{
  Inbox, already_processed, record_failed, failed_row, row_is_processed,
}
use radio_broadcast_analysis.Inbox.Failures.{is_retryable, code_of, PipelineError}
use radio_broadcast_analysis.Inbox.Processor.{
  Verdict, Attempt, raised, crashed, decided, MessageProcessor, World, Turn, record_failure, Stats,
  reject, code_or, retried, conclude, Handler, keep_invisible, process_one, duplicate, acknowledge,
  process_all, poll_once, add_verdict,
}
use radio_broadcast_analysis.Inbox.Durable.{IsDurable, is_done, process_one-known, process_one-done}

-- A handler that leaves what is processed as processed.
abbrev pub IsKeeping : Handler → Type 0
IsKeeping handler =
    (m : ReceivedMessage) (inbox : Inbox) (id : String)
    → already_processed inbox id ≡ true
    → already_processed (handler m inbox).1 id ≡ true

-- Cycles of `poll_once`, each at a time and with the queue that it finds.
unfoldable pub polls :
    MessageProcessor → Handler → (ReceivedMessage → Turn) → List (ℕ × MemoryQueue) → World → World
polls p handler turn [] w = w
polls p handler turn ((now, queue) ∷ cycles) w =
    polls p handler turn cycles (poll_once p handler turn now (record w { queue = queue })).1

record_failed-other :
    (inbox : Inbox) (m : ReceivedMessage) (code : String) (now : ℕ) (id : String)
    → (m.deduplication_id == id) ≡ false
    → already_processed (record_failed inbox m code now) id ≡ already_processed inbox id
unfolding already_processed record_failed
record_failed-other inbox m code now id other =
    let row = failed_row m code now (get inbox m.deduplication_id) in
    ap row_is_processed (
      get-put inbox m.deduplication_id id row
      ∙ ap (λ b. if b then some row else get inbox id) other)

record_failure-inbox :
    (p : MessageProcessor) (turn : Turn) (m : ReceivedMessage) (e : PipelineError) (w : World)
    → (record_failure p turn m e w).inbox ≡ w.inbox
unfolding record_failure
record_failure-inbox p turn m e w = ground arith

conclude-keeps :
    (p : MessageProcessor) (turn : Turn) (m : ReceivedMessage) (w : World) (attempt : Attempt)
    (id : String)
    → (m.deduplication_id == id) ≡ false
    → already_processed w.inbox id ≡ true
    → already_processed (conclude p turn m w attempt).1.inbox id ≡ true
unfolding conclude
conclude-keeps p turn m w (raised e) id other known =
    let logged = record_failure p turn m e w in
    let same : already_processed logged.inbox id ≡ true =
      ap (λ b. already_processed b id) (record_failure-inbox p turn m e w) ∙ known in
    if_both (λ (r : Verdict × World). already_processed r.1.inbox id ≡ true)
      (is_retryable e.error_class) (retried, logged)
      (Verdict.failed, reject m (code_of e.error_class) turn.at logged) same
      (record_failed-other logged.inbox m (code_of e.error_class) turn.at id other ∙ same)
conclude-keeps p turn m w (crashed message detail) id other known =
    ap (λ b. already_processed b id) (record_failure-inbox p turn m _ w) ∙ known
conclude-keeps p turn m w (decided outcome) id other known =
    let P : Verdict × World → Type 0 = λ r. already_processed r.1.inbox id ≡ true in
    let rejected : Verdict × World =
      (Verdict.failed, reject m (code_or outcome.error_code "handler_rejected") turn.at w) in
    let after_failed : P rejected = record_failed-other w.inbox m _ turn.at id other ∙ known in
    let later : Verdict × World = if outcome.retryable then (retried, w) else rejected in
    let handled : Verdict × World =
      if outcome.handled then (Verdict.processed, acknowledge m w) else later in
    if_both P outcome.duplicate (duplicate, acknowledge m w) handled known
      (if_both P outcome.handled (Verdict.processed, acknowledge m w) later known
        (if_both P outcome.retryable (retried, w) rejected known after_failed))

different :
    (inbox : Inbox) (j id : String)
    → already_processed inbox j ≡ false
    → already_processed inbox id ≡ true
    → (j == id) ≡ false
different inbox j id new known = elim (Bool-cases (j == id)) [
  | inl e ↦
      let same : already_processed inbox j ≡ already_processed inbox id =
        ap (already_processed inbox) ((eq_iff j id).0 e) in
      absurd (cc (new, known, same))
  | inr n ↦ n
]

process_one-keeps :
    (p : MessageProcessor) (handler : Handler) (turn : Turn) (m : ReceivedMessage) (w : World)
    (id : String)
    → IsKeeping handler
    → already_processed w.inbox id ≡ true
    → already_processed (process_one p handler turn m w).1.inbox id ≡ true
unfolding process_one
process_one-keeps p handler turn m w id keeping known =
    let answer = handler m w.inbox in
    let w' = record w {
      queue = keep_invisible p.visibility_seconds turn.deadline m.receipt_handle turn.beats w.queue;
      inbox = answer.1;
    } in
    if_cases (λ (r : Verdict × World). already_processed r.1.inbox id ≡ true)
      (already_processed w.inbox m.deduplication_id) (duplicate, acknowledge m w)
      (conclude p turn m w' answer.0) (λ _. known)
      (λ new.
        let other = different w.inbox m.deduplication_id id new known in
        conclude-keeps p turn m w' answer.0 id other (keeping m w.inbox id known))

process_all-keeps :
    (p : MessageProcessor) (handler : Handler) (turn : ReceivedMessage → Turn)
    (messages : List ReceivedMessage) (stats : Stats) (w : World) (id : String)
    → IsKeeping handler
    → already_processed w.inbox id ≡ true
    → already_processed (process_all p handler turn messages stats w).1.inbox id ≡ true
unfolding process_all
process_all-keeps p handler turn [] stats w id keeping known = known
process_all-keeps p handler turn (m ∷ messages) stats w id keeping known =
    let one = process_one p handler (turn m) m w in
    process_all-keeps p handler turn messages (add_verdict one.0 stats) one.1 id keeping
      (process_one-keeps p handler (turn m) m w id keeping known)

polls-keeps :
    (p : MessageProcessor) (handler : Handler) (turn : ReceivedMessage → Turn)
    (cycles : List (ℕ × MemoryQueue)) (w : World) (id : String)
    → IsKeeping handler
    → already_processed w.inbox id ≡ true
    → already_processed (polls p handler turn cycles w).inbox id ≡ true
unfolding polls poll_once
polls-keeps p handler turn [] w id keeping known = known
polls-keeps p handler turn ((now, queue) ∷ cycles) w id keeping known =
    let w₁ = record w { queue = queue } in
    polls-keeps p handler turn cycles (poll_once p handler turn now w₁).1 id keeping (
      process_all-keeps p handler turn (receive queue now p.max_messages).0 _
        (record w₁ { queue = (receive queue now p.max_messages).1 }) id keeping known)

-- Once a turn with a durable handler has found a message processed, or processed it, and after any
-- number of cycles of `poll_once` whose handler leaves what is processed as processed, whatever
-- queue each of them finds: a message with the same deduplication id is only deleted. No handler
-- runs, and the inbox and the failures stay. The inbox is not pruned in between.
pub process_one-redelivered :
    (p : MessageProcessor) (handler again : Handler) (turn later : Turn)
    (turns : ReceivedMessage → Turn) (cycles : List (ℕ × MemoryQueue)) (m m' : ReceivedMessage)
    (w : World)
    → IsDurable handler
    → IsKeeping again
    → is_done (process_one p handler turn m w).0 ≡ true
    → m'.deduplication_id ≡ m.deduplication_id
    → let w₁ = polls p again turns cycles (process_one p handler turn m w).1 in
      process_one p again later m' w₁ ≡ (duplicate, acknowledge m' w₁)
process_one-redelivered p handler again turn later turns cycles m m' w durable keeping done same =
    let w₀ = (process_one p handler turn m w).1 in
    process_one-known p again later m' (polls p again turns cycles w₀) (
      ap (already_processed (polls p again turns cycles w₀).inbox) same
      ∙ polls-keeps p again turns cycles w₀ m.deduplication_id keeping
          (process_one-done p handler turn m w durable done))
