-- ===== src/Inbox/Durable.antt =====
-- A message is acknowledged only when the inbox has settled it, and is handled once.
use radio_broadcast_analysis.Prelude.{
  ℕ, String, Bool, true, false, ◌||◌, Option, none, some, ◌≡◌, refl, inl, inr, arith, nat_Eq,
  string_Eq, eq_iff, Bool-cases, List, [], ◌∷◌, ◌∙◌,
}
use radio_broadcast_analysis.Prelude.Dict.{get, get-put}
use radio_broadcast_analysis.Queue.{
  ReceivedMessage, handle_Eq, Handle, MemoryQueue, extend_visibility,
}
use radio_broadcast_analysis.Queue.Handles.{extend_visibility-contains}
use radio_broadcast_analysis.Inbox.{
  Inbox, InboxStatus, InboxRow, already_processed, record_failed, failed_row, row_is_processed,
  List, contains, ap, ◌∷◌, ltb,
}
use radio_broadcast_analysis.Inbox.Failures.{is_retryable, code_of, PipelineError}
use radio_broadcast_analysis.Inbox.Processor.{
  Attempt, raised, crashed, decided, MessageProcessor, World, Turn, record_failure, Verdict,
  retried, conclude, Handler, code_or, keep_invisible, process_one, duplicate, acknowledge,
}

-- The handler says that the message is done with.
abbrev pub is_claimed : Attempt → Bool
is_claimed (decided outcome) = outcome.duplicate || outcome.handled
is_claimed _ = false

-- The contract of `poll_once`: a handler that says so has committed the inbox row.
abbrev pub IsDurable : Handler → Type 0
IsDurable handler =
    (m : ReceivedMessage) (inbox : Inbox)
    → is_claimed (handler m inbox).0 ≡ true
    → already_processed (handler m inbox).1 m.deduplication_id ≡ true

abbrev is_final : InboxStatus → Bool
is_final InboxStatus.processing = false
is_final _ = true

abbrev row_is_final : Option InboxRow → Bool
row_is_final none = false
row_is_final (some r) = is_final r.status

-- The inbox has the message as processed or failed.
abbrev pub is_settled : Inbox → String → Bool
is_settled inbox id = row_is_final (get inbox id)

abbrev pub is_retried : Verdict → Bool
is_retried retried = true
is_retried _ = false

processed-is_settled :
    (row : Option InboxRow) → row_is_processed row ≡ true → row_is_final row ≡ true
processed-is_settled none h = absurd (cc)
processed-is_settled (some r) h = ground arith

failed_row-is_final :
    (m : ReceivedMessage) (code : String) (now : ℕ) (row : Option InboxRow)
    → is_final (failed_row m code now row).status ≡ true
failed_row-is_final m code now none = refl
failed_row-is_final m code now (some r) = refl

record_failed-is_settled :
    (inbox : Inbox) (m : ReceivedMessage) (code : String) (now : ℕ)
    → is_settled (record_failed inbox m code now) m.deduplication_id ≡ true
unfolding record_failed
record_failed-is_settled inbox m code now =
    rw
      (
        get-put inbox m.deduplication_id m.deduplication_id
            (failed_row m code now (get inbox m.deduplication_id)),
        (eq_iff m.deduplication_id m.deduplication_id).1 refl,
      )
      (failed_row-is_final m code now (get inbox m.deduplication_id))

module _ (p : MessageProcessor) (turn : Turn) (m : ReceivedMessage) where
  record_failure-keeps :
      (e : PipelineError) (w : World)
      → ((record_failure p turn m e w).queue ≡ w.queue)
        × ((record_failure p turn m e w).inbox ≡ w.inbox)
  unfolding record_failure
  record_failure-keeps e w = ground arith

  conclude-settles :
      (w : World) (attempt : Attempt)
      → (is_claimed attempt ≡ true → already_processed w.inbox m.deduplication_id ≡ true)
      → let (verdict, w') = conclude p turn m w attempt in
        (is_retried verdict ≡ false → is_settled w'.inbox m.deduplication_id ≡ true)
        × (is_retried verdict ≡ true → w'.queue ≡ w.queue)
  unfolding conclude already_processed
  conclude-settles w (raised e) done = elim (Bool-cases (is_retryable e.error_class)) [
    | inl again ↦ rw (again) (λ h. absurd (cc), λ h. (record_failure-keeps e w).0)
    | inr never ↦
        rw (never)
          (λ h. record_failed-is_settled _ m (code_of e.error_class) turn.at, λ h. absurd (cc))
  ]
  conclude-settles w (crashed message detail) done =
      (λ h. absurd (cc), λ h. (record_failure-keeps _ w).0)
  conclude-settles w (decided outcome) done = elim (Bool-cases outcome.duplicate) [
    | inl twice ↦ rw (twice) (
      λ h. processed-is_settled (get w.inbox m.deduplication_id) (done (rw (twice) refl)),
      λ h. absurd (cc),
    )
    | inr new ↦ elim (Bool-cases outcome.handled) [
      | inl handled ↦
          rw (new, handled)
            (
              λ h.
                  processed-is_settled (get w.inbox m.deduplication_id)
                    (done (rw (new, handled) refl)),
              λ h. absurd (cc),
            )
      | inr unhandled ↦ elim (Bool-cases outcome.retryable) [
        | inl again ↦ rw (new, unhandled, again) (λ h. absurd (cc), λ h. refl)
        | inr never ↦
            rw (new, unhandled, never)
              (
                λ h.
                    record_failed-is_settled w.inbox m
                      (code_or outcome.error_code "handler_rejected") turn.at,
                λ h. absurd (cc),
              )
      ]
    ]
  ]

keep_invisible-contains :
    (visibility deadline : ℕ) (handle : Handle) (beats : List ℕ) (q : MemoryQueue) (k : Handle)
    → contains (keep_invisible visibility deadline handle beats q).in_flight k
      ≡ contains q.in_flight k
unfolding keep_invisible
keep_invisible-contains visibility deadline handle [] q k = refl
keep_invisible-contains visibility deadline handle (now ∷ beats) q k =
    elim (Bool-cases (ltb deadline now)) [
      | inl over ↦ rw (over) refl
      | inr going ↦ rw (going) (
          keep_invisible-contains visibility deadline handle beats
            (extend_visibility q now handle visibility) k
          ∙ extend_visibility-contains q now handle visibility k)
    ]

-- With a handler that commits the inbox row before it says that a message is done with: after any
-- turn that ends otherwise than with a retry, the inbox has the message as processed or failed;
-- and after a retry, whatever the heartbeat did, the same receipt handles are in flight.
pub process_one_lem :
    (p : MessageProcessor) (handler : Handler) (turn : Turn) (m : ReceivedMessage) (w : World)
    → IsDurable handler
    → let (verdict, w') = process_one p handler turn m w in
      (is_retried verdict ≡ false → is_settled w'.inbox m.deduplication_id ≡ true)
      × ((k : Handle)
          → is_retried verdict ≡ true
          → contains w'.queue.in_flight k ≡ contains w.queue.in_flight k)
unfolding process_one already_processed
process_one_lem p handler turn m w durable =
    elim (Bool-cases (already_processed w.inbox m.deduplication_id)) [
      | inl known ↦
          rw (known)
            (λ h. processed-is_settled (get w.inbox m.deduplication_id) known, λ k h. absurd (cc))
      | inr new ↦
          let queue =
            keep_invisible p.visibility_seconds turn.deadline m.receipt_handle turn.beats w.queue in
          let answer = handler m w.inbox in
          let c =
            conclude-settles p turn m (record w { queue = queue; inbox = answer.1 }) answer.0
              (durable m w.inbox) in
          rw (new) (
            c.0,
            λ k h.
                ap (λ q. contains q.in_flight k) (c.1 h)
                ∙ keep_invisible-contains p.visibility_seconds turn.deadline m.receipt_handle
                    turn.beats w.queue k,
          )
    ]

abbrev pub is_done : Verdict → Bool
is_done Verdict.processed = true
is_done duplicate = true
is_done _ = false

conclude-done :
    (p : MessageProcessor) (turn : Turn) (m : ReceivedMessage) (w : World) (attempt : Attempt)
    → (is_claimed attempt ≡ true → already_processed w.inbox m.deduplication_id ≡ true)
    → is_done (conclude p turn m w attempt).0 ≡ true
    → already_processed (conclude p turn m w attempt).1.inbox m.deduplication_id ≡ true
unfolding conclude
conclude-done p turn m w (raised e) done h = absurd (ground (arith, h))
conclude-done p turn m w (crashed message detail) done h = absurd (cc)
conclude-done p turn m w (decided outcome) done h = ground (arith, done, h)

pub process_one-known :
    (p : MessageProcessor) (handler : Handler) (turn : Turn) (m : ReceivedMessage) (w : World)
    → already_processed w.inbox m.deduplication_id ≡ true
    → process_one p handler turn m w ≡ (duplicate, acknowledge m w)
unfolding process_one
process_one-known p handler turn m w known = rw (known) refl

pub process_one-done :
    (p : MessageProcessor) (handler : Handler) (turn : Turn) (m : ReceivedMessage) (w : World)
    → IsDurable handler
    → is_done (process_one p handler turn m w).0 ≡ true
    → already_processed (process_one p handler turn m w).1.inbox m.deduplication_id ≡ true
unfolding process_one
process_one-done p handler turn m w durable done =
    elim (Bool-cases (already_processed w.inbox m.deduplication_id)) [
      | inl known ↦ rw (known) known
      | inr new ↦
          let answer = handler m w.inbox in
          rw (new) (
            conclude-done p turn m
              (record w {
                queue =
                    keep_invisible p.visibility_seconds turn.deadline m.receipt_handle turn.beats
                      w.queue;
                inbox = answer.1;
              })
              answer.0 (durable m w.inbox) (rw (new) at done))
    ]
