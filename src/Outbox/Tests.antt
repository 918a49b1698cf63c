-- ===== src/Outbox/Tests.antt =====
-- The outbox on concrete rows, and its theorems at them.
use radio_broadcast_analysis.Prelude.{
  ◌+◌, ◌*◌, true, false, not, ◌&&◌, none, [], ◌∷◌, ◌≡◌, refl, arith, if◌then◌else◌, leb, nat_eq,
  anyb, All, nat_Eq, string_Eq,
}
use radio_broadcast_analysis.Outbox.{
  Outbox, iso_leb, iso, enqueue, new_row, is_message, reclaim_stale_leases,
}
use radio_broadcast_analysis.Outbox.Dispatch.{
  OutboxEvent, Dispatcher, Answer, delivered, claim_batch,
}
use radio_broadcast_analysis.Outbox.Claims.{has_event}
use radio_broadcast_analysis.Outbox.Exclusive.{claim_batch-exclusive}
use radio_broadcast_analysis.Outbox.Rows.{enqueue_again}
use radio_broadcast_analysis.Outbox.Stamps.{iso_leb-second}

abbrev one : Outbox
one = record {
  rows = new_row 5000000 "e1" "asr.fifo" "kexp" "d1" (1 ∷ []) none ∷ [];
  failures = [];
}

abbrev dispatcher : Dispatcher
dispatcher = record { batch_size = 25; max_attempts = 10; lease = 120000000 }

abbrev accepted : OutboxEvent → Answer
accepted e = record { reply = delivered "m1"; at = 7000000; jitter = λ base. base }

-- "2024-02-29T12:34:56.000789Z" and "2000-12-31T00:00:00Z"
leap_day :
    iso 63844806896000789
    ≡ 50 ∷ 48 ∷ 50 ∷ 52 ∷ 45 ∷ 48 ∷ 50 ∷ 45 ∷ 50 ∷ 57 ∷ 84 ∷ 49 ∷ 50 ∷ 58 ∷ 51 ∷ 52 ∷ 58 ∷ 53 ∷ 54
      ∷ 46 ∷ 48 ∷ 48 ∷ 48 ∷ 55 ∷ 56 ∷ 57 ∷ 90 ∷ []
unfolding iso
leap_day = refl

last_day :
    iso 63113817600000000
    ≡ 50 ∷ 48 ∷ 48 ∷ 48 ∷ 45 ∷ 49 ∷ 50 ∷ 45 ∷ 51 ∷ 49 ∷ 84 ∷ 48 ∷ 48 ∷ 58 ∷ 48 ∷ 48 ∷ 58 ∷ 48 ∷ 48
      ∷ 90 ∷ []
unfolding iso
last_day = refl

-- A time in the second that an event becomes due.
not_yet_due : iso_leb 5000000 5500000 ≡ false
unfolding iso_leb
not_yet_due = refl

iso_leb-second_example :
    iso_leb (5 * 1000000 + 0) (5 * 1000000 + 500000)
    ≡ (if nat_eq 500000 0 then true else not (nat_eq 0 0) && leb 0 500000)
iso_leb-second_example = iso_leb-second 5 0 500000 (omega arith) (omega arith)

lasting : iso_leb (6000000 + 120000000) 7000000 ≡ false
unfolding iso_leb
lasting = refl

claim_batch-exclusive_example :
    let (events, claimed) = claim_batch dispatcher 6000000 one in
    All
      (λ e. has_event e.event_id events ≡ false)
      (claim_batch dispatcher 8000000 (reclaim_stale_leases 7000000 claimed).1).0
claim_batch-exclusive_example =
    claim_batch-exclusive dispatcher dispatcher 6000000 7000000 8000000 one (λ k. ground arith)
      lasting

enqueue_again_example :
    let box' = enqueue one 6000000 "e2" "asr.fifo" "kexp" "d2" (2 ∷ []) none in
    (anyb (is_message "asr.fifo" "d2") box'.rows ≡ true)
    × (enqueue box' 9000000 "e3" "asr.fifo" "kexp" "d2" (3 ∷ []) none ≡ box')
enqueue_again_example =
    enqueue_again one 6000000 9000000 "e2" "e3" "asr.fifo" "kexp" "kexp" "d2" (2 ∷ []) (3 ∷ []) none
      none
