-- ===== src/Queue/Tests.antt =====
-- The queue on concrete calls, and its theorems at them.
use radio_broadcast_analysis.Prelude.{
  ℕ, ◌≤◌, ◌<◌, List, [], ◌∷◌, map, ◌≡◌, ◌⊎◌, refl, arith, length, All, nat_Eq, string_Eq,
}
use radio_broadcast_analysis.Prelude.Dict.{get, contains, put}
use radio_broadcast_analysis.Queue.{
  MemoryQueue, dedup, init, send, receive, reclaim_expired, expire_dedup, new_entry, values, select,
  selection, deliver, take_out, put_all, remove, remove_all, sort_by_sequence, insert_by_sequence,
}
use radio_broadcast_analysis.Queue.Selection.{count_group}
use radio_broadcast_analysis.Queue.Invariant.{IsValid, held}
use radio_broadcast_analysis.Queue.Delivery.{receive_oldest, receive_serves}
use radio_broadcast_analysis.Queue.Dedup.{IsChronological}
use radio_broadcast_analysis.Queue.History.{
  Call, sends, receives, measures, step, run, run-init-IsValid, step-held, resend_dropped,
}

abbrev history : List (ℕ × Call)
history =
    (0, sends "a1" "station-a" "a-1")
    ∷ (1, sends "a2" "station-a" "a-2")
    ∷ (2, sends "b1" "station-b" "b-1")
    ∷ []

abbrev loaded : MemoryQueue
loaded = run (init 30 300) history

-- One message of each station, the oldest first.
bodies : map (λ m. m.body) (receive loaded 5 10).0 ≡ "a1" ∷ "b1" ∷ []
unfolding run step send expire_dedup new_entry contains put receive reclaim_expired selection select
    deliver sort_by_sequence insert_by_sequence take_out
bodies = refl

-- A lapsed message comes back under a second handle.
redelivered : map (λ m. m.receive_count) (receive (receive loaded 5 1).1 35 1).0 ≡ 2 ∷ []
unfolding run step send expire_dedup new_entry contains put receive reclaim_expired selection select
    deliver sort_by_sequence insert_by_sequence take_out put_all remove_all remove
redelivered = refl

run-init-IsValid_example : IsValid (run (init 30 300) history)
run-init-IsValid_example = run-init-IsValid 30 300 history

step-held_example : held 1 (step loaded (5, receives 10)) ≡ held 1 loaded
step-held_example =
    step-held loaded 5 1 (receives 10) (run-init-IsValid 30 300 history) in_range (λ d. d)
  where
    in_range : 1 ≤ loaded.sequence
    in_range = unfold run step send expire_dedup new_entry contains put in omega arith

receive_oldest_example :
    All
      (λ m.
        All
          (λ e. e.group_id ≡ m.group_id → m.message_id ≤ e.message_id)
          (reclaim_expired loaded 5).entries)
      (receive loaded 5 10).0
receive_oldest_example = receive_oldest loaded 5 10 (run-init-IsValid 30 300 history)

receive_serves_example :
    (length (receive loaded 5 10).0 ≡ 10)
    ⊎ All
        (λ e. 0 < count_group e.group_id (values (receive loaded 5 10).1.in_flight))
        (reclaim_expired loaded 5).entries
receive_serves_example = receive_serves loaded 5 10 (run-init-IsValid 30 300 history)

chronological : IsChronological 2 loaded.seen
unfolding run step send expire_dedup new_entry contains put
chronological = ground arith

resend_dropped_example :
    let later = run loaded ((5, receives 10) ∷ (200, measures) ∷ []) in
    (send later 200 "a1" "station-a" "a-1").0 ≡ dedup "a-1"
unfolding run step send expire_dedup new_entry contains put get
resend_dropped_example =
    (resend_dropped loaded 2 0 ((5, receives 10) ∷ (200, measures) ∷ []) "a1" "station-a" "a-1"
      chronological refl (omega arith) (omega arith)).0
