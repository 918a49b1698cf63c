-- ===== src/Queue/History.antt =====
-- The queue under any history of calls: what holds after every one of them.
use radio_broadcast_analysis.Prelude.{
  ℕ, ◌+◌, ◌≤◌, ◌<◌, String, some, List, [], ◌∷◌, ◌≡◌, refl, ◌∙◌, arith, nat_Eq, string_Eq,
}
use radio_broadcast_analysis.Prelude.Dict.{get}
use radio_broadcast_analysis.Queue.{
  MemoryQueue, dedup, Handle, init, send, receive, delete, extend_visibility, approximate_depth,
  reclaim_expired, take_out,
}
use radio_broadcast_analysis.Queue.Invariant.{
  IsValid, IsValid-init, held, reclaim-IsValid, reclaim-held, send-IsValid, send-held,
  receive-IsValid, receive-held, delete-IsValid, extend_visibility-IsValid, extend_visibility-held,
}
use radio_broadcast_analysis.Queue.Dedup.{
  IsChronological, IsChronological-later, send-IsChronological, send_window, send_remembers,
}

pub data Call : Type 0 where
  sends : String → String → String → Call
  receives : ℕ → Call
  deletes : Handle → Call
  extends : Handle → ℕ → Call
  measures : Call

-- One call, with the clock's reading.
unfoldable pub step : MemoryQueue → ℕ × Call → MemoryQueue
step q (now, sends body group id) = (send q now body group id).1
step q (now, receives room) = (receive q now room).1
step q (now, deletes h) = delete q h
step q (now, extends h seconds) = extend_visibility q now h seconds
step q (now, measures) = (approximate_depth q now).1

unfoldable pub run : MemoryQueue → List (ℕ × Call) → MemoryQueue
run q [] = q
run q (c ∷ cs) = run (step q c) cs

step-IsValid : {q : MemoryQueue} (c : ℕ × Call) → IsValid q → IsValid (step q c)
unfolding step approximate_depth
step-IsValid (now, sends body group id) v = send-IsValid v now body group id
step-IsValid (now, receives room) v = receive-IsValid v now room
step-IsValid (now, deletes h) v = delete-IsValid v h
step-IsValid (now, extends h seconds) v = extend_visibility-IsValid v now seconds h
step-IsValid (now, measures) v = reclaim-IsValid v now

run-IsValid : (q : MemoryQueue) (cs : List (ℕ × Call)) → IsValid q → IsValid (run q cs)
unfolding run
run-IsValid q [] v = v
run-IsValid q (c ∷ cs) v = run-IsValid (step q c) cs (step-IsValid c v)

-- After any calls at any times a queue numbers each message once, holds it either among the
-- waiting entries without a handle or in flight under its own handle, and has at most one message
-- of each group in flight.
pub run-init-IsValid :
    (visibility window : ℕ) (cs : List (ℕ × Call)) → IsValid (run (init visibility window) cs)
run-init-IsValid visibility window cs =
    run-IsValid (init visibility window) cs (IsValid-init visibility window)

abbrev pub IsDelete : Call → Type 0
IsDelete (deletes h) = Unit
IsDelete _ = ⊥

-- In a well-formed queue, no call but `delete` loses or doubles a message that was sent: it is held,
-- waiting or in flight, as often after the call as before.
pub step-held :
    (q : MemoryQueue) (now s : ℕ) (c : Call)
    → IsValid q
    → s ≤ q.sequence
    → ¬ IsDelete c
    → held s (step q (now, c)) ≡ held s q
unfolding step approximate_depth
step-held q now s (sends body group id) v h d = send-held v now s body group id h
step-held q now s (receives room) v h d = receive-held v now room s
step-held q now s (deletes r) v h d = absurd (d tt)
step-held q now s (extends r seconds) v h d = extend_visibility-held v now seconds s r
step-held q now s measures v h d = reclaim-held v now s

-- The clock never goes back, from `now` on.
abbrev pub IsMonotone : ℕ → List (ℕ × Call) → Type 0
IsMonotone now [] = Unit
IsMonotone now ((at, c) ∷ cs) = (now ≤ at) × IsMonotone at cs

step-seen :
    (q : MemoryQueue) (now : ℕ) (c : Call)
    → IsChronological now q.seen
    → IsChronological now (step q (now, c)).seen
unfolding step receive take_out reclaim_expired delete extend_visibility approximate_depth
step-seen q now (sends body group id) c = send-IsChronological q now body group id c
step-seen q now (receives room) c = c
step-seen q now (deletes h) c = c
step-seen q now (extends h seconds) c = c
step-seen q now measures c = c

step_remembers :
    (q : MemoryQueue) (now t : ℕ) (c : Call) (id : String)
    → IsChronological now q.seen
    → get q.seen id ≡ some t
    → now < t + q.dedup_window
    → (get (step q (now, c)).seen id ≡ some t) × ((step q (now, c)).dedup_window ≡ q.dedup_window)
unfolding step receive take_out reclaim_expired delete extend_visibility approximate_depth
step_remembers q now t (sends body group j) id c g lt =
    (send_remembers q now t body group j id c g lt, unfold send in ground arith)
step_remembers q now t (receives room) id c g lt = (g, refl)
step_remembers q now t (deletes h) id c g lt = (g, refl)
step_remembers q now t (extends h seconds) id c g lt = (g, refl)
step_remembers q now t measures id c g lt = (g, refl)

-- The last reading of the clock.
abbrev pub clock_after : ℕ → List (ℕ × Call) → ℕ
clock_after now [] = now
clock_after now ((at, c) ∷ cs) = clock_after at cs

clock_after-le : (now : ℕ) (cs : List (ℕ × Call)) → IsMonotone now cs → now ≤ clock_after now cs
clock_after-le now [] m = omega arith
clock_after-le now ((at, c) ∷ cs) m = omega (arith, clock_after-le at cs m.1)

run_remembers :
    (q : MemoryQueue) (now t : ℕ) (cs : List (ℕ × Call)) (id : String)
    → IsChronological now q.seen
    → get q.seen id ≡ some t
    → IsMonotone now cs
    → clock_after now cs < t + q.dedup_window
    → (get (run q cs).seen id ≡ some t)
      × ((run q cs).dedup_window ≡ q.dedup_window)
      × IsChronological (clock_after now cs) (run q cs).seen
unfolding run
run_remembers q now t [] id c g m lt = (g, refl, c)
run_remembers q now t ((at, k) ∷ cs) id c g m lt =
    let c' = IsChronological-later now at q.seen m.0 c in
    let one = step_remembers q at t k id c' g (omega (arith, clock_after-le at cs m.1)) in
    let rest =
      run_remembers (step q (at, k)) at t cs id (step-seen q at k c') one.0 m.1 (rw (one.1) lt) in
    (rest.0, rest.1 ∙ one.1, rest.2)

-- While the stamps are in the order of the clock and it never goes back, a message whose id was
-- stamped at `t` is dropped if it is sent again less than a window later, whatever was sent,
-- received, deleted or extended in between: the deduplication id comes back and the queue gains
-- nothing.
pub resend_dropped :
    (q : MemoryQueue) (now t : ℕ) (cs : List (ℕ × Call)) (body group id : String)
    → IsChronological now q.seen
    → get q.seen id ≡ some t
    → IsMonotone now cs
    → clock_after now cs < t + q.dedup_window
    → let later = run q cs in
      let sent = send later (clock_after now cs) body group id in
      (sent.0 ≡ dedup id) × (sent.1.entries ≡ later.entries) × (sent.1.in_flight ≡ later.in_flight)
resend_dropped q now t cs body group id c g m lt =
    let kept = run_remembers q now t cs id c g m lt in
    ground (arith, kept, send_window (run q cs) (clock_after now cs) body group id kept.2)
