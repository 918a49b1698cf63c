-- ===== src/Stream/Run.antt =====
-- `reconnect_delay`, `_stream_once` and `run` of app/services/stream_supervisor.py: the connections of
-- one session. What the network does in a connection is a value: what opening it raises, what
-- each read gives, and when the session is asked to stop.
use radio_broadcast_analysis.Prelude.{
  ℕ, suc, ◌+◌, ◌-◌, ◌*◌, ◌/◌, ◌^◌, min, max, String, Bool, true, false, Option, none, some, List,
  [], ◌∷◌, if◌then◌else◌, ltb, leb, length, nat_Eq, string_Eq,
}
use radio_broadcast_analysis.Prelude.Int.{ℤ, pos, pos_part}
use radio_broadcast_analysis.Audio.{AudioClassifier}
use radio_broadcast_analysis.RingBuffer.{clear}
use radio_broadcast_analysis.Stream.{
  StreamSettings, StreamError, unsafe_url, no_audio, stream_ended, buffer_error, Session,
  set_status, request_stop,
}
use radio_broadcast_analysis.Stream.Segmenting.{ingest_pcm, flush_segment, new_generation}

-- random.random(), as the fraction `part / whole`
pub record Jitter : Type 0 where
  pub part : ℕ
  pub whole : ℕ

abbrev pub scale : Jitter → ℕ → ℕ
scale j n = n * j.part / j.whole

-- `reconnect_delay`, to the millisecond below, or nothing for an OverflowError: no float is as large as
-- 2 ** 1024, and `minimum` is one.
unfoldable pub reconnect_delay : ℤ → ℕ → ℕ → Jitter → Option ℕ
reconnect_delay attempt minimum maximum jitter =
    let base = min maximum (minimum * 2 ^ pos_part attempt) in
    if leb 1024 (pos_part attempt)
    then none
    else some (minimum + scale jitter (base - minimum) - scale jitter (minimum - base))

-- What one read gives: at some time bytes, which are empty at the end of the stream, or nothing
-- in time.
pub data Read : Type 0 where
  chunk : ℕ → List ℕ → Read
  timed_out : Read

-- How a connection ends: with the number of decoded bytes, or with an exception.
pub data Ending : Type 0 where
  ended : ℕ → Ending
  failed : StreamError → Ending

pub record Connection : Type 0 where
  pub opening : Option StreamError
  pub reads : List Read
  pub stop_after : Bool
  pub jitter : Jitter
  pub stop_waiting : Bool
  pub retry_at : ℕ

-- The attempt that the backoff counts after a connection.
unfoldable pub attempt_after : Ending → ℕ → ℕ
attempt_after (ended n) attempt = if ltb 0 n then 0 else attempt
attempt_after (failed (unsafe_url _)) attempt = max attempt 4
attempt_after (failed _) attempt = attempt

abbrev pub report : {C : Type 0} → Ending → Session C → Session C
report (ended n) s = set_status "reconnecting" (some stream_ended) s
report (failed (unsafe_url text)) s = set_status "failed" (some (unsafe_url text)) s
report (failed f) s = set_status "reconnecting" (some f) s

module _ {C : Type 0} where
  -- What `_stream_once` notes of the bytes it has read.
  abbrev pub decode : ℕ → ℕ → Session C → Session C
  decode now size s = record s {
    status = record s.status {
      bytes_decoded = s.status.bytes_decoded + size;
      last_audio_at = some now;
    };
  }

  abbrev pub count_reconnect : Session C → Session C
  count_reconnect s = record s { status = record s.status { reconnects = suc s.status.reconnects } }

module _ {C : Type 0} (classifier : AudioClassifier C) (settings : StreamSettings)
    (trace_of : ℕ → String) where
  -- The loop of `_stream_once`; there are no more reads when the session is asked to stop.
  unfoldable pub stream_reads : Bool → ℕ → List Read → Session C → Ending × Session C
  unfolding ingest_pcm
  stream_reads first decoded [] s = (ended decoded, s)
  stream_reads first decoded (timed_out ∷ reads) s = (failed no_audio, s)
  stream_reads first decoded (chunk now [] ∷ reads) s = (ended decoded, s)
  stream_reads first decoded (chunk now (b ∷ bs) ∷ reads) s =
      let size = length (b ∷ bs) in
      let s1 = if first then set_status "streaming" none s else s in
      let (error, s3) = ingest_pcm classifier settings trace_of now (b ∷ bs) (decode now size s1) in
      elim error [
        | some e ↦ (failed (buffer_error e), s3)
        | none ↦ stream_reads false (decoded + size) reads s3
      ]

  -- `_stream_once`
  unfoldable pub stream_once : Connection → Session C → Ending × Session C
  unfolding stream_reads
  stream_once c s = elim c.opening [ some f ↦ (failed f, s) | none ↦ stream_reads true 0 c.reads s ]

  -- The part of `run` up to the second test of `_stop`.
  unfoldable pub connect : Connection → ℕ → Session C → ℕ × Session C
  unfolding stream_once attempt_after
  connect c attempt s =
      let (ending, s') = stream_once c (set_status "connecting" none s) in
      (attempt_after ending attempt, report ending s')

  -- What the session is after the wait, if there is a delay to wait for.
  abbrev pub after_delay : Connection → Session C → Option ℕ → Option ℕ × Session C
  after_delay c s none = (none, s)
  after_delay c s (some delay) = (
    some delay,
    (if c.stop_waiting
        then count_reconnect s
        else new_generation classifier settings trace_of c.retry_at (count_reconnect s)),
  )

  -- The rest of the body of the loop: the delay, and the session after it.
  unfoldable pub retry : Connection → ℕ → Session C → Option ℕ × Session C
  unfolding flush_segment new_generation reconnect_delay
  retry c attempt s =
      after_delay c (flush_segment classifier settings trace_of s)
        (reconnect_delay (pos attempt) settings.reconnect_min_ms settings.reconnect_max_ms c.jitter)

  -- The delays that a session waits, the session at the end, and whether an exception ended it.
  abbrev pub Course : Type 0
  Course = List ℕ × Session C × Bool

  abbrev pub wait : Connection → Option ℕ → Session C → Course → Course
  wait c none s rest = ([], s, true)
  wait c (some delay) s (delays, s', raised) =
      if c.stop_waiting then (delay ∷ [], request_stop s, false) else (delay ∷ delays, s', raised)

  -- The loop of `run`; no more connections are tried when the session has been asked to stop, or is
  -- cancelled.
  unfoldable pub run_loop : List Connection → ℕ → Session C → Course
  unfolding connect retry
  run_loop [] attempt s = ([], s, false)
  run_loop (c ∷ cs) attempt s =
      let (attempt', s1) = connect c attempt s in
      let (delay, s2) = retry c attempt' s1 in
      let rest = run_loop cs (suc attempt') s2 in
      if c.stop_after then ([], request_stop s1, false) else wait c delay s2 rest

  -- `run`: the loop, and what it does at last.
  unfoldable pub run : List Connection → Session C → Course
  unfolding run_loop flush_segment
  run cs s =
      let (delays, s1, raised) = run_loop cs 0 s in
      let s2 = flush_segment classifier settings trace_of s1 in
      (delays, set_status "stopped" none (record s2 { buffer = clear s2.buffer }), raised)
