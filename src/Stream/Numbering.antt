-- ===== src/Stream/Numbering.antt =====
-- The sequence numbers of a session's segments, over all its connections.
use radio_broadcast_analysis.Prelude.{
  ℕ, suc, ◌+◌, String, Bool, true, false, none, List, [], ◌∷◌, refl, inl, inr, if◌then◌else◌,
  length, nat_Eq, string_Eq, Bool-cases, if_both, option_both, Option-cases, Option, some,
}
use radio_broadcast_analysis.Audio.{AudioClassifier}
use radio_broadcast_analysis.Stream.{
  StreamSettings, StationPlan, Session, create, set_status, request_stop, unsafe_url, stream_ended,
  no_audio, buffer_error, other_error,
}
use radio_broadcast_analysis.Stream.Segmenting.{flush_segment, ingest_pcm}
use radio_broadcast_analysis.Stream.Run.{
  Read, chunk, timed_out, Ending, ended, failed, Connection, stream_reads, stream_once, connect,
  retry, run_loop, run, after_delay, wait, report, decode, count_reconnect,
}
use radio_broadcast_analysis.Stream.Numbers.{
  Numbered, flush_segment-Numbered, ingest_pcm-Numbered, new_generation-Numbered,
}

module _ {C : Type 0} (classifier : AudioClassifier C) (settings : StreamSettings)
    (trace_of : ℕ → String) (plan : StationPlan) (id : String) where
  stream_reads-Numbered :
      (first : Bool) (decoded : ℕ) (reads : List Read) (s : Session C)
      → Numbered plan id s
      → Numbered plan id (stream_reads classifier settings trace_of first decoded reads s).1
  unfolding stream_reads
  stream_reads-Numbered first decoded [] s h = h
  stream_reads-Numbered first decoded (timed_out ∷ reads) s h = h
  stream_reads-Numbered first decoded (chunk now [] ∷ reads) s h = h
  stream_reads-Numbered first decoded (chunk now (b ∷ bs) ∷ reads) s h =
      let start = if first then set_status "streaming" none s else s in
      let h' : Numbered plan id start =
        if_both (Numbered plan id) first (set_status "streaming" none s) s h h in
      let s' = decode now (length (b ∷ bs)) start in
      let k = ingest_pcm-Numbered classifier settings trace_of plan id now (b ∷ bs) s' h' in
      let (error, s'') = ingest_pcm classifier settings trace_of now (b ∷ bs) s' in
      let rest =
        stream_reads classifier settings trace_of false (decoded + length (b ∷ bs)) reads s'' in
      option_both (λ p. Numbered plan id p.1) error (λ e. (failed (buffer_error e), s'')) rest
        (λ e. k) (stream_reads-Numbered false (decoded + length (b ∷ bs)) reads s'' k)

  stream_once-Numbered :
      (c : Connection) (s : Session C)
      → Numbered plan id s
      → Numbered plan id (stream_once classifier settings trace_of c s).1
  unfolding stream_once
  stream_once-Numbered c s h = elim (Option-cases c.opening) [
    | inl opened ↦ rw (opened) (stream_reads-Numbered true 0 c.reads s h)
    | inr (f, raised) ↦ rw (raised) h
  ]

  report-Numbered :
      (ending : Ending) (s : Session C) → Numbered plan id s → Numbered plan id (report ending s)
  report-Numbered (ended n) s h = h
  report-Numbered (failed (unsafe_url text)) s h = h
  report-Numbered (failed no_audio) s h = h
  report-Numbered (failed stream_ended) s h = h
  report-Numbered (failed (buffer_error e)) s h = h
  report-Numbered (failed (other_error text)) s h = h

  connect-Numbered :
      (c : Connection) (attempt : ℕ) (s : Session C)
      → Numbered plan id s
      → Numbered plan id (connect classifier settings trace_of c attempt s).1
  unfolding connect
  connect-Numbered c attempt s h = report-Numbered _ _ (stream_once-Numbered c _ h)

  after_delay-Numbered :
      (c : Connection) (s : Session C) (delay : Option ℕ)
      → Numbered plan id s
      → Numbered plan id (after_delay classifier settings trace_of c s delay).1
  after_delay-Numbered c s none h = h
  after_delay-Numbered c s (some delay) h = elim (Bool-cases c.stop_waiting) [
    | inl stopped ↦ rw (stopped) h
    | inr goes_on ↦ rw (goes_on) (
        new_generation-Numbered classifier settings trace_of plan id c.retry_at (count_reconnect s)
          h)
  ]

  retry-Numbered :
      (c : Connection) (attempt : ℕ) (s : Session C)
      → Numbered plan id s
      → Numbered plan id (retry classifier settings trace_of c attempt s).1
  unfolding retry
  retry-Numbered c attempt s h =
      after_delay-Numbered c (flush_segment classifier settings trace_of s) _
        (flush_segment-Numbered classifier settings trace_of plan id s h)

  wait-Numbered :
      (c : Connection) (delay : Option ℕ) (s : Session C) (rest : List ℕ × Session C × Bool)
      → Numbered plan id s
      → Numbered plan id rest.1
      → Numbered plan id (wait classifier settings trace_of c delay s rest).1
  wait-Numbered c none s rest h k = h
  wait-Numbered c (some delay) s (delays, s', raised) h k =
      if_both (λ (r : List ℕ × Session C × Bool). Numbered plan id r.1) c.stop_waiting
        (delay ∷ [], request_stop s, false) (delay ∷ delays, s', raised) h k

  run_loop-Numbered :
      (cs : List Connection) (attempt : ℕ) (s : Session C)
      → Numbered plan id s
      → Numbered plan id (run_loop classifier settings trace_of cs attempt s).1
  unfolding run_loop
  run_loop-Numbered [] attempt s h = h
  run_loop-Numbered (c ∷ cs) attempt s h =
      let (attempt', s1) = connect classifier settings trace_of c attempt s in
      let (delay, s2) = retry classifier settings trace_of c attempt' s1 in
      let rest = run_loop classifier settings trace_of cs (suc attempt') s2 in
      let k = connect-Numbered c attempt s h in
      let k' = retry-Numbered c attempt' s1 k in
      if_both (λ (r : List ℕ × Session C × Bool). Numbered plan id r.1) c.stop_after
        ([], request_stop s1, false) (wait classifier settings trace_of c delay s2 rest) k
        (wait-Numbered c delay s2 rest k' (run_loop-Numbered cs (suc attempt') s2 k'))

-- Whatever its connections do, a session that runs from its creation emits the segments 1, 2, 3, ...
-- in this order and without a gap, over all reconnections, each under the ids of the session and of
-- its station; and its status tells how many they are.
pub run-Numbered :
    {C : Type 0} (classifier : AudioClassifier C) (settings : StreamSettings)
    (trace_of : ℕ → String) (plan : StationPlan) (state : C) (id : String) (now : ℕ)
    (cs : List Connection)
    → Numbered plan id (run classifier settings trace_of cs (create settings plan state id now)).1
unfolding run
run-Numbered classifier settings trace_of plan state id now cs =
    flush_segment-Numbered classifier settings trace_of plan id
      (run_loop classifier settings trace_of cs 0 (create settings plan state id now)).1
      (run_loop-Numbered classifier settings trace_of plan id cs 0
        (create settings plan state id now)
        (refl, refl, record { numbers = refl; counted = refl; owned = tt }))
