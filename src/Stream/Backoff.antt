-- ===== src/Stream/Backoff.antt =====
-- The delays between the connections of a session.
use radio_broadcast_analysis.Prelude.{
  ℕ, suc, ◌+◌, ◌-◌, ◌*◌, ◌^◌, ◌≤◌, min, max, String, Bool, true, false, ◌&&◌, Option, none, some,
  List, [], ◌∷◌, ◌≡◌, ◌⊎◌, refl, inl, inr, arith, ltb, leb, length, All, nat_Eq, string_Eq, if_both,
}
use native.Mathlib.Nat.{div-le_of_le-mul, mul-le-mul_left, mul_comm, one-le-pow}
use radio_broadcast_analysis.Prelude.Int.{ℤ, pos, pos_part}
use radio_broadcast_analysis.Audio.{AudioClassifier}
use radio_broadcast_analysis.Stream.{StreamSettings, Session, request_stop}
use radio_broadcast_analysis.Stream.{
  set_status, unsafe_url, no_audio, stream_ended, buffer_error, other_error,
}
use radio_broadcast_analysis.Stream.Segmenting.{flush_segment}
use radio_broadcast_analysis.Stream.Run.{
  Jitter, scale, reconnect_delay, Connection, connect, retry, run_loop, run,
}
use radio_broadcast_analysis.Stream.{
  set_status, unsafe_url, no_audio, stream_ended, buffer_error, other_error,
}
use radio_broadcast_analysis.Stream.Segmenting.{flush_segment}
use radio_broadcast_analysis.Stream.Run.{after_delay}
use radio_broadcast_analysis.Stream.{
  set_status, unsafe_url, no_audio, stream_ended, buffer_error, other_error,
}
use radio_broadcast_analysis.Stream.Segmenting.{flush_segment}
use radio_broadcast_analysis.Stream.Run.{attempt_after}
use radio_broadcast_analysis.Stream.{
  set_status, unsafe_url, no_audio, stream_ended, buffer_error, other_error,
}
use radio_broadcast_analysis.Stream.Segmenting.{flush_segment}
use radio_broadcast_analysis.Stream.Run.{wait}
use radio_broadcast_analysis.Stream.{
  set_status, unsafe_url, no_audio, stream_ended, buffer_error, other_error,
}
use radio_broadcast_analysis.Stream.Segmenting.{flush_segment}
use radio_broadcast_analysis.Stream.Run.{Ending}
use radio_broadcast_analysis.Stream.{
  set_status, unsafe_url, no_audio, stream_ended, buffer_error, other_error,
}
use radio_broadcast_analysis.Stream.Segmenting.{flush_segment}
use radio_broadcast_analysis.Stream.Run.{ended}
use radio_broadcast_analysis.Stream.{
  set_status, unsafe_url, no_audio, stream_ended, buffer_error, other_error,
}
use radio_broadcast_analysis.Stream.Segmenting.{flush_segment}
use radio_broadcast_analysis.Stream.Run.{failed}
use radio_broadcast_analysis.Stream.{unsafe_url}
use radio_broadcast_analysis.Stream.{buffer_error}
use radio_broadcast_analysis.Stream.{other_error}
use radio_broadcast_analysis.Stream.{
  set_status, unsafe_url, no_audio, stream_ended, buffer_error, other_error,
}
use radio_broadcast_analysis.Stream.Segmenting.{flush_segment}
use radio_broadcast_analysis.Stream.Run.{stream_once}
use radio_broadcast_analysis.Stream.{set_status}

-- A fraction from 0 to 1.
abbrev pub is_proper : Jitter → Bool
is_proper j = ltb 0 j.whole && leb j.part j.whole

abbrev pub Within : ℕ → ℕ → ℕ → Type 0
Within minimum maximum n = (minimum ≤ n) × (n ≤ maximum)

scale-le : (j : Jitter) (n : ℕ) → is_proper j ≡ true → scale j n ≤ n
scale-le j n proper =
    let part : j.part ≤ j.whole = ground (arith, proper) in
    let fits = mul-le-mul_left n part in
    div-le_of_le-mul j.whole (omega (arith, fits, mul_comm n j.whole))

-- A property of the delay, if there is one.
abbrev OfDelay : (ℕ → Type 0) → Option ℕ → Type 0
OfDelay P none = Unit
OfDelay P (some n) = P n

abbrev is_none : Option ℕ → Bool
is_none none = true
is_none (some n) = false

reconnect_delay-bounds :
    (attempt : ℤ) (minimum maximum : ℕ) (j : Jitter)
    → minimum ≤ maximum
    → is_proper j ≡ true
    → OfDelay (Within minimum maximum) (reconnect_delay attempt minimum maximum j)
unfolding reconnect_delay
reconnect_delay-bounds attempt minimum maximum j le proper =
    let base = min maximum (minimum * 2 ^ pos_part attempt) in
    let grown = mul-le-mul_left minimum (one-le-pow (pos_part attempt) 2 (omega arith)) in
    let more : minimum ≤ base = omega (arith, grown) in
    let none_less : minimum - base ≡ 0 = omega (arith, more) in
    let up = scale-le j (base - minimum) proper in
    let down = scale-le j (minimum - base) proper in
    if_both (OfDelay (Within minimum maximum)) (leb 1024 (pos_part attempt)) none
      (some (minimum + scale j (base - minimum) - scale j (minimum - base))) tt
      (omega (arith, up, down, none_less, more), omega (arith, up, down, none_less, more))

-- There is no delay only from the 1,024th attempt on.
reconnect_delay-none :
    (attempt minimum maximum : ℕ) (j : Jitter)
    → is_none (reconnect_delay (pos attempt) minimum maximum j) ≡ true
    → 1024 ≤ attempt
unfolding reconnect_delay
reconnect_delay-none attempt minimum maximum j h = ground (arith, h)

module _ {C : Type 0} (classifier : AudioClassifier C) (settings : StreamSettings)
    (trace_of : ℕ → String) where
  retry-delay :
      (P : Option ℕ → Type 0) (c : Connection) (attempt : ℕ) (s : Session C)
      → P (
          reconnect_delay
            (pos attempt)
            settings.reconnect_min_ms
            settings.reconnect_max_ms
            c.jitter)
      → P (retry classifier settings trace_of c attempt s).0
  unfolding retry
  retry-delay P c attempt s h = over _ h
    where
      over :
          (d : Option ℕ)
          → P d
          → P
              (after_delay classifier settings trace_of c
                (flush_segment classifier settings trace_of s)
                d).0
      over none h = h
      over (some d) h = h

  connect-attempt :
      (c : Connection) (attempt : ℕ) (s : Session C)
      → (connect classifier settings trace_of c attempt s).0 ≤ max attempt 4
  unfolding connect attempt_after
  connect-attempt c attempt s =
      over (stream_once classifier settings trace_of c (set_status "connecting" none s)).0
    where
      over : (e : Ending) → attempt_after e attempt ≤ max attempt 4
      over (ended n) = ground arith
      over (failed (unsafe_url text)) = omega arith
      over (failed no_audio) = omega arith
      over (failed stream_ended) = omega arith
      over (failed (buffer_error e)) = omega arith
      over (failed (other_error text)) = omega arith

  module _ (ordered : settings.reconnect_min_ms ≤ settings.reconnect_max_ms) where
    -- Delays in range, and an exception only once the attempts are used up.
    abbrev Fine : ℕ → List ℕ × Session C × Bool → Type 0
    Fine most (delays, s, raised) =
        All (Within settings.reconnect_min_ms settings.reconnect_max_ms) delays
        × ((raised ≡ false) ⊎ (1024 ≤ most + length delays))

    wait-Fine :
        (c : Connection) (attempt most : ℕ) (delay : Option ℕ) (s : Session C)
        (rest : List ℕ × Session C × Bool)
        → OfDelay (Within settings.reconnect_min_ms settings.reconnect_max_ms) delay
        → (is_none delay ≡ true → 1024 ≤ attempt)
        → attempt ≤ most
        → Fine (suc most) rest
        → Fine most (wait classifier settings trace_of c delay s rest)
    wait-Fine c attempt most none s rest d late le f = (tt, inr (omega (arith, late refl, le)))
    wait-Fine c attempt most (some delay) s (delays, s', raised) d late le f =
        if_both (Fine most) c.stop_waiting (delay ∷ [], request_stop s, false)
          (delay ∷ delays, s', raised) ((d, tt), inl refl)
          ((d, f.0), elim f.1 [ inl fine ↦ inl fine | inr used ↦ inr (omega (arith, used)) ])

    Fine-le : (a b : ℕ) (r : List ℕ × Session C × Bool) → a ≤ b → Fine a r → Fine b r
    Fine-le a b (delays, s, raised) le f =
        (f.0, elim f.1 [ inl fine ↦ inl fine | inr used ↦ inr (omega (arith, used, le)) ])

    run_loop-Fine :
        (cs : List Connection) (attempt : ℕ) (s : Session C)
        → All (λ c. is_proper c.jitter ≡ true) cs
        → Fine (max attempt 4) (run_loop classifier settings trace_of cs attempt s)
    unfolding run_loop
    run_loop-Fine [] attempt s h = (tt, inl refl)
    run_loop-Fine (c ∷ cs) attempt s h =
        let (attempt', s1) = connect classifier settings trace_of c attempt s in
        let (delay, s2) = retry classifier settings trace_of c attempt' s1 in
        let rest = run_loop classifier settings trace_of cs (suc attempt') s2 in
        let le : attempt' ≤ max attempt 4 = connect-attempt c attempt s in
        let d =
          retry-delay (OfDelay (Within settings.reconnect_min_ms settings.reconnect_max_ms)) c
            attempt' s1
            (reconnect_delay-bounds (pos attempt') settings.reconnect_min_ms
              settings.reconnect_max_ms c.jitter ordered h.0) in
        let late =
          retry-delay (λ o. is_none o ≡ true → 1024 ≤ attempt') c attempt' s1
            (reconnect_delay-none attempt' settings.reconnect_min_ms settings.reconnect_max_ms
              c.jitter) in
        if_both (Fine (max attempt 4)) c.stop_after ([], request_stop s1, false)
          (wait classifier settings trace_of c delay s2 rest) (tt, inl refl)
          (wait-Fine c attempt' (max attempt 4) delay s2 rest d late le (
            Fine-le (max (suc attempt') 4) (suc (max attempt 4)) rest (omega (arith, le))
              (run_loop-Fine cs (suc attempt') s2 h.1)))

    -- When the settings put the least delay before the greatest and each jitter is a fraction from 0
    -- to 1, every delay between two connections of a session lies between the two, whatever the
    -- connections do; and no exception ends the session unless it has waited 1,020 times at least.
    pub run-delays :
        (cs : List Connection) (s : Session C)
        → All (λ c. is_proper c.jitter ≡ true) cs
        → let (delays, _, raised) = run classifier settings trace_of cs s in
          All (Within settings.reconnect_min_ms settings.reconnect_max_ms) delays
          × ((raised ≡ false) ⊎ (1020 ≤ length delays))
    unfolding run
    run-delays cs s h =
        let f = run_loop-Fine cs 0 s h in
        (f.0, elim f.1 [ inl fine ↦ inl fine | inr used ↦ inr (omega (arith, used)) ])
