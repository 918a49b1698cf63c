-- ===== src/Stream/Cuts.antt =====
-- What a session emits is cut from the stream of its generation, over a buffer that holds it.
use radio_broadcast_analysis.Prelude.{
  ℕ, ◌+◌, ◌-◌, ◌*◌, ◌<◌, min, max, String, Bool, true, false, not, ◌||◌, List, [], ◌++◌, ◌≡◌, refl,
  sym, ap, ◌∙◌, subst, inl, inr, arith, if◌then◌else◌, leb, length, All, All-append, nat_Eq,
  string_Eq, Bool-cases, append-nil, append_assoc,
}
use radio_broadcast_analysis.Prelude.Int.{pos, le_ints}
use radio_broadcast_analysis.Audio.{AudioClassifier, Decision}
use radio_broadcast_analysis.RingBuffer.{RingBuffer, PcmWindow, ok, window, ms_to_bytes}
use radio_broadcast_analysis.RingBuffer.Refinement.{Holds}
use radio_broadcast_analysis.RingBuffer.Reading.{slice, window_lem}
use radio_broadcast_analysis.Stream.{StreamSettings, SegmentEvent, Session, is_empty, reach}
use radio_broadcast_analysis.Stream.Segmenting.{
  emit_window, flush_segment, extend_segment, cut_chunk, apply_decision,
}

-- The segment is of this generation, and its audio is some bytes of the generation's stream, from one
-- offset up to another.
pub record IsCut (generation : ℕ) (written : List ℕ) (e : SegmentEvent) : Type 0 where
  pub generation_ : e.generation ≡ generation
  pub nonempty : 0 < length e.pcm
  pub from : ℕ
  pub to : ℕ
  pub bytes : e.pcm ≡ slice written from to

-- `new` is `old` and after it cuts of the stream.
pub record Adds (generation : ℕ) (written : List ℕ) (old new : List SegmentEvent) : Type 0 where
  pub added : List SegmentEvent
  pub joined : new ≡ old ++ added
  pub cuts : All (IsCut generation written) added

abbrev pub nothing_added :
    {g : ℕ} {written : List ℕ} (old : List SegmentEvent) → Adds g written old old
nothing_added old = record { added = []; joined = sym (append-nil old); cuts = tt }

pub then_adds :
    {g : ℕ} {written : List ℕ} {a b c : List SegmentEvent}
    → Adds g written a b
    → Adds g written b c
    → Adds g written a c
then_adds {a = a} h k = record {
  added = h.added ++ k.added;
  joined = k.joined ∙ (ap (λ es. es ++ k.added) h.joined ∙ append_assoc a h.added k.added);
  cuts = All-append _ h.added k.added h.cuts k.cuts;
}

pub some_slice :
    (written pcm : List ℕ) (empty : Bool) (from to : ℕ)
    → pcm ≡ (if empty then [] else slice written from to)
    → (a : ℕ) × (b : ℕ) × (pcm ≡ slice written a b)
some_slice written pcm true from to e = (0, 0, e)
some_slice written pcm false from to e = (from, to, e)

-- The buffer answers with a stretch of the stream.
pub window-slice :
    (r : RingBuffer) (written : List ℕ) (a b : ℕ)
    → Holds r written
    → (w : PcmWindow) × (window r (pos a) (pos b) ≡ ok w)
      × (w.generation ≡ r.generation)
      × (from : ℕ) × (to : ℕ) × (w.pcm ≡ slice written from to)
window-slice r written a b h =
    let k = window_lem r written h (pos a) (pos b) in
    let from = max (ms_to_bytes r a) (length written - r.capacity) in
    let to = min (ms_to_bytes r b) (length written) in
    let cut = some_slice written k.0.pcm (le_ints (pos b) (pos a)) from to k.2 in
    (k.0, k.1, k.4, cut.0, cut.1, cut.2)

-- What a step of the session leaves as it is, and what it emits.
abbrev pub Step : {C : Type 0} → List ℕ → Session C → Session C → Type 0
Step written s s' =
    (s'.buffer ≡ s.buffer)
    × (s'.classified_to_ms ≡ s.classified_to_ms)
    × Adds s.buffer.generation written s.emitted s'.emitted

module _ {C : Type 0} (classifier : AudioClassifier C) (settings : StreamSettings)
    (trace_of : ℕ → String) (written : List ℕ) where
  emit_window-Step :
      (s : Session C) (w : PcmWindow) (from to : ℕ)
      → w.generation ≡ s.buffer.generation
      → w.pcm ≡ slice written from to
      → Step written s (emit_window classifier settings trace_of s (ok w))
  unfolding emit_window
  emit_window-Step s w from to g e = elim (Bool-cases (is_empty w)) [
    | inl empty ↦ rw (empty) (refl, refl, nothing_added s.emitted)
    | inr some_audio ↦ rw (some_audio) (
      refl,
      refl,
      record {
        added = _;
        joined = refl;
        cuts = (
          record {
            generation_ = g;
            nonempty = ground (arith, some_audio);
            from = from;
            to = to;
            bytes = e;
          },
          tt,
        );
      },
    )
  ]

  flush_segment-Step :
      (s : Session C)
      → Holds s.buffer written
      → Step written s (flush_segment classifier settings trace_of s)
  unfolding flush_segment
  flush_segment-Step s h =
      elim (Bool-cases (not s.segment_open || leb s.segment_end_ms s.segment_start_ms)) [
        | inl closed ↦ rw (closed) (refl, refl, nothing_added s.emitted)
        | inr opened ↦
            let answer = window-slice s.buffer written s.segment_start_ms s.segment_end_ms h in
            rw (opened, answer.1)
              (emit_window-Step (record s { segment_open = false }) answer.0 answer.3 answer.4
                answer.2 answer.5)
      ]

  extend_segment-Step :
      (decision : Decision) (start_ms : ℕ) (s : Session C)
      → Step written s (extend_segment classifier settings trace_of decision start_ms s)
  unfolding extend_segment
  extend_segment-Step decision start_ms s = elim (Bool-cases s.segment_open) [
    | inl opened ↦ rw (opened) (refl, refl, nothing_added s.emitted)
    | inr closed ↦ rw (closed) (refl, refl, nothing_added s.emitted)
  ]

  cut_chunk-Step :
      (s : Session C)
      → Holds s.buffer written
      → Step written s (cut_chunk classifier settings trace_of s)
  unfolding cut_chunk
  cut_chunk-Step s h =
      elim (Bool-cases
        (leb (s.segment_start_ms + settings.speech_chunk_seconds * 1000) s.segment_end_ms)) [
          | inl full ↦ rw (full) (flush_segment-Step s h)
          | inr short ↦ rw (short) (refl, refl, nothing_added s.emitted)
        ]

  pub apply_decision-Step :
      (now : ℕ) (decision : Decision) (start_ms end_ms : ℕ) (s : Session C)
      → Holds s.buffer written
      → Step written s (apply_decision classifier settings trace_of now decision start_ms end_ms s)
  unfolding apply_decision
  apply_decision-Step now decision start_ms end_ms s h =
      let s1 = extend_segment classifier settings trace_of decision start_ms s in
      let s2 = cut_chunk classifier settings trace_of (reach now decision end_ms s1) in
      let e = extend_segment-Step decision start_ms s in
      let c =
        cut_chunk-Step (reach now decision end_ms s1) (subst (λ b. Holds b written) (sym e.0) h) in
      elim (Bool-cases decision.keep) [
        | inl kept ↦ rw (kept) (
          c.0 ∙ e.0,
          c.1 ∙ e.1,
          then_adds e.2 (subst (λ b. Adds b.generation written s1.emitted s2.emitted) e.0 c.2),
        )
        | inr dropped ↦ rw (dropped) (flush_segment-Step s h)
      ]
