-- ===== src/RingBuffer/Tests.antt =====
-- The ring buffer on concrete audio, and its theorems at it.
use radio_broadcast_analysis.Prelude.{
  ℕ, true, false, List, [], ◌∷◌, ◌≡◌, refl, sym, subst, arith, nat_Eq, string_Eq,
}
use radio_broadcast_analysis.Prelude.Int.{pos, negsuc}
use radio_broadcast_analysis.RingBuffer.{
  RingBuffer, PcmWindow, Result, ok, err, fresh, append, read_absolute, tail, window, splice,
  write_wrapped, position_ms, bytes_to_ms, round_div, ms_to_bytes, to_window, window_at,
  available_bytes,
}
use radio_broadcast_analysis.RingBuffer.Refinement.{Holds, Holds-fresh, append-Holds}
use radio_broadcast_analysis.RingBuffer.Reading.{window_lem}

-- A buffer of eight bytes: four samples a second, for one second.
abbrev small : RingBuffer
small = fresh 4 1 0

abbrev after : Result (ℕ × RingBuffer) → RingBuffer
after (ok (offset, r)) = r
after (err e) = small

abbrev six : List ℕ
six = 1 ∷ 2 ∷ 3 ∷ 4 ∷ 5 ∷ 6 ∷ []

abbrev ten : List ℕ
ten = 1 ∷ 2 ∷ 3 ∷ 4 ∷ 5 ∷ 6 ∷ 7 ∷ 8 ∷ 9 ∷ 10 ∷ []

abbrev first : RingBuffer
first = after (append small 10 six)

first-Holds : Holds first six
first-Holds =
    let (r, e, h) =
      append-Holds small 10 [] six (Holds-fresh 4 1 0 (omega arith) (omega arith)) refl in
    subst (λ result. Holds (after result) six) (sym e) h

-- Four more bytes: the first two are overwritten.
append-Holds_example :
    (r : RingBuffer) × (append first 20 (7 ∷ 8 ∷ 9 ∷ 10 ∷ []) ≡ ok (position_ms first, r))
    × Holds r ten
append-Holds_example = append-Holds first 20 six (7 ∷ 8 ∷ 9 ∷ 10 ∷ []) first-Holds refl

abbrev wrapped : RingBuffer
wrapped = after (append first 20 (7 ∷ 8 ∷ 9 ∷ 10 ∷ []))

wrapped-Holds : Holds wrapped ten
wrapped-Holds =
    let (r, e, h) = append-Holds first 20 six (7 ∷ 8 ∷ 9 ∷ 10 ∷ []) first-Holds refl in
    subst (λ result. Holds (after result) ten) (sym e) h

wrapped-tail :
    tail wrapped 500
    ≡ ok (record {
      pcm = 7 ∷ 8 ∷ 9 ∷ 10 ∷ [];
      sample_rate = 4;
      start_offset_ms = 750;
      started_at = 750;
      ended_at = 1250;
      generation = 1;
      truncated = false;
    })
unfolding tail append splice write_wrapped round_div ms_to_bytes bytes_to_ms read_absolute
    available_bytes to_window window_at position_ms
wrapped-tail = refl

window_lem_example :
    (w : PcmWindow) × (window wrapped (negsuc 0) (pos 750) ≡ ok w)
    × (w.pcm ≡ 3 ∷ 4 ∷ 5 ∷ 6 ∷ [])
    × (w.truncated ≡ true)
    × (w.generation ≡ wrapped.generation)
unfolding ms_to_bytes append
window_lem_example = window_lem wrapped ten wrapped-Holds (negsuc 0) (pos 750)
