-- ===== src/RingBuffer.antt =====
-- app/services/ring_buffer.py: the bounded PCM buffer of one station session. Bytes are numbers;
-- a datetime is a count of milliseconds, and an operation takes as `now` the time that its
-- optional argument or the clock gives.
pub mod Slices
pub mod Refinement
pub mod Reading
mod Tests
use radio_broadcast_analysis.Prelude.{
  ℕ, zero, suc, ◌+◌, ◌-◌, ◌*◌, ◌/◌, ◌%◌, min, max, Bool, true, false, ◌||◌, Option, none, some,
  List, [], ◌∷◌, ◌++◌, if◌then◌else◌, ltb, leb, nat_eq, length, take, drop, replicate,
}
use radio_broadcast_analysis.Prelude.Int.{ℤ, pos_part, le_ints}

abbrev pub sample_width_bytes : ℕ
sample_width_bytes = 2

-- `RingBufferError` in its two uses, `ValueError`, and the division by the capacity of a cleared
-- buffer.
pub data Error : Type 0 where
  invalid_size partial_sample out_of_range zero_division : Error

pub data Result {ℓ} (A : Type ℓ) : Type ℓ where
  ok : A → Result A
  err : Error → Result A

-- round(a / b), where Python rounds a half to the even neighbour.
pub round_div : ℕ → ℕ → ℕ
round_div a b =
    let q = a / b in
    let twice = 2 * (a % b) in if ltb twice b then q else if ltb b twice then q + 1 else q + q % 2

pub record PcmWindow : Type 0 where
  pub pcm : List ℕ
  pub sample_rate : ℕ
  pub start_offset_ms : ℕ
  pub started_at : ℕ
  pub ended_at : ℕ
  pub generation : ℕ
  pub truncated : Bool

pub duration_ms : PcmWindow → ℕ
unfolding round_div
duration_ms w =
    if nat_eq w.sample_rate 0
    then 0
    else round_div (length w.pcm / sample_width_bytes * 1000) w.sample_rate

pub end_offset_ms : PcmWindow → ℕ
end_offset_ms w = w.start_offset_ms + duration_ms w

pub record RingBuffer : Type 0 where
  pub sample_rate : ℕ
  pub seconds : ℕ
  pub capacity : ℕ
  pub buffer : List ℕ
  pub write : ℕ
  pub total : ℕ
  pub generation : ℕ
  pub generation_started_at : ℕ
  pub gap_ms : ℕ
  pub last_append_at : Option ℕ

abbrev pub fresh : ℕ → ℕ → ℕ → RingBuffer
fresh sample_rate seconds started_at = record {
  sample_rate = sample_rate;
  seconds = seconds;
  capacity = sample_rate * seconds * sample_width_bytes;
  buffer = replicate (sample_rate * seconds * sample_width_bytes) 0;
  write = 0;
  total = 0;
  generation = 1;
  generation_started_at = started_at;
  gap_ms = 0;
  last_append_at = none;
}

-- `__init__`
pub create : ℕ → ℕ → ℕ → Result RingBuffer
create sample_rate seconds started_at =
    if nat_eq sample_rate 0 || nat_eq seconds 0
    then err invalid_size
    else ok (fresh sample_rate seconds started_at)

unfoldable pub ms_to_bytes : RingBuffer → ℕ → ℕ
ms_to_bytes r milliseconds = milliseconds * r.sample_rate / 1000 * sample_width_bytes

-- round(...) of the exact quotient, which Python divides as floats: no difference below 2 ** 52.
unfoldable pub bytes_to_ms : RingBuffer → ℕ → ℕ
unfolding round_div
bytes_to_ms r size =
    if nat_eq r.sample_rate 0 then 0 else round_div (size / sample_width_bytes * 1000) r.sample_rate

pub available_bytes : RingBuffer → ℕ
available_bytes r = min r.total r.capacity

unfoldable pub position_ms : RingBuffer → ℕ
position_ms r = bytes_to_ms r r.total

-- max(0, total - capacity): the absolute offset of the oldest byte that is held.
abbrev pub floor : RingBuffer → ℕ
floor r = r.total - r.capacity

unfoldable pub oldest_offset_ms : RingBuffer → ℕ
oldest_offset_ms r = bytes_to_ms r (floor r)

-- buffer[at:at + len(data)] = data, the slice inside the buffer
pub splice : List ℕ → ℕ → List ℕ → List ℕ
splice buffer at chunk = take at buffer ++ (chunk ++ drop (at + length chunk) buffer)

-- The writes of `append`, from `write_at` and round the end.
unfoldable pub write_wrapped : ℕ → List ℕ → ℕ → List ℕ → List ℕ
unfolding splice
write_wrapped capacity buffer write_at chunk =
    if leb (write_at + length chunk) capacity
    then splice buffer write_at chunk
    else (let head = capacity - write_at in
        splice (take write_at buffer ++ take head chunk) 0 (drop head chunk))

unfoldable pub append : RingBuffer → ℕ → List ℕ → Result (ℕ × RingBuffer)
append r now [] = ok (position_ms r, r)
append r now (b ∷ bs) =
    let pcm = b ∷ bs in
    let new_total = r.total + length pcm in
    let kept = if ltb r.capacity (length pcm) then drop (length pcm - r.capacity) pcm else pcm in
    if ltb 0 (length pcm % sample_width_bytes)
    then err partial_sample
    else if nat_eq r.capacity 0
    then err zero_division
    else ok (
      position_ms r,
      record r {
        buffer = write_wrapped r.capacity r.buffer ((new_total - length kept) % r.capacity) kept;
        total = new_total;
        write = new_total % r.capacity;
        last_append_at = some now;
      },
    )

pub mark_gap : RingBuffer → ℤ → RingBuffer
mark_gap r duration_ms = record r { gap_ms = r.gap_ms + pos_part duration_ms }

unfoldable pub read_absolute : RingBuffer → ℕ → ℕ → Result (List ℕ)
read_absolute r start end =
    let begin = start % r.capacity in
    let size = end - start in
    if leb end start
    then ok []
    else if ltb start (floor r) || ltb r.total end
    then err out_of_range
    else if nat_eq r.capacity 0
    then err zero_division
    else if leb (begin + size) r.capacity
    then ok (take size (drop begin r.buffer))
    else ok (drop begin r.buffer ++ take (size - (r.capacity - begin)) r.buffer)

to_window : RingBuffer → ℕ → ℕ → Bool → Result (List ℕ) → Result PcmWindow
to_window r start end truncated (err e) = err e
to_window r start end truncated (ok pcm) = ok (record {
  pcm = pcm;
  sample_rate = r.sample_rate;
  start_offset_ms = bytes_to_ms r start;
  started_at = r.generation_started_at + bytes_to_ms r start;
  ended_at = r.generation_started_at + bytes_to_ms r end;
  generation = r.generation;
  truncated = truncated;
})

-- `_window`
unfoldable pub window_at : RingBuffer → ℕ → ℕ → Bool → Result PcmWindow
unfolding to_window
window_at r start end truncated = to_window r start end truncated (read_absolute r start end)

-- `tail`: `milliseconds` is int(round(max(0.0, seconds) * 1000)).
pub tail : RingBuffer → ℕ → Result PcmWindow
tail r milliseconds =
    let wanted = ms_to_bytes r milliseconds in
    let size = min wanted (available_bytes r) in
    window_at r (r.total - size) r.total (ltb size wanted)

unfoldable pub window : RingBuffer → ℤ → ℤ → Result PcmWindow
window r start_offset_ms end_offset_ms =
    let requested_start = ms_to_bytes r (pos_part start_offset_ms) in
    let requested_end = ms_to_bytes r (pos_part end_offset_ms) in
    let start = max requested_start (floor r) in
    let end = min requested_end r.total in
    if le_ints end_offset_ms start_offset_ms
    then window_at r r.total r.total false
    else if leb end start
    then window_at r r.total r.total true
    else window_at r start end (ltb requested_start start || ltb end requested_end)

pub reset : RingBuffer → ℕ → ℕ × RingBuffer
reset r started_at = (
  suc r.generation,
  record r {
    write = 0;
    total = 0;
    gap_ms = 0;
    generation = suc r.generation;
    generation_started_at = started_at;
    last_append_at = none;
  },
)

pub clear : RingBuffer → RingBuffer
clear r = record r {
  buffer = [];
  capacity = 0;
  write = 0;
  total = 0;
  gap_ms = 0;
  last_append_at = none;
}

pub reopen : RingBuffer → ℕ → RingBuffer
reopen r started_at =
    (reset
      (record r {
        capacity = r.sample_rate * r.seconds * sample_width_bytes;
        buffer = replicate (r.sample_rate * r.seconds * sample_width_bytes) 0;
      })
      started_at).1
