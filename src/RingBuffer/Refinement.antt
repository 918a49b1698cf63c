-- ===== src/RingBuffer/Refinement.antt =====
-- The ring buffer refines the append-only list of the bytes of its generation: it holds the last
-- `capacity` of them, the byte at absolute offset `a` at index `a % capacity`.
use native.Mathlib.Nat.{mod-lt, mod-eq_of_lt}
use radio_broadcast_analysis.Prelude.{
  refl, length-replicate, ℕ, ◌+◌, ◌-◌, ◌%◌, ◌≤◌, ◌<◌, min, ◌&&◌, List, ◌++◌, ◌≡◌, ◌⊎◌, ap, inl, inr,
  arith, if◌then◌else◌, ltb, leb, length, take, drop, get_elem?, length-append, length-take,
  length-drop, nat_Eq, string_Eq, Bool-cases, subst, [], ◌∙◌, sym, append-nil, ◌∷◌, some, ◌*◌,
}
use radio_broadcast_analysis.RingBuffer.{
  fresh, clear, reopen, err, partial_sample, zero_division, Error, RingBuffer, floor, write_wrapped,
  append, reset, ok, sample_width_bytes, position_ms,
}
use radio_broadcast_analysis.RingBuffer.Slices.{
  get_elem?-append, get_elem?-take, get_elem?-drop, get_elem?-splice, length-splice, mod_step,
}

-- `written` is every byte that was appended in this generation.
pub record Holds (r : RingBuffer) (written : List ℕ) : Type 0 where
  pub positive : 0 < r.capacity
  pub sized : length r.buffer ≡ r.capacity
  pub counted : r.total ≡ length written
  pub cursor : r.write ≡ r.total % r.capacity
  pub content :
      (a : ℕ)
      → floor r ≤ a
      → a < r.total
      → get_elem? r.buffer (a % r.capacity) ≡ get_elem? written a

module _ (c : ℕ) (buffer chunk : List ℕ) (sized : length buffer ≡ c) (fits : length chunk ≤ c) where
  length-write_wrapped : (w : ℕ) → w < c → length (write_wrapped c buffer w chunk) ≡ c
  unfolding write_wrapped
  length-write_wrapped w h = ground (
    arith,
    length-splice buffer chunk w,
    length-append (take w buffer) (take (c - w) chunk),
    length-take w buffer,
    length-take (c - w) chunk,
    length-drop (c - w) chunk,
    length-splice (take w buffer ++ take (c - w) chunk) (drop (c - w) chunk) 0,
  )

  -- What each index of the buffer reads after the writes of `append`.
  get_elem?-write_wrapped :
      (w i : ℕ)
      → w < c
      → i < c
      → get_elem? (write_wrapped c buffer w chunk) i ≡ (
          if leb w i && ltb i (w + length chunk)
          then get_elem? chunk (i - w)
          else if ltb (i + c) (w + length chunk)
          then get_elem? chunk (c - w + i)
          else get_elem? buffer i)
  unfolding write_wrapped
  get_elem?-write_wrapped w i h lt = elim (Bool-cases (leb (w + length chunk) c)) [
    | inl straight ↦ ground (arith, get_elem?-splice buffer chunk w i)
    | inr wrapped ↦ ground (
      arith,
      length-append (take w buffer) (take (c - w) chunk),
      length-take w buffer,
      length-take (c - w) chunk,
      length-drop (c - w) chunk,
      get_elem?-splice (take w buffer ++ take (c - w) chunk) (drop (c - w) chunk) 0 i,
      get_elem?-append (take w buffer) (take (c - w) chunk) i,
      get_elem?-take w buffer i,
      get_elem?-take (c - w) chunk (i - w),
      get_elem?-drop (c - w) chunk i,
    )
  ]

  read_new :
      (w k i : ℕ)
      → w < c
      → i < c
      → k < length chunk
      → (w + k ≡ i) ⊎ (w + k ≡ i + c)
      → get_elem? (write_wrapped c buffer w chunk) i ≡ get_elem? chunk k
  read_new w k i h lt short (inl e) =
      let at : i - w ≡ k = omega arith in
      ground (arith, get_elem?-write_wrapped w i h lt, ap (get_elem? chunk) at)
  read_new w k i h lt short (inr e) =
      let at : c - w + i ≡ k = omega arith in
      ground (arith, get_elem?-write_wrapped w i h lt, ap (get_elem? chunk) at)

  read_old :
      (w d i : ℕ)
      → w < c
      → i < c
      → 0 < d
      → d + length chunk ≤ c
      → (i + d ≡ w) ⊎ (i + d ≡ w + c)
      → get_elem? (write_wrapped c buffer w chunk) i ≡ get_elem? buffer i
  read_old w d i h lt far room (inl e) = ground (arith, get_elem?-write_wrapped w i h lt)
  read_old w d i h lt far room (inr e) = ground (arith, get_elem?-write_wrapped w i h lt)

-- Adding less than the divisor goes on or wraps once.
pub mod_cases :
    (s k c : ℕ) → 0 < c → k < c → (s % c + k ≡ (s + k) % c) ⊎ (s % c + k ≡ (s + k) % c + c)
mod_cases s k c h lt = elim (Bool-cases (ltb (s % c + k) c)) [
  | inl on ↦ inl (ground (arith, mod_step s k c h lt))
  | inr round ↦ inr (ground (arith, mod_step s k c h lt))
]

-- The part of `pcm` that fits, and where it starts in the generation.
abbrev kept : ℕ → List ℕ → List ℕ
kept c pcm = if ltb c (length pcm) then drop (length pcm - c) pcm else pcm

length-kept : (c : ℕ) (pcm : List ℕ) → length (kept c pcm) ≡ min c (length pcm)
length-kept c pcm = ground (arith, length-drop (length pcm - c) pcm)

get_elem?-kept :
    (c k : ℕ) (written pcm : List ℕ)
    → k < length (kept c pcm)
    → get_elem? (kept c pcm) k
      ≡ get_elem? (written ++ pcm) (length written + length pcm - length (kept c pcm) + k)
get_elem?-kept c k written pcm h = elim (Bool-cases (ltb c (length pcm))) [
  | inl big ↦
      let at : length written + length pcm - length (kept c pcm) + k - length written
          ≡ length pcm - c + k =
        omega (arith, length-kept c pcm) in
      ground (
        arith,
        length-kept c pcm,
        get_elem?-drop (length pcm - c) pcm k,
        ap (get_elem? pcm) at,
        get_elem?-append written pcm (length written + length pcm - length (kept c pcm) + k),
      )
  | inr small ↦
      let at : length written + length pcm - length pcm + k - length written ≡ k = omega arith in
      ground (
        arith,
        ap (get_elem? pcm) at,
        get_elem?-append written pcm (length written + length pcm - length pcm + k),
      )
]

module _ (r : RingBuffer) (written pcm : List ℕ) (h : Holds r written)
    (some_pcm : 0 < length pcm) where
  abbrev stored : List ℕ
  stored = kept r.capacity pcm

  abbrev start : ℕ
  start = r.total + length pcm - length stored

  content_after :
      (a : ℕ)
      → r.total + length pcm - r.capacity ≤ a
      → a < r.total + length pcm
      → get_elem? (write_wrapped r.capacity r.buffer (start % r.capacity) stored) (a % r.capacity)
        ≡ get_elem? (written ++ pcm) a
  content_after a lo hi = elim (Bool-cases (leb start a)) [
    | inl new ↦
        let short : a - start < length stored = ground (arith, length-kept r.capacity pcm) in
        let room : a - start < r.capacity =
          ground (arith, length-kept r.capacity pcm, h.positive) in
        let whole : start + (a - start) ≡ a = ground arith in
        let index : length written + length pcm - length stored + (a - start) ≡ a =
          ground (arith, h.counted) in
        read_new r.capacity r.buffer stored h.sized (omega (arith, length-kept r.capacity pcm))
          (start % r.capacity) (a - start) (a % r.capacity) (mod-lt start h.positive)
          (mod-lt a h.positive) short
          (subst
            (λ n.
              (start % r.capacity + (a - start) ≡ n % r.capacity)
              ⊎ (start % r.capacity + (a - start) ≡ n % r.capacity + r.capacity))
            whole (mod_cases start (a - start) r.capacity h.positive room))
        ∙ get_elem?-kept r.capacity (a - start) written pcm short
        ∙ ap (get_elem? (written ++ pcm)) index
    | inr old ↦
        let small : length stored ≡ length pcm = ground (arith, length-kept r.capacity pcm) in
        let far : 0 < start - a = ground arith in
        let room : start - a + length stored ≤ r.capacity =
          ground (arith, length-kept r.capacity pcm) in
        let whole : a + (start - a) ≡ start = ground arith in
        read_old r.capacity r.buffer stored h.sized (omega (arith, length-kept r.capacity pcm))
          (start % r.capacity) (start - a) (a % r.capacity) (mod-lt start h.positive)
          (mod-lt a h.positive) far room
          (subst
            (λ n.
              (a % r.capacity + (start - a) ≡ n % r.capacity)
              ⊎ (a % r.capacity + (start - a) ≡ n % r.capacity + r.capacity))
            whole (mod_cases a (start - a) r.capacity h.positive (omega (arith, small, some_pcm))))
        ∙ h.content a (omega (arith, small)) (omega (arith, small))
        ∙ before (omega (arith, small, h.counted))
  ]
    where
      before : a < length written → get_elem? written a ≡ get_elem? (written ++ pcm) a
      before lt = ground (arith, get_elem?-append written pcm a)

-- Appending whole samples, any number of them, to a buffer that holds a stream gives a buffer that
-- holds the stream with them at its end, and returns the offset at which they begin.
pub append-Holds :
    (r : RingBuffer) (now : ℕ) (written pcm : List ℕ)
    → Holds r written
    → length pcm % sample_width_bytes ≡ 0
    → (r' : RingBuffer) × (append r now pcm ≡ ok (position_ms r, r')) × Holds r' (written ++ pcm)
unfolding append
append-Holds r now written [] h even = (r, refl, subst (Holds r) (sym (append-nil written)) h)
append-Holds r now written (b ∷ bs) h even = (
  record r {
    buffer =
        write_wrapped r.capacity r.buffer
          ((r.total + length (b ∷ bs) - length (kept r.capacity (b ∷ bs))) % r.capacity)
          (kept r.capacity (b ∷ bs));
    total = r.total + length (b ∷ bs);
    write = (r.total + length (b ∷ bs)) % r.capacity;
    last_append_at = some now;
  },
  ground (arith, h.positive),
  record {
    positive = h.positive;
    sized =
        length-write_wrapped r.capacity r.buffer (kept r.capacity (b ∷ bs)) h.sized
          (omega (arith, length-kept r.capacity (b ∷ bs))) _ (mod-lt _ h.positive);
    counted = omega (arith, h.counted, length-append {0} written (b ∷ bs));
    cursor = refl;
    content = content_after r written (b ∷ bs) h (omega arith);
  },
)

-- A new buffer holds the empty stream.
pub Holds-fresh :
    (sample_rate seconds started_at : ℕ)
    → 0 < sample_rate
    → 0 < seconds
    → Holds (fresh sample_rate seconds started_at) []
Holds-fresh rate seconds started_at p q = record {
  positive = grind arith;
  sized = length-replicate (rate * seconds * sample_width_bytes) 0;
  counted = refl;
  cursor = sym (mod-eq_of_lt (grind arith));
  content = λ a lo hi. absurd (omega arith);
}

-- A reset starts the stream again, empty, in the same memory.
pub reset-Holds :
    (r : RingBuffer) (started_at : ℕ) (written : List ℕ)
    → Holds r written
    → Holds (reset r started_at).1 []
unfolding reset
reset-Holds r started_at written h = record {
  positive = h.positive;
  sized = h.sized;
  counted = refl;
  cursor = sym (mod-eq_of_lt h.positive);
  content = λ a lo hi. absurd (omega arith);
}

-- A cleared buffer refuses any data with an error; reopened, with a positive sample rate and
-- length, it holds the empty stream again, in memory of the first size.
reopen-Holds :
    (r : RingBuffer) (now started_at b : ℕ) (pcm : List ℕ)
    → 0 < r.sample_rate
    → 0 < r.seconds
    → ((e : Error) × (append (clear r) now (b ∷ pcm) ≡ err e))
      × Holds (reopen (clear r) started_at) []
unfolding append clear reopen
reopen-Holds r now started_at b pcm p q = (
  elim (Bool-cases (ltb 0 (length (b ∷ pcm) % sample_width_bytes))) [
    | inl odd ↦ (partial_sample, rw (odd))
    | inr even ↦ (zero_division, rw (even))
  ],
  reset-Holds _ started_at [] (record {
    positive = grind arith;
    sized = length-replicate (r.sample_rate * r.seconds * sample_width_bytes) 0;
    counted = refl;
    cursor = sym (mod-eq_of_lt (grind arith));
    content = λ a lo hi. absurd (omega arith);
  }),
)
