-- ===== src/RingBuffer/Reading.antt =====
-- Reading back: the slices of the stream that `tail` and `window` return.
use radio_broadcast_analysis.Prelude.{
  zero, suc, refl, sym, ℕ, ◌+◌, ◌-◌, ◌%◌, ◌≤◌, ◌<◌, ◌||◌, List, [], ◌++◌, ◌≡◌, ap, inl, inr, arith,
  if◌then◌else◌, ltb, leb, take, drop, get_elem?, length-drop, nat_Eq, string_Eq, Bool-cases,
  length, Bool, ◌∷◌, min, max, false, ◌∙◌, true,
}
use native.Mathlib.Nat.{mod-lt}
use radio_broadcast_analysis.RingBuffer.{
  RingBuffer, ok, err, out_of_range, floor, read_absolute, tail, window_at, window, to_window,
  available_bytes, ℤ, ms_to_bytes, pos_part, PcmWindow, bytes_to_ms, le_ints,
}
use radio_broadcast_analysis.RingBuffer.Slices.{
  get_elem?-append, get_elem?-take, get_elem?-drop, list_ext,
}
use radio_broadcast_analysis.RingBuffer.Refinement.{Holds, mod_cases}

-- The bytes of the stream from `start` up to `end`.
abbrev pub slice : List ℕ → ℕ → ℕ → List ℕ
slice written start end = take (end - start) (drop start written)

module _ (r : RingBuffer) (written : List ℕ) (h : Holds r written) where
  -- One byte of a slice, straight or round the end.
  straight :
      (start size i : ℕ)
      → floor r ≤ start
      → start + size ≤ r.total
      → start % r.capacity + size ≤ r.capacity
      → get_elem? (take size (drop (start % r.capacity) r.buffer)) i
        ≡ get_elem? (take size (drop start written)) i
  straight start size i lo hi fits = elim (Bool-cases (ltb i size)) [
    | inl inside ↦
        let at : (start + i) % r.capacity ≡ start % r.capacity + i =
          ground (arith, mod_cases start i r.capacity h.positive) in
        ground (
          arith,
          get_elem?-take size (drop (start % r.capacity) r.buffer) i,
          get_elem?-take size (drop start written) i,
          get_elem?-drop (start % r.capacity) r.buffer i,
          get_elem?-drop start written i,
          ap (get_elem? r.buffer) at,
          h.content (start + i),
        )
    | inr outside ↦ ground (
      arith,
      get_elem?-take size (drop (start % r.capacity) r.buffer) i,
      get_elem?-take size (drop start written) i,
    )
  ]

  wrapped :
      (start size i : ℕ)
      → floor r ≤ start
      → start + size ≤ r.total
      → r.capacity < start % r.capacity + size
      → get_elem?
          (drop (start % r.capacity) r.buffer
            ++ take (size - (r.capacity - start % r.capacity)) r.buffer)
          i
        ≡ get_elem? (take size (drop start written)) i
  wrapped start size i lo hi past = elim (Bool-cases (ltb i size)) [
    | inl inside ↦ elim (Bool-cases (ltb (start % r.capacity + i) r.capacity)) [
      | inl near ↦
          let at : (start + i) % r.capacity ≡ start % r.capacity + i =
            ground (arith, mod_cases start i r.capacity h.positive) in
          ground (
            arith,
            h.sized,
            length-drop (start % r.capacity) r.buffer,
            get_elem?-append (drop (start % r.capacity) r.buffer)
                (take (size - (r.capacity - start % r.capacity)) r.buffer) i,
            get_elem?-take size (drop start written) i,
            get_elem?-drop (start % r.capacity) r.buffer i,
            get_elem?-drop start written i,
            ap (get_elem? r.buffer) at,
            h.content (start + i),
          )
      | inr far ↦
          let at : (start + i) % r.capacity ≡ i - (r.capacity - start % r.capacity) = ground (
            arith,
            mod-lt start {m = r.capacity} h.positive,
            mod_cases start i r.capacity h.positive,
          ) in
          ground (
            arith,
            h.sized,
            mod-lt start {m = r.capacity} h.positive,
            length-drop (start % r.capacity) r.buffer,
            get_elem?-append (drop (start % r.capacity) r.buffer)
                (take (size - (r.capacity - start % r.capacity)) r.buffer) i,
            get_elem?-take size (drop start written) i,
            get_elem?-take (size - (r.capacity - start % r.capacity)) r.buffer
                (i - (r.capacity - start % r.capacity)),
            get_elem?-drop start written i,
            ap (get_elem? r.buffer) at,
            h.content (start + i),
          )
    ]
    | inr outside ↦ ground (
      arith,
      h.sized,
      mod-lt start {m = r.capacity} h.positive,
      length-drop (start % r.capacity) r.buffer,
      get_elem?-append (drop (start % r.capacity) r.buffer)
          (take (size - (r.capacity - start % r.capacity)) r.buffer) i,
      get_elem?-take size (drop start written) i,
      get_elem?-take (size - (r.capacity - start % r.capacity)) r.buffer
          (i - (r.capacity - start % r.capacity)),
    )
  ]

  -- A buffer that holds a stream reads any interval inside the retained range as the bytes of the
  -- stream, and any other interval that is not empty as an error.
  pub read_absolute_lem :
      (start end : ℕ)
      → read_absolute r start end ≡ (
          if leb end start
          then ok []
          else if ltb start (floor r) || ltb r.total end
          then err out_of_range
          else ok (slice written start end))
  unfolding read_absolute
  read_absolute_lem start end = elim (Bool-cases (leb end start)) [
    | inl none_asked ↦ rw (none_asked)
    | inr asked ↦ elim (Bool-cases (ltb start (floor r) || ltb r.total end)) [
      | inl outside ↦ rw (asked, outside)
      | inr inside ↦ elim (Bool-cases (leb (start % r.capacity + (end - start)) r.capacity)) [
        | inl fits ↦
            let same =
              list_ext (take (end - start) (drop (start % r.capacity) r.buffer))
                (slice written start end)
                (λ i.
                  straight start (end - start) i (ground arith) (ground arith) (ground arith)) in
            ground (arith, h.positive, same)
        | inr past ↦
            let same =
              list_ext
                (drop (start % r.capacity) r.buffer
                  ++ take (end - start - (r.capacity - start % r.capacity)) r.buffer)
                (slice written start end)
                (λ i. wrapped start (end - start) i (ground arith) (ground arith) (ground arith)) in
            ground (arith, h.positive, same)
      ]
    ]
  ]

take_all {ℓ} : {A : Type ℓ} (n : ℕ) (xs : List A) → length xs ≤ n → take n xs ≡ xs
take_all zero [] h = refl
take_all zero (x ∷ xs) h = absurd (omega arith)
take_all (suc n) [] h = refl
take_all (suc n) (x ∷ xs) h = ap (◌∷◌ x) (take_all n xs (omega arith))

module _ (r : RingBuffer) (written : List ℕ) (h : Holds r written) where
  window_at_lem :
      (start end : ℕ) (cut : Bool)
      → floor r ≤ start
      → end ≤ r.total
      → window_at r start end cut ≡ to_window r start end cut (ok (slice written start end))
  unfolding window_at
  window_at_lem start end cut lo hi = elim (Bool-cases (leb end start)) [
    | inl none_asked ↦
        let zero_size : end - start ≡ 0 = ground arith in
        ap (to_window r start end cut) {y = ok (slice written start end)} (
          ground (
            arith,
            read_absolute_lem r written h start end,
            ap (λ n. take n (drop start written)) zero_size,
          ))
    | inr asked ↦
        ap (to_window r start end cut) {y = ok (slice written start end)}
          (ground (arith, read_absolute_lem r written h start end))
  ]

  -- On a buffer that holds a stream, `tail` always returns the last bytes of the stream: as many as
  -- it was asked for, or all that the buffer holds, and `truncated` says which.
  tail_lem :
      (milliseconds : ℕ)
      → let wanted = ms_to_bytes r milliseconds in
        let held = min (length written) r.capacity in
        (w : PcmWindow) × (tail r milliseconds ≡ ok w)
        × (w.pcm ≡ drop (length written - min wanted held) written)
        × (w.truncated ≡ ltb held wanted)
        × (w.generation ≡ r.generation)
  unfolding tail to_window available_bytes
  tail_lem milliseconds = (
    record {
      pcm = slice written start r.total;
      sample_rate = r.sample_rate;
      start_offset_ms = bytes_to_ms r start;
      started_at = r.generation_started_at + bytes_to_ms r start;
      ended_at = r.generation_started_at + bytes_to_ms r r.total;
      generation = r.generation;
      truncated = ltb size wanted;
    },
    window_at_lem start r.total (ltb size wanted) (omega arith) (omega arith),
    take_all (r.total - start) (drop start written)
          (omega (arith, length-drop {0} start written, h.counted))
        ∙ ap (λ n. drop n written) (omega (arith, h.counted)),
    ground (arith, h.counted),
    refl,
  )
    where
      wanted : ℕ
      wanted = ms_to_bytes r milliseconds

      size : ℕ
      size = min wanted (min r.total r.capacity)

      start : ℕ
      start = r.total - size

  -- On a buffer that holds a stream, `window` always returns the bytes of the stream between its
  -- offsets, less those that are no longer or not yet held. An interval that ends where it starts,
  -- or before, yields nothing and is not truncated. Of any other, `truncated` is set if no byte
  -- between its offsets is held, also where there is none in the stream at all, as before its
  -- beginning; or else if bytes at one of its ends are left out, and only then.
  pub window_lem :
      (start_offset_ms end_offset_ms : ℤ)
      → let asked_start = ms_to_bytes r (pos_part start_offset_ms) in
        let asked_end = ms_to_bytes r (pos_part end_offset_ms) in
        let start = max asked_start (length written - r.capacity) in
        let end = min asked_end (length written) in
        let empty = le_ints end_offset_ms start_offset_ms in
        (w : PcmWindow) × (window r start_offset_ms end_offset_ms ≡ ok w)
        × (w.pcm ≡ (if empty then [] else slice written start end))
        × (w.truncated ≡ (
            if empty then false else leb end start || (ltb asked_start start || ltb end asked_end)))
        × (w.generation ≡ r.generation)
  unfolding window to_window
  window_lem a b = elim (Bool-cases (le_ints b a)) [
    | inl backwards ↦ (
      at r.total r.total false,
      rw (backwards) (window_at_lem r.total r.total false (omega arith) (omega arith)),
      rw (backwards) (ap (λ n. take n (drop r.total written)) (sub_self r.total)),
      rw (backwards),
      refl,
    )
    | inr forwards ↦ elim (Bool-cases (leb end start)) [
      | inl none_held ↦
          let zero_size : end' - start' ≡ 0 = ground (arith, h.counted) in
          (
            at r.total r.total true,
            rw (forwards, none_held)
                (window_at_lem r.total r.total true (omega arith) (omega arith)),
            rw (forwards) (
                ap (λ n. take n (drop r.total written)) (sub_self r.total)
                ∙ sym (ap (λ n. take n (drop start' written)) zero_size)),
            ground (arith, h.counted),
            refl,
          )
      | inr some_held ↦ (
        at start end (ltb asked_start start || ltb end asked_end),
        rw (forwards, some_held)
            (window_at_lem start end (ltb asked_start start || ltb end asked_end) (omega arith)
              (omega arith)),
        rw (forwards) (
            ap (λ n. slice written (max asked_start (n - r.capacity)) (min asked_end n)) h.counted),
        ground (arith, h.counted),
        refl,
      )
    ]
  ]
    where
      asked_start : ℕ
      asked_start = ms_to_bytes r (pos_part a)

      asked_end : ℕ
      asked_end = ms_to_bytes r (pos_part b)

      start : ℕ
      start = max asked_start (floor r)

      end : ℕ
      end = min asked_end r.total

      start' : ℕ
      start' = max asked_start (length written - r.capacity)

      end' : ℕ
      end' = min asked_end (length written)

      sub_self : (n : ℕ) → n - n ≡ 0
      sub_self n = omega arith

      at : ℕ → ℕ → Bool → PcmWindow
      at from to cut = record {
        pcm = slice written from to;
        sample_rate = r.sample_rate;
        start_offset_ms = bytes_to_ms r from;
        started_at = r.generation_started_at + bytes_to_ms r from;
        ended_at = r.generation_started_at + bytes_to_ms r to;
        generation = r.generation;
        truncated = cut;
      }
