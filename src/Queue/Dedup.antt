-- ===== src/Queue/Dedup.antt =====
-- The deduplication window of `send`.
use radio_broadcast_analysis.Prelude.{
  ◌++◌, ℕ, ◌+◌, ◌≤◌, String, false, Option, none, some, [], ◌∷◌, ◌≡◌, refl, inl, inr, arith,
  if◌then◌else◌, leb, All, nat_Eq, string_Eq, eq_iff, str_eq, Bool-cases, Bool, ◌<◌, ltb, suc,
}
use radio_broadcast_analysis.Prelude.Dict.{Dict, get, contains, put, contains-get, get-put}
use radio_broadcast_analysis.Queue.{MemoryQueue, expire_dedup, send, dedup, minted, new_entry}

-- The stamps stand in the order in which they were written, none later than `now`.
abbrev pub IsChronological : ℕ → Dict String ℕ → Type 0
IsChronological now [] = Unit
IsChronological now ((key, stamp) ∷ rest) =
    (stamp ≤ now)
    × (contains rest key ≡ false)
    × All (λ slot. stamp ≤ slot.1) rest
    × IsChronological now rest

pub IsChronological-later :
    (now later : ℕ) (d : Dict String ℕ)
    → now ≤ later
    → IsChronological now d
    → IsChronological later d
IsChronological-later now later [] h c = tt
IsChronological-later now later ((k, t) ∷ d) h c =
    (omega arith, c.1, c.2, IsChronological-later now later d h c.3)

-- The ids that are still inside the window are kept, and the others are forgotten.
unexpired : ℕ → ℕ → Option ℕ → Option ℕ
unexpired window now none = none
unexpired window now (some stamp) = if leb (stamp + window) now then none else some stamp

all_later :
    (w now t : ℕ) (k : String) (d : Dict String ℕ)
    → All (λ slot. t ≤ slot.1) d
    → leb (t + w) now ≡ false
    → unexpired w now (get d k) ≡ get d k
unfolding get unexpired
all_later w now t k [] h lt = refl
all_later w now t k ((j, s) ∷ d) h lt = ground (arith, all_later w now t k d h.1)

get-expire_dedup :
    (window now : ℕ) (d : Dict String ℕ) (k : String)
    → IsChronological now d
    → get (expire_dedup window now d) k ≡ unexpired window now (get d k)
unfolding get expire_dedup unexpired
get-expire_dedup w now [] k c = refl
get-expire_dedup w now ((j, s) ∷ d) k c =
    ground (
      arith,
      eq_iff j k,
      contains-get d k,
      all_later w now s k d c.2,
      get-expire_dedup w now d k c.3,
    )

expire_dedup-IsChronological :
    (window now : ℕ) (d : Dict String ℕ)
    → IsChronological now d
    → IsChronological now (expire_dedup window now d)
unfolding expire_dedup
expire_dedup-IsChronological w now [] c = tt
expire_dedup-IsChronological w now ((j, s) ∷ d) c =
    ground (arith, expire_dedup-IsChronological w now d c.3)

contains-put_ne :
    (d : Dict String ℕ) (j k : String) (v : ℕ)
    → str_eq k j ≡ false
    → contains d j ≡ false
    → contains (put d k v) j ≡ false
unfolding contains put
contains-put_ne [] j k v ne h = ground arith
contains-put_ne ((i, x) ∷ d) j k v ne h = ground (arith, contains-put_ne d j k v ne)

All-le-put :
    (s now : ℕ) (k : String) (d : Dict String ℕ)
    → s ≤ now
    → All (λ slot. s ≤ slot.1) d
    → All (λ slot. s ≤ slot.1) (put d k now)
unfolding put
All-le-put s now k [] h a = (h, tt)
All-le-put s now k ((j, t) ∷ d) h a = ground (arith, All-le-put s now k d h a.1)

-- A new id goes to the end.
put-IsChronological :
    (now : ℕ) (k : String) (d : Dict String ℕ)
    → IsChronological now d
    → contains d k ≡ false
    → IsChronological now (put d k now)
unfolding contains put
put-IsChronological now k [] c n = (omega arith, refl, tt, tt)
put-IsChronological now k ((j, s) ∷ d) c n = ground (
  arith,
  eq_iff j k,
  eq_iff k j,
  contains-put_ne d j k now,
  All-le-put s now k d c.0 c.2,
  put-IsChronological now k d c.3,
)

module _ (q : MemoryQueue) (now : ℕ) (body group id : String) (c : IsChronological now q.seen) where
  -- `send` keeps the ids in the order of their stamps.
  pub send-IsChronological : IsChronological now (send q now body group id).1.seen
  unfolding send
  send-IsChronological = elim (Bool-cases (contains (expire_dedup q.dedup_window now q.seen) id)) [
    | inl old ↦ rw (old) (expire_dedup-IsChronological q.dedup_window now q.seen c)
    | inr new ↦ rw (new) (
        put-IsChronological now id _ (expire_dedup-IsChronological q.dedup_window now q.seen c) new)
  ]

-- The id was stamped less than a window ago.
abbrev pub is_recent : ℕ → ℕ → Option ℕ → Bool
is_recent window at none = false
is_recent window at (some stamp) = ltb at (stamp + window)

contains_later :
    (w now t : ℕ) (k : String) (d : Dict String ℕ)
    → All (λ slot. t ≤ slot.1) d
    → leb (t + w) now ≡ false
    → contains d k ≡ is_recent w now (get d k)
unfolding get contains
contains_later w now t k [] h lt = refl
contains_later w now t k ((j, s) ∷ d) h lt = ground (arith, contains_later w now t k d h.1)

contains-is_recent :
    (window now : ℕ) (d : Dict String ℕ) (k : String)
    → IsChronological now d
    → contains (expire_dedup window now d) k ≡ is_recent window now (get d k)
unfolding get contains expire_dedup
contains-is_recent w now [] k c = refl
contains-is_recent w now ((j, s) ∷ d) k c = ground (
  arith,
  eq_iff j k,
  contains-get d k,
  contains_later w now s k d c.2,
  contains-is_recent w now d k c.3,
)

-- While the stamps are in the order of the clock, `send` refuses exactly the ids stamped within the
-- window, and queues any other message last under the next number; nothing in flight changes.
pub send_window :
    (q : MemoryQueue) (now : ℕ) (body group id : String)
    → IsChronological now q.seen
    → let recent = is_recent q.dedup_window now (get q.seen id) in
      let sent = send q now body group id in
      (sent.0 ≡ (if recent then dedup id else minted (suc q.message_counter)))
      × (sent.1.entries
          ≡ (if recent then q.entries else q.entries ++ new_entry q now body group id ∷ []))
      × (sent.1.in_flight ≡ q.in_flight)
unfolding send
send_window q now body group id c =
    ground (arith, contains-is_recent q.dedup_window now q.seen id c)

-- A stamp inside the window outlives every later `send`.
pub send_remembers :
    (q : MemoryQueue) (now t : ℕ) (body group id j : String)
    → IsChronological now q.seen
    → get q.seen j ≡ some t
    → now < t + q.dedup_window
    → get (send q now body group id).1.seen j ≡ some t
unfolding send unexpired
send_remembers q now t body group id j c g lt = ground (
  arith,
  get-expire_dedup q.dedup_window now q.seen j c,
  get-put (expire_dedup q.dedup_window now q.seen) id j now,
  eq_iff id j,
  contains-get (expire_dedup q.dedup_window now q.seen) id,
)
