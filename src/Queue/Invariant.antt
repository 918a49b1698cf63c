-- ===== src/Queue/Invariant.antt =====
-- The well-formedness of the queue, which every operation keeps, and the conservation of messages.
use radio_broadcast_analysis.Prelude.{
  ℕ, ◌+◌, ◌≤◌, ◌<◌, String, List, [], ◌∷◌, map, ◌≡◌, refl, arith, nat_eq, filterb, All, All-append,
  All-filterb, count-append, nat_Eq, string_Eq, str_eq, Bool, member, Bool-cases, count, false,
  true, inl, inr, suc,
}
use radio_broadcast_analysis.Prelude.Dict.{Dict, contains}
use radio_broadcast_analysis.Queue.{
  MemoryQueue, Entry, Handle, values, is_lapsed, surrender, init, reclaim_expired, handle_Eq,
  delete, extend_visibility, receive, selection, send, take_out, groups, put_all, sort_by_sequence,
  expire_dedup, new_entry,
}
use radio_broadcast_analysis.Queue.Selection.{
  count_seq, count_group, All-remove_all, count_group-select-le, count_seq-remove_all,
  count_seq-select-le, All-sort_by_sequence, count-sort_by_sequence,
}
use radio_broadcast_analysis.Queue.Storage.{
  Waiting, Flying, count-reclaim, count-kept-le, surrender-Waiting, Delivered, Flying-pop,
  Flying-set_visible, count-set_visible, count-pop-le, select-Delivered, put_all_lem, Waiting-mono,
  Flying-mono,
}

-- How often a sequence number is in the queue, waiting or in flight.
abbrev pub held : ℕ → MemoryQueue → ℕ
held s q = count_seq s q.entries + count_seq s (values q.in_flight)

pub record IsValid (q : MemoryQueue) : Type 0 where
  pub numbered : q.message_counter ≡ q.sequence
  pub waiting : All (Waiting q.sequence) q.entries
  pub flying : All (Flying q.sequence) q.in_flight
  pub distinct : (s : ℕ) → held s q ≤ 1
  pub exclusive : (g : String) → count_group g (values q.in_flight) ≤ 1

pub IsValid-init : (visibility window : ℕ) → IsValid (init visibility window)
IsValid-init visibility window = record {
  numbered = refl;
  waiting = tt;
  flying = tt;
  distinct = λ s. omega arith;
  exclusive = λ g. omega arith;
}

-- Nothing that waits or flies has a number that is yet to be given.
above_none : (s n : ℕ) (es : List Entry) → All (Waiting n) es → n < s → count_seq s es ≡ 0
above_none s n [] h lt = refl
above_none s n (e ∷ es) h lt = ground (arith, above_none s n es h.1)

above_none-Flying :
    (s n : ℕ) (d : Dict Handle Entry) → All (Flying n) d → n < s → count_seq s (values d) ≡ 0
above_none-Flying s n [] h lt = refl
above_none-Flying s n ((k, e) ∷ d) h lt = ground (arith, above_none-Flying s n d h.1)

module _ {q : MemoryQueue} (v : IsValid q) where
  pub reclaim-held : (now s : ℕ) → held s (reclaim_expired q now) ≡ held s q
  unfolding reclaim_expired
  reclaim-held now s = omega (
    arith,
    count-append (λ e. nat_eq e.sequence s) q.entries
        (map surrender (filterb (is_lapsed now) q.in_flight)),
    count-reclaim now s q.in_flight,
  )

  pub reclaim-IsValid : (now : ℕ) → IsValid (reclaim_expired q now)
  unfolding reclaim_expired
  reclaim-IsValid now = record {
    numbered = v.numbered;
    waiting =
        All-append (Waiting q.sequence) q.entries _ v.waiting
          (surrender-Waiting now q.sequence q.in_flight v.flying);
    flying = All-filterb (Flying q.sequence) _ q.in_flight v.flying;
    distinct = λ s. omega (arith, reclaim-held now s, v.distinct s);
    exclusive =
        λ g. omega (arith, count-kept-le now (λ e. str_eq e.group_id g) q.in_flight, v.exclusive g);
  }

not-member-groups :
    (g : String) (d : Dict Handle Entry)
    → member (groups d) g ≡ false
    → count_group g (values d) ≡ 0
not-member-groups g [] h = refl
not-member-groups g ((k, e) ∷ d) h = ground (arith, not-member-groups g d)

module _ {q : MemoryQueue} (v : IsValid q) (now room : ℕ) where
  pub selection-Delivered : All (Delivered q.sequence) (selection q now room)
  unfolding selection
  selection-Delivered =
      select-Delivered q.sequence _ room _ (sort_by_sequence q.entries)
        (All-sort_by_sequence (Waiting q.sequence) q.entries v.waiting)

  pub selection-le : (s : ℕ) → count_seq s (selection q now room) ≤ count_seq s q.entries
  unfolding selection
  selection-le s = omega (
    arith,
    count_seq-select-le s (now + q.visibility_seconds) room (groups q.in_flight)
        (sort_by_sequence q.entries),
    count-sort_by_sequence (λ e. nat_eq e.sequence s) q.entries,
  )

  selection-exclusive :
      (g : String) → count_group g (values q.in_flight) + count_group g (selection q now room) ≤ 1
  unfolding selection
  selection-exclusive g = ground (
    arith,
    v.exclusive g,
    not-member-groups g q.in_flight,
    count_group-select-le g (now + q.visibility_seconds) room (groups q.in_flight)
        (sort_by_sequence q.entries),
  )

  pub flown :
      (p : Entry → Bool)
      → All (Flying q.sequence) (put_all q.in_flight (selection q now room))
        × (count p (values (put_all q.in_flight (selection q now room)))
            ≡ count p (values q.in_flight) + count p (selection q now room))
  flown p =
      put_all_lem q.sequence p q.in_flight (selection q now room) v.flying selection-Delivered
        (λ s. omega (arith, v.distinct s, selection-le s))

  take_out-held : (s : ℕ) → held s (take_out q (selection q now room)) ≡ held s q
  unfolding take_out
  take_out-held s = omega (
    arith,
    (flown (λ e. nat_eq e.sequence s)).1,
    count_seq-remove_all (selection q now room) q.entries selection-le s,
  )

  pub take_out-IsValid : IsValid (take_out q (selection q now room))
  unfolding take_out
  take_out-IsValid = record {
    numbered = v.numbered;
    waiting = All-remove_all (Waiting q.sequence) (selection q now room) q.entries v.waiting;
    flying = (flown (λ e. true)).0;
    distinct = λ s. omega (arith, take_out-held s, v.distinct s);
    exclusive = λ g. omega (arith, (flown (λ e. str_eq e.group_id g)).1, selection-exclusive g);
  }

module _ {q : MemoryQueue} (v : IsValid q) where
  -- `receive` leaves a valid queue.
  pub receive-IsValid : (now room : ℕ) → IsValid (receive q now room).1
  unfolding receive
  receive-IsValid now room = take_out-IsValid (reclaim-IsValid v now) now room

  -- `receive` moves messages and neither loses nor makes one.
  pub receive-held : (now room s : ℕ) → held s (receive q now room).1 ≡ held s q
  unfolding receive
  receive-held now room s =
      omega (arith, take_out-held (reclaim-IsValid v now) now room s, reclaim-held v now s)

  pub delete-IsValid : (h : Handle) → IsValid (delete q h)
  unfolding delete
  delete-IsValid h = record {
    numbered = v.numbered;
    waiting = v.waiting;
    flying = Flying-pop q.sequence q.in_flight h v.flying;
    distinct =
        λ s. omega (arith, count-pop-le (λ e. nat_eq e.sequence s) q.in_flight h, v.distinct s);
    exclusive =
        λ g. omega (arith, count-pop-le (λ e. str_eq e.group_id g) q.in_flight h, v.exclusive g);
  }

  pub extend_visibility-held :
      (now seconds s : ℕ) (h : Handle) → held s (extend_visibility q now h seconds) ≡ held s q
  unfolding extend_visibility
  extend_visibility-held now seconds s h = omega (
    arith,
    count-set_visible (λ e. nat_eq e.sequence s) q.in_flight h (now + seconds) (λ e. refl),
  )

  pub extend_visibility-IsValid :
      (now seconds : ℕ) (h : Handle) → IsValid (extend_visibility q now h seconds)
  unfolding extend_visibility
  extend_visibility-IsValid now seconds h = record {
    numbered = v.numbered;
    waiting = v.waiting;
    flying = Flying-set_visible q.sequence q.in_flight h (now + seconds) v.flying;
    distinct = λ s. omega (arith, extend_visibility-held now seconds s h, v.distinct s);
    exclusive = λ g. omega (
      arith,
      count-set_visible (λ e. str_eq e.group_id g) q.in_flight h (now + seconds) (λ e. refl),
      v.exclusive g,
    );
  }

  pub send-IsValid : (now : ℕ) (body group dedup : String) → IsValid (send q now body group dedup).1
  unfolding send
  send-IsValid now body group dedup =
      elim (Bool-cases (contains (expire_dedup q.dedup_window now q.seen) dedup)) [
        | inl old ↦ rw old (record {
          numbered = v.numbered;
          waiting = v.waiting;
          flying = v.flying;
          distinct = v.distinct;
          exclusive = v.exclusive;
        })
        | inr new ↦ rw new (record {
          numbered = omega (arith, v.numbered);
          waiting =
              All-append (Waiting (suc q.sequence)) q.entries _
                (Waiting-mono q.sequence (suc q.sequence) q.entries (omega arith) v.waiting)
                ((omega (arith, v.numbered), omega arith, refl), tt);
          flying = Flying-mono q.sequence (suc q.sequence) q.in_flight (omega arith) v.flying;
          distinct = λ s. ground (
            arith,
            v.distinct s,
            count-append (λ e. nat_eq e.sequence s) q.entries
                (new_entry q now body group dedup ∷ []),
            above_none s q.sequence q.entries v.waiting,
            above_none-Flying s q.sequence q.in_flight v.flying,
          );
          exclusive = v.exclusive;
        })
      ]

  pub send-held :
      (now s : ℕ) (body group dedup : String)
      → s ≤ q.sequence
      → held s (send q now body group dedup).1 ≡ held s q
  unfolding send
  send-held now s body group dedup h = ground (
    arith,
    count-append (λ e. nat_eq e.sequence s) q.entries (new_entry q now body group dedup ∷ []),
  )
