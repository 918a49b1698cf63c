-- ===== src/Queue/Delivery.antt =====
-- Which messages `receive` hands out: the oldest of each group, and as many groups as there is room for.
use radio_broadcast_analysis.Prelude.{
  ℕ, zero, suc, ◌+◌, ◌≤◌, ◌<◌, String, true, false, List, [], ◌∷◌, ◌≡◌, ◌⊎◌, refl, sym, ap, subst,
  inl, inr, arith, length, member, All, All-imp, All-zip, All-map, length-map, nat_Eq, string_Eq,
  eq_iff, str_eq, Bool-cases,
}
use radio_broadcast_analysis.Prelude.Dict.{Dict}
use radio_broadcast_analysis.Queue.{
  MemoryQueue, Entry, Handle, values, groups, deliver, select, selection, take_out,
  sort_by_sequence, receive, reclaim_expired, to_message,
}
use radio_broadcast_analysis.Queue.Selection.{
  count_group, All-of-sort, IsSorted, sort_by_sequence-IsSorted,
}
use radio_broadcast_analysis.Queue.Invariant.{IsValid, reclaim-IsValid, selection-Delivered, flown}

-- `x` is the oldest entry of its group in the list.
abbrev IsOldest : List Entry → Entry → Type 0
IsOldest es x = All (λ w. w.group_id ≡ x.group_id → x.sequence ≤ w.sequence) es

module _ (v room : ℕ) (blocked : List String) (e : Entry) (es : List Entry) where
  select-blocked :
      member blocked e.group_id ≡ true
      → select v (suc room) blocked (e ∷ es) ≡ select v (suc room) blocked es
  unfolding select
  select-blocked h = ground arith

  select-fresh :
      member blocked e.group_id ≡ false
      → select v (suc room) blocked (e ∷ es) ≡ deliver v e ∷ select v room (e.group_id ∷ blocked) es
  unfolding select
  select-fresh h = ground arith

select-IsOldest :
    (v room : ℕ) (blocked : List String) (es : List Entry)
    → IsSorted es
    → All (λ x. (member blocked x.group_id ≡ false) × IsOldest es x) (select v room blocked es)
unfolding select deliver
select-IsOldest v zero b es s = tt
select-IsOldest v (suc r) b [] s = tt
select-IsOldest v (suc r) b (e ∷ es) s = elim (Bool-cases (member b e.group_id)) [
  | inl old ↦ subst Good (sym (select-blocked v r b e es old)) (
      All-imp (λ x h. (h.0, ((λ same. cc (old, h.0, ap (member b) same)), h.1)))
        (select v (suc r) b es) (select-IsOldest v (suc r) b es s.1))
  | inr new ↦ subst Good (sym (select-fresh v r b e es new)) (
    (new, ((λ _. omega arith), All-imp (λ w le _. le) es s.0)),
    All-imp
        (λ x h.
          (ground (arith, h.0), ((λ same. ground (arith, eq_iff e.group_id x.group_id, h.0)), h.1)))
        (select v r (e.group_id ∷ b) es) (select-IsOldest v r (e.group_id ∷ b) es s.1),
  )
]
  where
    Good : List Entry → Type 0
    Good = All (λ x. (member b x.group_id ≡ false) × IsOldest (e ∷ es) x)

-- From a well-formed queue, every message that `receive` returns has the lowest number of the
-- waiting messages of its group.
pub receive_oldest :
    (q : MemoryQueue) (now max_messages : ℕ)
    → IsValid q
    → All
        (λ m.
          All
            (λ e. e.group_id ≡ m.group_id → m.message_id ≤ e.message_id)
            (reclaim_expired q now).entries)
        (receive q now max_messages).0
unfolding receive selection
receive_oldest q now room v = All-map _ to_message _ (
    All-zip
      (λ x old given.
        All-zip (λ w le own same. omega (arith, le same)) live.entries
          (All-of-sort _ live.entries old.1) (reclaim-IsValid v now).waiting)
      (selection live now room)
      (select-IsOldest _ room (groups live.in_flight) (sort_by_sequence live.entries)
        (sort_by_sequence-IsSorted live.entries))
      (selection-Delivered (reclaim-IsValid v now) now room))
  where
    live : MemoryQueue
    live = reclaim_expired q now

-- The group of this entry is taken: by the blocked ones, or by one that was selected.
abbrev Served : List String → List Entry → Entry → Type 0
Served blocked selected e =
    (member blocked e.group_id ≡ true) ⊎ (0 < count_group e.group_id selected)

select_full :
    (v room : ℕ) (blocked : List String) (es : List Entry)
    → (length (select v room blocked es) ≡ room)
      ⊎ All (Served blocked (select v room blocked es)) es
unfolding select deliver
select_full v zero b es = inl refl
select_full v (suc r) b [] = inr tt
select_full v (suc r) b (e ∷ es) = elim (Bool-cases (member b e.group_id)) [
  | inl old ↦
      subst Full (sym (select-blocked v r b e es old))
        (elim (select_full v (suc r) b es) [ inl full ↦ inl full | inr all ↦ inr (inl old, all) ])
  | inr new ↦
      subst Full (sym (select-fresh v r b e es new)) (elim (select_full v r (e.group_id ∷ b) es) [
        | inl full ↦ inl (ap suc full)
        | inr all ↦ inr (
          inr (ground (arith, eq_iff e.group_id e.group_id)),
          All-imp (λ w h. ground (arith, eq_iff e.group_id w.group_id, h)) es all,
        )
      ])
]
  where
    Full : List Entry → Type 0
    Full chosen = (length chosen ≡ suc r) ⊎ All (Served b chosen) (e ∷ es)

member-groups :
    (g : String) (d : Dict Handle Entry) → member (groups d) g ≡ true → 0 < count_group g (values d)
member-groups g [] h = absurd (cc)
member-groups g ((k, e) ∷ d) h = ground (arith, member-groups g d)

-- From a well-formed queue, `receive` either returns `max_messages` messages or leaves a message in
-- flight for every group that had one waiting.
pub receive_serves :
    (q : MemoryQueue) (now max_messages : ℕ)
    → IsValid q
    → (length (receive q now max_messages).0 ≡ max_messages)
      ⊎ All
          (λ e. 0 < count_group e.group_id (values (receive q now max_messages).1.in_flight))
          (reclaim_expired q now).entries
unfolding receive selection take_out
receive_serves q now room v =
    elim (select_full (now + live.visibility_seconds) room (groups live.in_flight)
      (sort_by_sequence live.entries)) [
        | inl full ↦ inl (omega (arith, length-map to_message (selection live now room), full))
        | inr all ↦ inr (
            All-imp
              (λ e served. ground (
                arith,
                served,
                (flown (reclaim-IsValid v now) now room (λ x. str_eq x.group_id e.group_id)).1,
                member-groups e.group_id live.in_flight,
              ))
              live.entries (All-of-sort _ live.entries all))
      ]
  where
    live : MemoryQueue
    live = reclaim_expired q now
