-- ===== src/Supervisor/Turns.antt =====
-- The end of a listening turn.
use radio_broadcast_analysis.Prelude.{
  ℕ, zero, suc, ◌+◌, ◌≤◌, min, String, Bool, true, false, List, [], ◌∷◌, ◌≡◌, refl, ap, inl, inr,
  arith, ltb, leb, count, All, nat_Eq, string_Eq, eq_iff, Bool-cases, if_both, if_cases,
}
use radio_broadcast_analysis.Prelude.Dict.{
  get, contains, Unique, contains-pop, contains-pop_none, pop-Unique,
}
use radio_broadcast_analysis.Prelude.Sort.{sort_by, count-sort_by, All-sort_by_inv}
use radio_broadcast_analysis.Supervisor.{
  hand_over, Settings, Slot, Supervisor, stop_session, is_expired, keyword_dwell_holds,
  rotate_turns, rotate_expired_turns, older,
}

module _ {C : Type 0} (settings : Settings) (now : ℕ) where
  -- The turn in a slot is over.
  abbrev pub is_over : Supervisor C → String × Slot C → Bool
  is_over u (id, slot) = is_expired settings now id slot.session u

  -- Every slot of the station, if there is one, goes on.
  abbrev pub GoesOn : Supervisor C → String → List (String × Slot C) → Type 0
  GoesOn u id = All (λ slot. slot.0 ≡ id → is_over u slot ≡ false)

  -- A turn that ends does not change whether another one is over.
  is_over-hand_over : (id : String) (u : Supervisor C) → is_over (hand_over now id u) ≡ is_over u
  unfolding is_expired keyword_dwell_holds
  is_over-hand_over id u = refl

  abbrev Rotated : ℕ → List (String × Slot C) → Supervisor C → ℕ × Supervisor C → Type 0
  Rotated left candidates u (rotated, u') =
      (rotated ≡ min left (count (is_over u) candidates))
      × ((id : String) → GoesOn u id candidates → get u'.sessions id ≡ get u.sessions id)

  rotate_turns-gone :
      (left : ℕ) (candidates : List (String × Slot C)) (u : Supervisor C) (id : String)
      → contains u.sessions id ≡ false
      → contains (rotate_turns settings now left candidates u).1.sessions id ≡ false
  unfolding rotate_turns stop_session
  rotate_turns-gone zero candidates u id h = h
  rotate_turns-gone (suc left) [] u id h = h
  rotate_turns-gone (suc left) ((j, slot) ∷ candidates) u id h =
      let u2 = hand_over now j u in
      let k = rotate_turns-gone (suc left) candidates u id h in
      let k2 = rotate_turns-gone left candidates u2 id (contains-pop_none u.sessions j id h) in
      let r1 = rotate_turns settings now (suc left) candidates u in
      let r2 = rotate_turns settings now left candidates u2 in
      if_both (λ r. contains r.1.sessions id ≡ false) (is_over u (j, slot)) (suc r2.0, r2.1) r1 k2 k

  -- The session has had the longest turn that the settings allow.
  abbrev pub at_ceiling : String × Slot C → Bool
  at_ceiling (id, slot) = leb (slot.session.status.started_at + settings.max_slice_ms) now

  at_ceiling-over :
      (u : Supervisor C) (slot : String × Slot C)
      → settings.slice_ms ≤ settings.max_slice_ms
      → at_ceiling slot ≡ true
      → is_over u slot ≡ true
  unfolding is_expired
  at_ceiling-over u (id, slot) ordered h =
      let started = slot.session.status.started_at in
      let a : ltb now (started + settings.slice_ms) ≡ false = ground (arith, h) in
      let b : ltb now (started + settings.max_slice_ms) ≡ false = ground (arith, h) in
      rw (a, b) refl

  -- The stations of the candidates at the ceiling are gone.
  abbrev pub Freed : List (String × Slot C) → Supervisor C → Type 0
  Freed candidates u' =
      All (λ slot. at_ceiling slot ≡ true → contains u'.sessions slot.0 ≡ false) candidates

  rotate_turns-ceiling :
      (left : ℕ) (candidates : List (String × Slot C)) (u : Supervisor C)
      → settings.slice_ms ≤ settings.max_slice_ms
      → Unique u.sessions
      → count (is_over u) candidates ≤ left
      → Freed candidates (rotate_turns settings now left candidates u).1
  unfolding rotate_turns stop_session
  rotate_turns-ceiling zero candidates u ordered unique enough = none_over candidates enough
    where
      none_over :
          (candidates : List (String × Slot C))
          → count (is_over u) candidates ≤ 0
          → Freed candidates u
      none_over [] enough = tt
      none_over (slot ∷ candidates) enough = elim (Bool-cases (is_over u slot)) [
        | inl over ↦
            let e : count (is_over u) (slot ∷ candidates) ≡ suc (count (is_over u) candidates) =
              rw (over) refl in
            absurd (omega (arith, e, enough))
        | inr goes_on ↦
            let e : count (is_over u) (slot ∷ candidates) ≡ count (is_over u) candidates =
              rw (goes_on) refl in
            (
              λ h. let over = at_ceiling-over u slot ordered h in absurd cc,
              none_over candidates (omega (arith, e, enough)),
            )
      ]
  rotate_turns-ceiling (suc left) [] u ordered unique enough = tt
  rotate_turns-ceiling (suc left) ((j, slot) ∷ candidates) u ordered unique enough =
      let u2 = hand_over now j u in
      let same = ap (λ f. count f candidates) (is_over-hand_over j u) in
      let r1 = rotate_turns settings now (suc left) candidates u in
      let r2 = rotate_turns settings now left candidates u2 in
      if_cases (λ r. Freed ((j, slot) ∷ candidates) r.1) (is_over u (j, slot)) (suc r2.0, r2.1) r1
        (λ over.
          let e : count (is_over u) ((j, slot) ∷ candidates) ≡ suc (count (is_over u) candidates) =
            rw (over) refl in
          let gone : contains u2.sessions j ≡ false =
            ground (arith, contains-pop u.sessions j j unique, (eq_iff j j).1 refl) in
          (
            λ h. rotate_turns-gone left candidates u2 j gone,
            rotate_turns-ceiling left candidates u2 ordered (pop-Unique u.sessions j unique)
                (omega (arith, e, same, enough)),
          ))
        (λ goes_on.
          let e : count (is_over u) ((j, slot) ∷ candidates) ≡ count (is_over u) candidates =
            rw (goes_on) refl in
          (
            λ h. let over = at_ceiling-over u (j, slot) ordered h in absurd cc,
            rotate_turns-ceiling (suc left) candidates u ordered unique (omega (arith, e, enough)),
          ))

  -- No station holds a slot for longer than the longest turn while enough others wait: each one
  -- whose session has reached the ceiling, talking or not, is stopped.
  pub rotate_expired_turns-ceiling :
      (waiting_count : ℕ) (u : Supervisor C)
      → settings.slice_ms ≤ settings.max_slice_ms
      → Unique u.sessions
      → count (is_over u) u.sessions ≤ waiting_count
      → Freed u.sessions (rotate_expired_turns settings now waiting_count u).1
  unfolding rotate_expired_turns
  rotate_expired_turns-ceiling waiting_count u ordered unique enough =
      let u' = (rotate_expired_turns settings now waiting_count u).1 in
      All-sort_by_inv older (λ slot. at_ceiling slot ≡ true → contains u'.sessions slot.0 ≡ false)
        u.sessions
        (rotate_turns-ceiling waiting_count (sort_by older u.sessions) u ordered unique
          (omega (arith, enough, count-sort_by older (is_over u) u.sessions)))
