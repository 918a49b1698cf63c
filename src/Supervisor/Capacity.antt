-- ===== src/Supervisor/Capacity.antt =====
-- How many sessions run after `reconcile`, and for which stations.
use radio_broadcast_analysis.Prelude.{
  ℕ, zero, suc, ◌+◌, ◌-◌, ◌≤◌, String, not, Option, none, some, List, [], ◌∷◌, map, ◌≡◌, refl, ◌∙◌,
  arith, nat_eq, length, filterb, length-map, length-take, length-filterb-le, nat_Eq, string_Eq,
  if_both,
}
use radio_broadcast_analysis.Prelude.Dict.{
  Dict, get, put, contains, length-put-le, length-put-present, length-pop-le,
}
use radio_broadcast_analysis.Prelude.Sort.{sort_by}
use radio_broadcast_analysis.Stream.{StationPlan}
use radio_broadcast_analysis.Supervisor.{
  Settings, Slot, Supervisor, stop_session, hand_over, is_expired, rotate_turns,
  rotate_expired_turns, older, reap_finished, idle_counts,
}
use radio_broadcast_analysis.Supervisor.Reconcile.{
  start_session, start_all, stop_unwanted, adopt_all, converge, wanted_from, waiting_in, fairer,
  admit, adopt, make_room, next_in_line, reconcile, converge_on,
}

module _ {C : Type 0} (settings : Settings) (classifier_factory : String → C)
    (new_id : String → ℕ → String) where
  rotate_turns-length :
      (now left : ℕ) (candidates : List (String × Slot C)) (u : Supervisor C)
      → length (rotate_turns settings now left candidates u).1.sessions ≤ length u.sessions
  unfolding rotate_turns stop_session
  rotate_turns-length now zero candidates u = omega arith
  rotate_turns-length now (suc left) [] u = omega arith
  rotate_turns-length now (suc left) ((j, slot) ∷ candidates) u =
      let u2 = hand_over now j u in
      let r1 = rotate_turns settings now (suc left) candidates u in
      let r2 = rotate_turns settings now left candidates u2 in
      let k1 = rotate_turns-length now (suc left) candidates u in
      let k2 = rotate_turns-length now left candidates u2 in
      if_both (λ r. length r.1.sessions ≤ length u.sessions)
        (is_expired settings now j slot.session u) (suc r2.0, r2.1) r1
        (omega (arith, k2, length-pop-le u.sessions j)) k1

  start_all-length :
      (now : ℕ) (plans : List StationPlan) (u : Supervisor C)
      → length (start_all settings classifier_factory new_id now plans u).sessions
        ≤ length u.sessions + length plans
  unfolding start_all start_session
  start_all-length now [] u = omega arith
  start_all-length now (plan ∷ plans) u =
      let u' = start_session settings classifier_factory new_id now plan u in
      let u2 = record u' { last_served = put u'.last_served plan.station_id now } in
      omega (arith, start_all-length now plans u2, length-put-le u.sessions plan.station_id _)

  stop_unwanted-length :
      (wanted : Dict String StationPlan) (slots : List (String × Slot C)) (u : Supervisor C)
      → length (stop_unwanted wanted slots u).1.sessions ≤ length u.sessions
  unfolding stop_unwanted stop_session
  stop_unwanted-length wanted [] u = omega arith
  stop_unwanted-length wanted ((j, slot) ∷ slots) u =
      let u2 = stop_session j u in
      let r1 = stop_unwanted wanted slots u in
      let r2 = stop_unwanted wanted slots u2 in
      let k1 = stop_unwanted-length wanted slots u in
      let k2 = stop_unwanted-length wanted slots u2 in
      if_both (λ r. length r.1.sessions ≤ length u.sessions) (contains wanted j) r1 (suc r2.0, r2.1)
        k1 (omega (arith, k2, length-pop-le u.sessions j))

  adopt-length :
      (id : String) (plan : StationPlan) (u : Supervisor C)
      → length (adopt id plan (get u.sessions id) u).sessions ≡ length u.sessions
  adopt-length id plan u = over (get u.sessions id) refl
    where
      over :
          (slot : Option (Slot C))
          → get u.sessions id ≡ slot
          → length (adopt id plan slot u).sessions ≡ length u.sessions
      over none e = refl
      over (some slot) e = length-put-present u.sessions id _ slot e

  adopt_all-length :
      (wanted : Dict String StationPlan) (u : Supervisor C)
      → length (adopt_all wanted u).sessions ≡ length u.sessions
  unfolding adopt_all
  adopt_all-length [] u = refl
  adopt_all-length ((id, plan) ∷ wanted) u =
      adopt_all-length wanted (adopt id plan (get u.sessions id) u) ∙ adopt-length id plan u

  converge-length :
      (wanted : Dict String StationPlan) (keyword_hits : Option (Dict String ℕ)) (u : Supervisor C)
      → length (converge wanted keyword_hits u).1.sessions ≤ length u.sessions
  unfolding converge
  converge-length wanted keyword_hits u =
      let u1 = record u {
        keyword_hits = elim keyword_hits [ none ↦ u.keyword_hits | some hits ↦ hits ];
      } in
      let u2 = (stop_unwanted wanted u.sessions u1).1 in
      let u3 = record u2 { last_served = filterb (λ (id, _). contains wanted id) u2.last_served } in
      omega (arith, adopt_all-length wanted u3, stop_unwanted-length wanted u.sessions u1)

  make_room-length :
      (now : ℕ) (waiting : Dict String StationPlan) (u : Supervisor C)
      → length (make_room settings classifier_factory new_id now waiting u).1.sessions
        ≤ length u.sessions
  unfolding make_room rotate_expired_turns
  make_room-length now waiting u =
      if_both (λ r. length r.1.sessions ≤ length u.sessions) (nat_eq (length waiting) 0) (0, u)
        (rotate_turns settings now (length waiting) (sort_by older u.sessions) u) (omega arith)
        (rotate_turns-length now (length waiting) (sort_by older u.sessions) u)

  admit-capacity :
      (now : ℕ) (waiting : Dict String StationPlan) (u : Supervisor C)
      → length u.sessions ≤ settings.max_sessions
      → length (admit settings classifier_factory new_id now waiting u).2.sessions
        ≤ settings.max_sessions
  unfolding admit
  admit-capacity now waiting u fits =
      let u1 = (make_room settings classifier_factory new_id now waiting u).1 in
      let next = next_in_line settings classifier_factory new_id waiting u1 in
      omega (
        arith,
        make_room-length now waiting u,
        start_all-length now (map (λ (_, plan). plan) next) u1,
        length-map (λ slot. slot.1) next,
        length-take (settings.max_sessions - length u1.sessions)
            (sort_by (fairer u1.last_served) waiting),
      )

  -- A listener that runs at most as many sessions as it may runs at most as many after `reconcile`,
  -- whatever the plans are.
  pub reconcile-capacity :
      (now : ℕ) (plans : List StationPlan) (keyword_hits : Option (Dict String ℕ))
      (u : Supervisor C)
      → length u.sessions ≤ settings.max_sessions
      → length (reconcile settings classifier_factory new_id now plans keyword_hits u).1.sessions
        ≤ settings.max_sessions
  unfolding reconcile converge_on reap_finished
  reconcile-capacity now plans keyword_hits u fits =
      let wanted = wanted_from [] plans in
      let u1 = (converge wanted keyword_hits u).1 in
      let waiting = waiting_in u1 wanted in
      let u2 = (admit settings classifier_factory new_id now waiting u1).2 in
      let k =
        admit-capacity now waiting u1 (omega (arith, converge-length wanted keyword_hits u)) in
      let r = length-filterb-le (λ (id, slot). not slot.done) u2.sessions in
      if_both (λ r. length r.1.sessions ≤ settings.max_sessions) u.stopping (idle_counts u, u)
        (converge_on settings classifier_factory new_id now plans keyword_hits u) fits
        (omega (arith, k, r))
