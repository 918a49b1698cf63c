-- ===== src/Supervisor/Wanted.antt =====
-- `reconcile` listens to stations of the plans only.
use radio_broadcast_analysis.Prelude.{
  ℕ, zero, suc, ◌-◌, String, Bool, true, false, not, ◌&&◌, ◌||◌, Option, none, some, List, [], ◌∷◌,
  map, ◌≡◌, refl, sym, ◌∙◌, subst, inl, inr, arith, nat_eq, length, filterb, anyb, All, All-filterb,
  All-take, All-zip, All-map, nat_Eq, string_Eq, eq_iff, str_eq, Bool-cases, if_both, if_cases,
}
use radio_broadcast_analysis.Prelude.Dict.{
  Dict, get, put, contains, Unique, contains-pop, contains-put, pop-Unique, put-Unique,
  filterb-Unique, contains-filterb, contains-put_present, All-contains, All-put,
}
use radio_broadcast_analysis.Prelude.Sort.{sort_by, All-sort_by}
use radio_broadcast_analysis.Stream.{StationPlan}
use radio_broadcast_analysis.Supervisor.{
  Settings, Slot, Supervisor, stop_session, hand_over, is_expired, rotate_turns,
  rotate_expired_turns, older, reap_finished, idle_counts,
}
use radio_broadcast_analysis.Supervisor.Reconcile.{
  start_session, start_all, stop_unwanted, adopt_all, converge, wanted_from, waiting_in, fairer,
  admit, adopt, make_room, next_in_line, reconcile, converge_on,
}

-- Some plan is for the station.
abbrev pub is_planned : List StationPlan → String → Bool
is_planned plans id = anyb (λ plan. str_eq plan.station_id id) plans

wanted_from-contains :
    (wanted : Dict String StationPlan) (plans : List StationPlan) (id : String)
    → contains (wanted_from wanted plans) id ≡ (contains wanted id || is_planned plans id)
wanted_from-contains wanted [] id = ground arith
wanted_from-contains wanted (plan ∷ plans) id = ground (
  arith,
  wanted_from-contains (put wanted plan.station_id plan) plans id,
  contains-put wanted plan.station_id id plan,
)

-- The key of a plan is the id of its station.
abbrev Keyed : String × StationPlan → Type 0
Keyed (id, plan) = plan.station_id ≡ id

wanted_from-Keyed :
    (wanted : Dict String StationPlan) (plans : List StationPlan)
    → All Keyed wanted
    → All Keyed (wanted_from wanted plans)
wanted_from-Keyed wanted [] h = h
wanted_from-Keyed wanted (plan ∷ plans) h =
    wanted_from-Keyed (put wanted plan.station_id plan) plans
      (All-put Keyed wanted plan.station_id plan h refl)

wanted_slot :
    (wanted : Dict String StationPlan) (j id : String)
    → contains wanted j ≡ true
    → str_eq j id ≡ true
    → contains wanted id ≡ true
wanted_slot wanted j id w same = subst (λ id. contains wanted id ≡ true) ((eq_iff j id).0 same) w

unwanted_slot :
    (wanted : Dict String StationPlan) (j id : String)
    → contains wanted j ≡ false
    → str_eq j id ≡ true
    → contains wanted id ≡ false
unwanted_slot wanted j id w same = subst (λ id. contains wanted id ≡ false) ((eq_iff j id).0 same) w

module _ {C : Type 0} (wanted : Dict String StationPlan) where
  -- No station has two sessions, and each is wanted.
  abbrev Good : Supervisor C → Type 0
  Good u =
      Unique u.sessions
      × ((id : String) → contains u.sessions id ≡ true → contains wanted id ≡ true)

  -- The unwanted of the slots are gone, the other stations are as they were.
  abbrev Stopped : List (String × Slot C) → Supervisor C → Supervisor C → Type 0
  Stopped slots u u' =
      Unique u'.sessions
      × ((id : String)
          → contains u'.sessions id
            ≡ (contains u.sessions id && (contains wanted id || not (contains slots id))))

  put-wanted :
      (d : Dict String (Slot C)) (k : String) (slot : Slot C)
      → contains wanted k ≡ true
      → ((id : String) → contains d id ≡ true → contains wanted id ≡ true)
      → (id : String) → contains (put d k slot) id ≡ true
      → contains wanted id ≡ true
  put-wanted d k slot w h id present = elim (Bool-cases (str_eq k id)) [
    | inl same ↦ wanted_slot wanted k id w same
    | inr other ↦ h id (ground (arith, contains-put d k id slot, other, present))
  ]

  stop_unwanted-Stopped :
      (slots : List (String × Slot C)) (u : Supervisor C)
      → Unique u.sessions
      → Stopped slots u (stop_unwanted wanted slots u).1
  unfolding stop_unwanted stop_session contains
  stop_unwanted-Stopped [] u unique = (unique, λ id. ground arith)
  stop_unwanted-Stopped ((j, slot) ∷ slots) u unique =
      let u2 = stop_session j u in
      let r1 = stop_unwanted wanted slots u in
      let r2 = stop_unwanted wanted slots u2 in
      let k1 = stop_unwanted-Stopped slots u unique in
      let k2 = stop_unwanted-Stopped slots u2 (pop-Unique u.sessions j unique) in
      if_cases (λ r. Stopped ((j, slot) ∷ slots) u r.1) (contains wanted j) r1 (suc r2.0, r2.1)
        (λ w. (k1.0, λ id. ground (arith, k1.1 id, wanted_slot wanted j id w)))
        (λ w. (
          k2.0,
          λ id.
              ground
                (arith, k2.1 id, contains-pop u.sessions j id unique, unwanted_slot wanted j id w),
        ))

  adopt_all-contains :
      (plans : Dict String StationPlan) (u : Supervisor C) → Good u → Good (adopt_all plans u)
  unfolding adopt_all
  adopt_all-contains [] u h = h
  adopt_all-contains ((id, plan) ∷ plans) u h =
      adopt_all-contains plans (adopt id plan (get u.sessions id) u) (over (get u.sessions id) refl)
    where
      over : (slot : Option (Slot C)) → get u.sessions id ≡ slot → Good (adopt id plan slot u)
      over none e = h
      over (some slot) e = (
        put-Unique u.sessions id _ h.0,
        λ j k. h.1 j (sym (contains-put_present u.sessions id j _ slot e) ∙ k),
      )

  converge-Good :
      (keyword_hits : Option (Dict String ℕ)) (u : Supervisor C)
      → Unique u.sessions
      → Good (converge wanted keyword_hits u).1
  unfolding converge
  converge-Good keyword_hits u unique =
      let u1 = record u {
        keyword_hits = elim keyword_hits [ none ↦ u.keyword_hits | some hits ↦ hits ];
      } in
      let u2 = (stop_unwanted wanted u.sessions u1).1 in
      let u3 = record u2 { last_served = filterb (λ (id, _). contains wanted id) u2.last_served } in
      let k = stop_unwanted-Stopped u.sessions u1 unique in
      adopt_all-contains wanted u3 (k.0, λ id h. ground (arith, k.1 id, h))

  rotate_turns-Good :
      (settings : Settings) (now left : ℕ) (candidates : List (String × Slot C)) (u : Supervisor C)
      → Good u
      → Good (rotate_turns settings now left candidates u).1
  unfolding rotate_turns stop_session
  rotate_turns-Good settings now zero candidates u h = h
  rotate_turns-Good settings now (suc left) [] u h = h
  rotate_turns-Good settings now (suc left) ((j, slot) ∷ candidates) u h =
      let u2 = hand_over now j u in
      let r1 = rotate_turns settings now (suc left) candidates u in
      let r2 = rotate_turns settings now left candidates u2 in
      let h2 : Good u2 = (
        pop-Unique u.sessions j h.0,
        λ id k. h.1 id (ground (arith, contains-pop u.sessions j id h.0, k)),
      ) in
      if_both (λ r. Good r.1) (is_expired settings now j slot.session u) (suc r2.0, r2.1) r1
        (rotate_turns-Good settings now left candidates u2 h2)
        (rotate_turns-Good settings now (suc left) candidates u h)

  module _ (settings : Settings) (classifier_factory : String → C)
      (new_id : String → ℕ → String) where
    make_room-Good :
        (now : ℕ) (waiting : Dict String StationPlan) (u : Supervisor C)
        → Good u
        → Good (make_room settings classifier_factory new_id now waiting u).1
    unfolding make_room rotate_expired_turns
    make_room-Good now waiting u h =
        if_both (λ r. Good r.1) (nat_eq (length waiting) 0) (0, u)
          (rotate_turns settings now (length waiting) (sort_by older u.sessions) u) h
          (rotate_turns-Good settings now (length waiting) (sort_by older u.sessions) u h)

    start_all-Good :
        (now : ℕ) (plans : List StationPlan) (u : Supervisor C)
        → All (λ plan. contains wanted plan.station_id ≡ true) plans
        → Good u
        → Good (start_all settings classifier_factory new_id now plans u)
    unfolding start_all start_session
    start_all-Good now [] u w h = h
    start_all-Good now (plan ∷ plans) u w h =
        let u' = start_session settings classifier_factory new_id now plan u in
        start_all-Good now plans
          (record u' { last_served = put u'.last_served plan.station_id now }) w.1
          (
            put-Unique u.sessions plan.station_id _ h.0,
            put-wanted u.sessions plan.station_id _ w.0 h.1,
          )

    admit-Good :
        (now : ℕ) (waiting : Dict String StationPlan) (u : Supervisor C)
        → All (λ slot. contains wanted slot.1.station_id ≡ true) waiting
        → Good u
        → Good (admit settings classifier_factory new_id now waiting u).2
    unfolding admit
    admit-Good now waiting u w h =
        let u1 = (make_room settings classifier_factory new_id now waiting u).1 in
        let order = fairer u1.last_served in
        let P : String × StationPlan → Type 0 = λ slot. contains wanted slot.1.station_id ≡ true in
        let next = next_in_line settings classifier_factory new_id waiting u1 in
        let free = settings.max_sessions - length u1.sessions in
        start_all-Good now (map (λ (_, plan). plan) next) u1
          (All-map (λ plan. contains wanted plan.station_id ≡ true) (λ slot. slot.1) next
            (All-take P free (sort_by order waiting) (All-sort_by order P waiting w)))
          (make_room-Good now waiting u h)

-- After `reconcile` no station has two sessions, and every session is of a station of the plans,
-- unless the supervisor is stopping.
pub reconcile-planned :
    {C : Type 0} (settings : Settings) (classifier_factory : String → C)
    (new_id : String → ℕ → String) (now : ℕ) (plans : List StationPlan)
    (keyword_hits : Option (Dict String ℕ)) (u : Supervisor C)
    → Unique u.sessions
    → u.stopping ≡ false
    → let u' = (reconcile settings classifier_factory new_id now plans keyword_hits u).1 in
      Unique u'.sessions
      × ((id : String) → contains u'.sessions id ≡ true → is_planned plans id ≡ true)
unfolding reconcile converge_on reap_finished contains
reconcile-planned {C = C} settings classifier_factory new_id now plans keyword_hits u unique
      goes_on =
    let wanted = wanted_from [] plans in
    let u1 = (converge wanted keyword_hits u).1 in
    let waiting = waiting_in u1 wanted in
    let u2 = (admit settings classifier_factory new_id now waiting u1).2 in
    let P : String × StationPlan → Type 0 = λ slot. contains wanted slot.1.station_id ≡ true in
    let keyed : All P wanted =
      All-zip (λ slot inside key. subst (λ id. contains wanted id ≡ true) (sym key) inside) wanted
        (All-contains wanted) (wanted_from-Keyed [] plans tt) in
    let good =
      admit-Good wanted settings classifier_factory new_id now waiting u1
        (All-filterb P (λ (id, _). not (contains u1.sessions id)) wanted keyed)
        (converge-Good wanted keyword_hits u unique) in
    let live : String × Slot C → Bool = λ (_, slot). not slot.done in
    let planned : (id : String)
        → contains (filterb live u2.sessions) id ≡ true
        → is_planned plans id ≡ true =
      λ id h. ground (
        arith,
        contains-filterb live u2.sessions id,
        good.1 id,
        wanted_from-contains [] plans id,
        h,
      ) in
    if_cases
      (λ r.
        Unique r.1.sessions
        × ((id : String) → contains r.1.sessions id ≡ true → is_planned plans id ≡ true))
      u.stopping (idle_counts u, u)
      (converge_on settings classifier_factory new_id now plans keyword_hits u)
      (λ stopping. absurd cc) (λ _. (filterb-Unique live u2.sessions good.0, planned))
