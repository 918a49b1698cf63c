-- ===== src/Supervisor/Reconcile.antt =====
-- `reconcile`: the sessions converge on the plans.
use radio_broadcast_analysis.Prelude.{
  ℕ, suc, ◌-◌, String, Bool, true, false, not, Option, none, some, List, [], ◌∷◌, map,
  if◌then◌else◌, nat_eq, length, take, filterb, nat_Eq, string_Eq,
}
use radio_broadcast_analysis.Prelude.Dict.{Dict, get, put, contains}
use radio_broadcast_analysis.Prelude.Sort.{sort_by}
use radio_broadcast_analysis.Prelude.Text.{text_leb}
use radio_broadcast_analysis.Stream.{StationPlan, create, update_keyword_index_version}
use radio_broadcast_analysis.Supervisor.{
  Settings, Slot, Supervisor, Counts, served_leb, idle_counts, stop_session, rotate_expired_turns,
  reap_finished,
}

-- {plan.station_id: plan for plan in plans}
abbrev pub wanted_from : Dict String StationPlan → List StationPlan → Dict String StationPlan
wanted_from wanted [] = wanted
wanted_from wanted (plan ∷ plans) = wanted_from (put wanted plan.station_id plan) plans

-- The key of the order of the queue: longest since its last turn, then by id.
abbrev pub fairer : Dict String ℕ → String × StationPlan → String × StationPlan → Bool
fairer last_served (a, _) (b, _) =
    let x = get last_served a in
    let y = get last_served b in
    if served_leb x y then (if served_leb y x then text_leb a b else true) else false

module _ {C : Type 0} where
  -- for station_id in list(self._sessions): if station_id not in wanted: ...
  unfoldable pub stop_unwanted :
      Dict String StationPlan → List (String × Slot C) → Supervisor C → ℕ × Supervisor C
  unfolding stop_session
  stop_unwanted wanted [] u = (0, u)
  stop_unwanted wanted ((id, _) ∷ slots) u =
      let (kept, u1) = stop_unwanted wanted slots u in
      let (stopped, u2) = stop_unwanted wanted slots (stop_session id u) in
      if contains wanted id then (kept, u1) else (suc stopped, u2)

  -- A session that goes on adopts the keyword index of its plan.
  abbrev pub adopt : String → StationPlan → Option (Slot C) → Supervisor C → Supervisor C
  adopt id plan none u = u
  adopt id plan (some slot) u = record u {
    sessions = put u.sessions id (record slot {
      session = update_keyword_index_version plan.keyword_index_version slot.session;
    });
  }

  unfoldable pub adopt_all : Dict String StationPlan → Supervisor C → Supervisor C
  adopt_all [] u = u
  adopt_all ((id, plan) ∷ wanted) u = adopt_all wanted (adopt id plan (get u.sessions id) u)

  -- `reconcile`, up to the rotation: the sessions that nobody wants are stopped, and the ledger keeps
  -- the stations that somebody does.
  unfoldable pub converge :
      Dict String StationPlan → Option (Dict String ℕ) → Supervisor C → ℕ × Supervisor C
  unfolding stop_unwanted adopt_all
  converge wanted keyword_hits u =
      let u1 = record u {
        keyword_hits = elim keyword_hits [ none ↦ u.keyword_hits | some hits ↦ hits ];
      } in
      let (stopped, u2) = stop_unwanted wanted u1.sessions u1 in
      let u3 = record u2 { last_served = filterb (λ (id, _). contains wanted id) u2.last_served } in
      (stopped, adopt_all wanted u3)

  -- [station_id for station_id in wanted if station_id not in self._sessions], with the plans
  abbrev pub waiting_in : Supervisor C → Dict String StationPlan → Dict String StationPlan
  waiting_in u wanted = filterb (λ (id, _). not (contains u.sessions id)) wanted

-- A listener makes a classifier, and draws an id, for each station that it starts.
module _ {C : Type 0} (settings : Settings) (classifier_factory : String → C)
    (new_id : String → ℕ → String) where
  -- `_start_session`
  unfoldable pub start_session : ℕ → StationPlan → Supervisor C → Supervisor C
  start_session now plan u = record u {
    sessions = put u.sessions plan.station_id (record {
      session =
          create settings.stream plan (classifier_factory plan.station_id)
            (new_id plan.station_id now) now;
      done = false;
    });
  }

  -- The loop over `order[:free]`
  unfoldable pub start_all : ℕ → List StationPlan → Supervisor C → Supervisor C
  unfolding start_session
  start_all now [] u = u
  start_all now (plan ∷ plans) u =
      let u' = start_session now plan u in
      start_all now plans (record u' { last_served = put u'.last_served plan.station_id now })

  -- Turns that are over make room for those who wait.
  unfoldable pub make_room : ℕ → Dict String StationPlan → Supervisor C → ℕ × Supervisor C
  unfolding rotate_expired_turns
  make_room now waiting u =
      if nat_eq (length waiting) 0
      then (0, u)
      else rotate_expired_turns settings now (length waiting) u

  -- order[:free]
  abbrev pub next_in_line : Dict String StationPlan → Supervisor C → List (String × StationPlan)
  next_in_line waiting u =
      take (settings.max_sessions - length u.sessions) (sort_by (fairer u.last_served) waiting)

  -- The rest of `reconcile`: the free slots are given out.
  unfoldable pub admit : ℕ → Dict String StationPlan → Supervisor C → ℕ × ℕ × Supervisor C
  unfolding make_room start_all
  admit now waiting u =
      let (rotated, u1) = make_room now waiting u in
      let next = next_in_line waiting u1 in
      (rotated, length next, start_all now (map (λ (_, plan). plan) next) u1)

  -- `reconcile`, past its first test.
  unfoldable pub converge_on :
      ℕ → List StationPlan → Option (Dict String ℕ) → Supervisor C → Counts × Supervisor C
  unfolding converge admit reap_finished
  converge_on now plans keyword_hits u =
      let wanted = wanted_from [] plans in
      let (stopped, u1) = converge wanted keyword_hits u in
      let waiting = waiting_in u1 wanted in
      let (rotated, started, u2) = admit now waiting u1 in
      let u3 = reap_finished u2 in
      (
        record {
          started = started;
          stopped = stopped;
          running = length u3.sessions;
          rejected = length waiting - started;
          rotated = rotated;
        },
        u3,
      )

  unfoldable pub reconcile :
      ℕ → List StationPlan → Option (Dict String ℕ) → Supervisor C → Counts × Supervisor C
  unfolding converge_on
  reconcile now plans keyword_hits u =
      if u.stopping then (idle_counts u, u) else converge_on now plans keyword_hits u
