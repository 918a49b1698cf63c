-- ===== src/Supervisor.antt =====
-- `StreamSupervisor` of app/services/stream_supervisor.py: the sessions of one listener process and the
-- turns that they take. A time is a count of milliseconds. The two tables of sessions and of tasks
-- have the same keys, so a slot holds both: the session, and how its task stands.
pub mod Reconcile
pub mod Turns
pub mod Capacity
pub mod Wanted
pub mod Fairness
mod Tests
use radio_broadcast_analysis.Prelude.{
  ℕ, zero, suc, ◌+◌, String, Bool, true, false, not, ◌&&◌, Option, none, some, List, [], ◌∷◌,
  if◌then◌else◌, ltb, leb, nat_eq, length, filterb, nat_Eq, string_Eq,
}
use radio_broadcast_analysis.Prelude.Dict.{Dict, get, put, pop}
use radio_broadcast_analysis.Prelude.Sort.{sort_by}
use radio_broadcast_analysis.Stream.{StreamSettings, Session, is_holding}

-- What the supervisor reads of the settings, beside those of its sessions.
pub record Settings : Type 0 where
  pub stream : StreamSettings
  pub max_sessions : ℕ
  pub slice_ms : ℕ
  pub max_slice_ms : ℕ
  pub dwell_grace_ms : ℕ
  pub keyword_dwell_ms : ℕ

-- A session and `task.done()`.
pub record Slot (C : Type 0) : Type 0 where
  pub session : Session C
  pub done : Bool

pub record Supervisor (C : Type 0) : Type 0 where
  pub sessions : Dict String (Slot C)
  pub stopping : Bool
  pub last_served : Dict String ℕ
  pub keyword_hits : Dict String ℕ

-- What `reconcile` returns.
pub record Counts : Type 0 where
  pub started : ℕ
  pub stopped : ℕ
  pub running : ℕ
  pub rejected : ℕ
  pub rotated : ℕ

-- `_EPOCH` sorts before any time at which a station was served.
abbrev pub served_leb : Option ℕ → Option ℕ → Bool
served_leb none _ = true
served_leb (some a) none = false
served_leb (some a) (some b) = leb a b

module _ {C : Type 0} where
  -- `session_count`
  abbrev pub session_count : Supervisor C → ℕ
  session_count u = length u.sessions

  -- What `reconcile` reports once the supervisor is stopping.
  abbrev pub idle_counts : Supervisor C → Counts
  idle_counts u = record {
    started = 0;
    stopped = 0;
    running = length u.sessions;
    rejected = 0;
    rotated = 0;
  }

  -- `_stop_session`, where the awaited task ends without an exception or is cancelled: the session
  -- is gone when it returns.
  unfoldable pub stop_session : String → Supervisor C → Supervisor C
  stop_session id u = record u { sessions = pop u.sessions id }

  -- A turn ends: the station goes, and is noted as just served.
  abbrev pub hand_over : ℕ → String → Supervisor C → Supervisor C
  hand_over now id u = record u {
    sessions = (stop_session id u).sessions;
    last_served = put u.last_served id now;
  }

  -- `_keyword_dwell_holds`
  unfoldable pub keyword_dwell_holds : Settings → String → Session C → ℕ → Supervisor C → Bool
  keyword_dwell_holds settings id session now u =
      if nat_eq settings.keyword_dwell_ms 0 then false else elim (get u.keyword_hits id) [
        | none ↦ false
        | some hit ↦
            if ltb hit session.status.started_at
            then false
            else ltb now (hit + settings.keyword_dwell_ms)
      ]

  -- The conditions of `_rotate_expired_turns` under which a session hands its slot over.
  unfoldable pub is_expired : Settings → ℕ → String → Session C → Supervisor C → Bool
  unfolding keyword_dwell_holds
  is_expired settings now id session u =
      let started = session.status.started_at in
      if ltb now (started + settings.slice_ms)
      then false
      else if ltb now (started + settings.max_slice_ms)
          && keyword_dwell_holds settings id session now u
      then false
      else not (
          ltb now (started + settings.max_slice_ms)
          && is_holding now settings.dwell_grace_ms session)

  -- The loop of `_rotate_expired_turns` over the candidates, with what is left of `waiting_count`.
  unfoldable pub rotate_turns :
      Settings → ℕ → ℕ → List (String × Slot C) → Supervisor C → ℕ × Supervisor C
  unfolding is_expired stop_session
  rotate_turns settings now zero candidates u = (0, u)
  rotate_turns settings now (suc left) [] u = (0, u)
  rotate_turns settings now (suc left) ((id, slot) ∷ candidates) u =
      let (skipped, u1) = rotate_turns settings now (suc left) candidates u in
      let (rotated, u2) = rotate_turns settings now left candidates (hand_over now id u) in
      if is_expired settings now id slot.session u then (suc rotated, u2) else (skipped, u1)

  abbrev pub older : String × Slot C → String × Slot C → Bool
  older (_, a) (_, b) = leb a.session.status.started_at b.session.status.started_at

  -- `_rotate_expired_turns`
  unfoldable pub rotate_expired_turns : Settings → ℕ → ℕ → Supervisor C → ℕ × Supervisor C
  unfolding rotate_turns
  rotate_expired_turns settings now waiting_count u =
      rotate_turns settings now waiting_count (sort_by older u.sessions) u

  -- `_reap_finished`
  unfoldable pub reap_finished : Supervisor C → Supervisor C
  reap_finished u = record u { sessions = filterb (λ (_, slot). not slot.done) u.sessions }

  -- `shutdown`
  abbrev pub shutdown : Supervisor C → Supervisor C
  shutdown u = record u { stopping = true; sessions = [] }
