-- ===== src/Supervisor/Tests.antt =====
-- A supervisor at concrete plans: one slot, turns of two minutes and of eight at most.
use radio_broadcast_analysis.Prelude.{
  ℕ, ◌-◌, ◌≤◌, min, String, Bool, true, false, none, List, [], ◌∷◌, ◌≡◌, ◌⊎◌, refl, arith, length,
  anyb, count, All, nat_Eq, string_Eq,
}
use radio_broadcast_analysis.Prelude.Dict.{get, put, pop, contains, Unique}
use radio_broadcast_analysis.Prelude.Sort.{sort_by}
use radio_broadcast_analysis.Stream.{StationPlan, create}
use radio_broadcast_analysis.Supervisor.{
  Settings, Slot, Supervisor, rotate_expired_turns, is_expired,
}
use radio_broadcast_analysis.Supervisor.Reconcile.{reconcile, next_in_line}
use radio_broadcast_analysis.Supervisor.Turns.{is_over, Freed, rotate_expired_turns-ceiling}
use radio_broadcast_analysis.Supervisor.Capacity.{reconcile-capacity}
use radio_broadcast_analysis.Supervisor.Wanted.{is_planned, reconcile-planned}
use radio_broadcast_analysis.Supervisor.Fairness.{is_station, precedes, next_in_line-fair}
use radio_broadcast_analysis.Prelude.Dict.{Dict}

abbrev settings : Settings
settings = record {
  stream = record {
    sample_rate = 16000;
    ring_buffer_seconds = 60;
    classifier_window_ms = 3000;
    speech_chunk_seconds = 20;
    chunk_overlap_ms = 1000;
    reconnect_min_ms = 2000;
    reconnect_max_ms = 120000;
    policy = record {
      include_speech_over_music = true;
      transcribe_uncertain_audio = true;
      silence_end_seconds = 12;
      pure_music_discard_seconds = 8;
      include_long_form_singing = false;
      include_sung_advertising_jingles = true;
      jingle_max_seconds = 30;
      jingle_adjacency_seconds = 60;
    };
  };
  max_sessions = 1;
  slice_ms = 120000;
  max_slice_ms = 480000;
  dwell_grace_ms = 30000;
  keyword_dwell_ms = 240000;
}

abbrev plan : String → StationPlan
plan id = record {
  station_id = id;
  stream_url = "http://radio.example/live";
  display_name = "";
  keyword_index_version = 1;
  language_codes = [];
}

abbrev slot : ℕ → Slot Unit
slot started_at = record {
  session = create settings.stream (plan "jazz") tt "session" started_at;
  done = false;
}

abbrev supervisor : Supervisor Unit
supervisor = record {
  sessions = ("jazz", slot 0) ∷ [];
  stopping = false;
  last_served = ("jazz", 0) ∷ [];
  keyword_hits = [];
}

abbrev plans : List StationPlan
plans = plan "jazz" ∷ plan "news" ∷ plan "talk" ∷ []

abbrev after : Supervisor Unit
after = (reconcile settings (λ _. tt) (λ id _. id) 500000 plans none supervisor).1

-- The turn of "jazz" is over, and "news" has the slot.
handed_over : (get after.sessions "jazz" ≡ none) × (contains after.sessions "news" ≡ true)
unfolding reconcile get contains put pop sort_by
handed_over = (refl, refl)

one_slot : Unique supervisor.sessions
unfolding contains
one_slot = (refl, tt)

one_over : count (is_over settings 500000 supervisor) supervisor.sessions ≡ 1
unfolding is_expired
one_over = refl

rotate_expired_turns-ceiling_example :
    Freed settings 500000 supervisor.sessions (rotate_expired_turns settings 500000 2 supervisor).1
rotate_expired_turns-ceiling_example =
    rotate_expired_turns-ceiling settings 500000 2 supervisor (omega arith) one_slot
      (omega (arith, one_over))

reconcile-capacity_example : length after.sessions ≤ 1
reconcile-capacity_example =
    reconcile-capacity settings (λ _. tt) (λ id _. id) 500000 plans none supervisor (omega arith)

reconcile-planned_example :
    Unique after.sessions
    × ((id : String) → contains after.sessions id ≡ true → is_planned plans id ≡ true)
reconcile-planned_example =
    reconcile-planned settings (λ _. tt) (λ id _. id) 500000 plans none supervisor one_slot refl

abbrev queue : Dict String StationPlan
queue = ("talk", plan "talk") ∷ ("news", plan "news") ∷ []

next_in_line-fair_example :
    let chosen = next_in_line settings (λ _. tt) (λ id _. id) queue supervisor in
    (length chosen ≡ min (1 - length supervisor.sessions) 2)
    × ((p : String × StationPlan → Bool) → count p chosen ≤ count p queue)
    × All
        (λ w.
          (anyb (is_station w.0) chosen ≡ true)
          ⊎ All (λ c. precedes supervisor.last_served c w ≡ true) chosen)
        queue
next_in_line-fair_example = next_in_line-fair settings (λ _. tt) (λ id _. id) queue supervisor
