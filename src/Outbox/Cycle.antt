-- ===== src/Outbox/Cycle.antt =====
-- `dispatch_once`: the fate of each row in one cycle.
use radio_broadcast_analysis.Prelude.{ℕ, List, map, nat_Eq, string_Eq}
use radio_broadcast_analysis.Outbox.{Row, Outbox, reclaimed}
use radio_broadcast_analysis.Outbox.Dispatch.{Dispatcher, OutboxEvent, Answer, to_event, due_rows}
use radio_broadcast_analysis.Outbox.Settled.{find_event, settle}
use radio_broadcast_analysis.Outbox.Claims.{if_claimed}

module _ (d : Dispatcher) (answer : OutboxEvent → Answer) (t now : ℕ) where
  abbrev chosen_from : List Row → List Row
  chosen_from rows = due_rows d now (map (reclaimed t) rows)

  abbrev settled : List Row → Row → Row
  settled chosen x = settle d answer (find_event (map to_event chosen) x.event_id) x

  -- The row before the events are sent.
  abbrev before_send : List Row → Row → Row
  before_send chosen r = if_claimed d now chosen (reclaimed t r)
