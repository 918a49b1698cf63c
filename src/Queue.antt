-- ===== src/Queue.antt =====
-- app/pipeline/queue.py: `MemoryQueue`, the in-process FIFO queue. The clock's reading is an
-- argument `now` of each operation, in any unit; `MemoryQueue.name` only prefixes the message ids.
pub mod Selection
pub mod Handles
pub mod Storage
pub mod Invariant
pub mod Delivery
pub mod Dedup
pub mod History
mod Tests
use radio_broadcast_analysis.Prelude.{
  ℕ, zero, suc, ◌+◌, String, Bool, true, false, not, Option, none, some, List, [], ◌∷◌, ◌++◌, map,
  string_Eq, ◌≡◌, ◌↔◌, refl, ap, arith, Eq, ◌==◌, if◌then◌else◌, leb, nat_eq, nat_eq_iff, ◌&&◌,
  length, member, filterb, min,
}
use radio_broadcast_analysis.Prelude.Dict.{Dict, get, contains, put, pop}

-- The id that `send` returns: f"{name}-{counter}", or f"dedup-{deduplication_id}".
pub data MessageId : Type 0 where
  minted : ℕ → MessageId
  dedup : String → MessageId

-- f"{message_id}#{receive_count}"
pub record Handle : Type 0 where
  pub message : ℕ
  pub receive : ℕ

abbrev pub handle_eq : Handle → Handle → Bool
handle_eq a b = nat_eq a.message b.message && nat_eq a.receive b.receive

pub handle_eq_iff : (a b : Handle) → (handle_eq a b ≡ true) ↔ (a ≡ b)
handle_eq_iff a b = ground arith

instance abbrev pub handle_Eq : Eq Handle
handle_Eq = record { is_same = handle_eq; is_same_iff = handle_eq_iff }

pub record Entry : Type 0 where
  pub message_id : ℕ
  pub body : String
  pub group_id : String
  pub deduplication_id : String
  pub enqueued_at : ℕ
  pub sequence : ℕ
  pub receive_count : ℕ
  pub visible_at : ℕ
  pub receipt_handle : Option Handle

-- `attributes` is never set by this queue and never read.
pub record ReceivedMessage : Type 0 where
  pub message_id : ℕ
  pub receipt_handle : Handle
  pub body : String
  pub group_id : String
  pub deduplication_id : String
  pub receive_count : ℕ

pub record MemoryQueue : Type 0 where
  pub visibility_seconds : ℕ
  pub dedup_window : ℕ
  pub entries : List Entry
  pub in_flight : Dict Handle Entry
  pub seen : Dict String ℕ
  pub sequence : ℕ
  pub message_counter : ℕ

abbrev pub deduplication_window_seconds : ℕ
deduplication_window_seconds = 300

abbrev pub init : ℕ → ℕ → MemoryQueue
init visibility window = record {
  visibility_seconds = visibility;
  dedup_window = window;
  entries = [];
  in_flight = [];
  seen = [];
  sequence = 0;
  message_counter = 0;
}

-- `_expire_dedup`: `stamp > now - window` is written `now < stamp + window`.
pub expire_dedup : ℕ → ℕ → Dict String ℕ → Dict String ℕ
expire_dedup window now [] = []
expire_dedup window now ((key, stamp) ∷ rest) =
    if leb (stamp + window) now then expire_dedup window now rest else (key, stamp) ∷ rest

pub new_entry : MemoryQueue → ℕ → String → String → String → Entry
new_entry q now body group_id deduplication_id = record {
  message_id = suc q.message_counter;
  body = body;
  group_id = group_id;
  deduplication_id = deduplication_id;
  enqueued_at = now;
  sequence = suc q.sequence;
  receive_count = 0;
  visible_at = 0;
  receipt_handle = none;
}

pub send : MemoryQueue → ℕ → String → String → String → MessageId × MemoryQueue
unfolding new_entry
send q now body group_id deduplication_id =
    let live = expire_dedup q.dedup_window now q.seen in
    if contains live deduplication_id then (dedup deduplication_id, record q { seen = live }) else (
      minted (suc q.message_counter),
      record q {
        seen = put live deduplication_id now;
        sequence = suc q.sequence;
        message_counter = suc q.message_counter;
        entries = q.entries ++ new_entry q now body group_id deduplication_id ∷ [];
      },
    )

-- `_reclaim_expired`: each entry whose visibility lapsed is popped, in the dict's order, and
-- appended to the waiting entries without its handle.
abbrev pub is_lapsed : ℕ → Handle × Entry → Bool
is_lapsed now slot = leb slot.1.visible_at now

abbrev pub surrender : Handle × Entry → Entry
surrender slot = record (slot.1) { receipt_handle = none }

pub reclaim_expired : MemoryQueue → ℕ → MemoryQueue
reclaim_expired q now = record q {
  in_flight = filterb (λ slot. not (is_lapsed now slot)) q.in_flight;
  entries = q.entries ++ map surrender (filterb (is_lapsed now) q.in_flight);
}

-- sorted(entries, key=lambda item: item.sequence), stable
pub insert_by_sequence : Entry → List Entry → List Entry
insert_by_sequence e [] = e ∷ []
insert_by_sequence e (x ∷ xs) =
    if leb e.sequence x.sequence then e ∷ x ∷ xs else x ∷ insert_by_sequence e xs

pub sort_by_sequence : List Entry → List Entry
sort_by_sequence [] = []
sort_by_sequence (e ∷ es) = insert_by_sequence e (sort_by_sequence es)

abbrev pub handle_of : Entry → Handle
handle_of e = record { message = e.message_id; receive = e.receive_count }

-- What the loop of `receive` writes to a selected entry.
pub deliver : ℕ → Entry → Entry
deliver visible_at e =
    let count = suc e.receive_count in
    record e {
      receive_count = count;
      visible_at = visible_at;
      receipt_handle = some (record { message = e.message_id; receive = count });
    }

-- The loop of `receive`: `room` is `max_messages - len(selected)`.
pub select : ℕ → ℕ → List String → List Entry → List Entry
select visible_at zero blocked_groups entries = []
select visible_at (suc room) blocked_groups [] = []
select visible_at (suc room) blocked_groups (e ∷ entries) =
    elim (member blocked_groups e.group_id) [
      | true ↦ select visible_at (suc room) blocked_groups entries
      | false ↦ deliver visible_at e ∷ select visible_at room (e.group_id ∷ blocked_groups) entries
    ]

-- `_entries.remove(entry)`: sequence numbers are distinct, so they identify the entry.
pub remove : ℕ → List Entry → List Entry
remove sequence [] = []
remove sequence (e ∷ es) = if nat_eq e.sequence sequence then es else e ∷ remove sequence es

pub remove_all : List Entry → List Entry → List Entry
remove_all [] es = es
remove_all (c ∷ cs) es = remove_all cs (remove c.sequence es)

pub put_all : Dict Handle Entry → List Entry → Dict Handle Entry
put_all d [] = d
put_all d (e ∷ es) = put_all (put d (handle_of e) e) es

abbrev pub to_message : Entry → ReceivedMessage
to_message e = record {
  message_id = e.message_id;
  receipt_handle = handle_of e;
  body = e.body;
  group_id = e.group_id;
  deduplication_id = e.deduplication_id;
  receive_count = e.receive_count;
}

abbrev pub values : Dict Handle Entry → List Entry
values d = map (λ slot. slot.1) d

abbrev pub groups : Dict Handle Entry → List String
groups d = map (λ e. e.group_id) (values d)

-- The entries that `receive` selects, once the lapsed ones are back in the queue.
pub selection : MemoryQueue → ℕ → ℕ → List Entry
selection q now max_messages =
    select (now + q.visibility_seconds) max_messages (groups q.in_flight)
      (sort_by_sequence q.entries)

pub take_out : MemoryQueue → List Entry → MemoryQueue
take_out q selected = record q {
  in_flight = put_all q.in_flight selected;
  entries = remove_all selected q.entries;
}

pub receive : MemoryQueue → ℕ → ℕ → List ReceivedMessage × MemoryQueue
receive q now max_messages =
    let live = reclaim_expired q now in
    let selected = selection live now max_messages in
    (map to_message selected, take_out live selected)

pub delete : MemoryQueue → Handle → MemoryQueue
delete q receipt_handle = record q { in_flight = pop q.in_flight receipt_handle }

-- The write goes through the reference that `_in_flight` holds.
pub set_visible : Dict Handle Entry → Handle → ℕ → Option Entry → Dict Handle Entry
set_visible d handle visible_at none = d
set_visible d handle visible_at (some entry) =
    put d handle (record entry { visible_at = visible_at })

pub extend_visibility : MemoryQueue → ℕ → Handle → ℕ → MemoryQueue
unfolding set_visible
extend_visibility q now receipt_handle seconds = record q {
  in_flight =
      set_visible q.in_flight receipt_handle (now + seconds) (get q.in_flight receipt_handle);
}

pub approximate_depth : MemoryQueue → ℕ → ℕ × MemoryQueue
approximate_depth q now = let live = reclaim_expired q now in (length live.entries, live)

pub in_flight_count : MemoryQueue → ℕ
in_flight_count q = length q.in_flight
