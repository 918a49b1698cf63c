-- ===== src/Queue/Handles.antt =====
-- Which receipt handles are in flight.
use radio_broadcast_analysis.Prelude.{
  ℕ, ◌+◌, Option, none, some, ◌≡◌, refl, ◌∙◌, arith, nat_Eq, string_Eq,
}
use radio_broadcast_analysis.Prelude.Dict.{Dict, get, contains, contains-put, contains-get}
use radio_broadcast_analysis.Queue.{
  MemoryQueue, Entry, Handle, handle_eq_iff, handle_Eq, set_visible, extend_visibility,
}

set_visible-contains :
    (d : Dict Handle Entry) (h k : Handle) (t : ℕ) (entry : Option Entry)
    → get d h ≡ entry
    → contains (set_visible d h t entry) k ≡ contains d k
unfolding set_visible
set_visible-contains d h k t none e = refl
set_visible-contains d h k t (some entry) e =
    contains-put d h k (record entry { visible_at = t })
    ∙ ground (arith, e, handle_eq_iff h k, contains-get d h)

-- Extending the visibility puts no handle in flight and takes none out.
pub extend_visibility-contains :
    (q : MemoryQueue) (now : ℕ) (handle : Handle) (seconds : ℕ) (k : Handle)
    → contains (extend_visibility q now handle seconds).in_flight k ≡ contains q.in_flight k
unfolding extend_visibility
extend_visibility-contains q now handle seconds k =
    set_visible-contains q.in_flight handle k (now + seconds) (get q.in_flight handle) refl
