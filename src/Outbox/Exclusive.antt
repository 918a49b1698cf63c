-- ===== src/Outbox/Exclusive.antt =====
-- A claimed event is claimed by no other dispatcher while its lease lasts.
use radio_broadcast_analysis.Prelude.{
  ℕ, ◌+◌, ◌≤◌, String, true, false, List, [], ◌∷◌, map, ◌≡◌, refl, sym, ap, ◌∙◌, subst, arith,
  count, All, All-imp, All-zip, nat_Eq, string_Eq, if_cases,
}
use radio_broadcast_analysis.Outbox.{
  Row, Outbox, Status, status_eq, iso_leb, reclaimed, reclaim_stale_leases,
}
use radio_broadcast_analysis.Outbox.Dispatch.{
  Dispatcher, to_event, is_due, leased, due_rows, claim_batch,
}
use radio_broadcast_analysis.Outbox.Settled.{is_event}
use radio_broadcast_analysis.Outbox.Claims.{
  holds_id, has_event, has_event-map, if_claimed, lease_all-map, due_rows-IsDue,
}
use radio_broadcast_analysis.Outbox.Unique.{chosen_due, All-due_rows}

reclaimed-event_id : (t : ℕ) (r : Row) → (reclaimed t r).event_id ≡ r.event_id
reclaimed-event_id t r = ground arith

All-remap :
    (Q : Row → Type 0) (f : Row → Row) (rows : List Row)
    → All (λ r. Q (f r)) rows
    → All Q (map f rows)
All-remap Q f [] h = tt
All-remap Q f (r ∷ rows) h = (h.0, All-remap Q f rows h.1)

pending_due : (now : ℕ) (r : Row) → is_due now r ≡ true → status_eq r.status Status.pending ≡ true
pending_due now r h = ground (arith, h)

-- A row that was leased is not due while the lease lasts.
leased_away :
    (d : Dispatcher) (now t later : ℕ) (r : Row)
    → iso_leb (now + d.lease) t ≡ false
    → status_eq r.status Status.pending ≡ true
    → is_due later (reclaimed t (leased d now r)) ≡ false
leased_away d now t later r lasting pending = rw (pending) (rw (lasting) refl)

stays_away :
    (d : Dispatcher) (now t later : ℕ) (chosen : List Row) (r : Row)
    → iso_leb (now + d.lease) t ≡ false
    → (holds_id r.event_id chosen ≡ true → is_due now r ≡ true)
    → is_due later (reclaimed t (if_claimed d now chosen r)) ≡ true
    → holds_id (reclaimed t (if_claimed d now chosen r)).event_id chosen ≡ false
stays_away d now t later chosen r lasting due =
    if_cases
      (λ (x : Row).
        is_due later (reclaimed t x) ≡ true → holds_id (reclaimed t x).event_id chosen ≡ false)
      (holds_id r.event_id chosen) (leased d now r) r
      (λ held is.
        absurd (cc (is, leased_away d now t later r lasting (pending_due now r (due held)))))
      (λ free _. ap (λ k. holds_id k chosen) (reclaimed-event_id t r) ∙ free)

-- While event ids name one row each and the leases of a claim have not lapsed, a later claim, by any
-- dispatcher and at any time, after leases that had lapsed were taken back, claims no event of it.
pub claim_batch-exclusive :
    (d other : Dispatcher) (now t later : ℕ) (box : Outbox)
    → ((k : String) → count (is_event k) box.rows ≤ 1)
    → iso_leb (now + d.lease) t ≡ false
    → let (events, claimed) = claim_batch d now box in
      All
        (λ e. has_event e.event_id events ≡ false)
        (claim_batch other later (reclaim_stale_leases t claimed).1).0
unfolding claim_batch reclaim_stale_leases
claim_batch-exclusive d other now t later box once lasting =
    let chosen = due_rows d now box.rows in
    let rows = map (reclaimed t) (map (if_claimed d now chosen) box.rows) in
    let leased_rows = lease_all-map d now chosen box.rows in
    let Q : Row → Type 0 = λ x. is_due later x ≡ true → holds_id x.event_id chosen ≡ false in
    let each : All (λ r. Q (reclaimed t (if_claimed d now chosen r))) box.rows =
      All-imp (λ r due. stays_away d now t later chosen r lasting due) box.rows
        (chosen_due d now box.rows once) in
    let after : All Q rows =
      All-remap Q (reclaimed t) (map (if_claimed d now chosen) box.rows)
        (All-remap (λ x. Q (reclaimed t x)) (if_claimed d now chosen) box.rows each) in
    let second = due_rows other later rows in
    let free : All (λ c. holds_id c.event_id chosen ≡ false) second =
      All-zip (λ c q due. q due) second (All-due_rows Q other later rows after)
        (due_rows-IsDue other later rows) in
    subst
      (λ xs.
        All (λ e. has_event e.event_id (map to_event chosen) ≡ false)
          (map to_event (due_rows other later (map (reclaimed t) xs))))
      (sym leased_rows) (events second free)
  where
    events :
        (cs : List Row)
        → All (λ c. holds_id c.event_id (due_rows d now box.rows) ≡ false) cs
        → All
            (λ e. has_event e.event_id (map to_event (due_rows d now box.rows)) ≡ false)
            (map to_event cs)
    events [] h = tt
    events (c ∷ cs) h = (has_event-map c.event_id (due_rows d now box.rows) ∙ h.0, events cs h.1)
