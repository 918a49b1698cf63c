-- ===== src/Outbox/Settled.antt =====
-- `dispatch_once` settles each claimed row once, by the answer to the event claimed under its id.
use radio_broadcast_analysis.Prelude.Sort.{count-sort_by}
use radio_broadcast_analysis.Prelude.{
  zero, suc, ℕ, ◌≤◌, String, Bool, Option, none, some, List, [], ◌∷◌, map, ◌≡◌, refl, sym, ap, ◌∙◌,
  inl, inr, arith, if◌then◌else◌, count, nat_Eq, string_Eq, str_eq, Bool-cases, ◌+◌, ◌++◌,
}
use radio_broadcast_analysis.Outbox.{
  Row, Outbox, update, filterb, reclaimed, take, is_stale, length, reclaim_stale_leases, suc,
  sort_by,
}
use radio_broadcast_analysis.Outbox.Dispatch.{
  answered, OutboxEvent, Dispatcher, Answer, Reply, unconfigured, delivered, raised, Stats, outcome,
  send_all, claim_batch, counted, dispatch_once, to_event, due_rows, due_before, failures_of,
  is_due,
}

abbrev pub has_id : String → Row → Bool
has_id k r = str_eq r.event_id k

abbrev pub event_id_is : String → OutboxEvent → Bool
event_id_is k e = str_eq k e.event_id

-- The event that was claimed under an id.
abbrev pub find_event : List OutboxEvent → String → Option OutboxEvent
find_event [] k = none
find_event (e ∷ events) k = if event_id_is k e then some e else find_event events k

-- What becomes of a row: the event claimed under its id is answered, or nothing happens to it.
abbrev pub settle : Dispatcher → (OutboxEvent → Answer) → Option OutboxEvent → Row → Row
settle d answer none r = r
settle d answer (some e) r = outcome d e (answer e) r

update-map :
    (k : String) (f : Row → Row) (rows : List Row)
    → update k f rows ≡ map (λ r. if has_id k r then f r else r) rows
unfolding update
update-map k f [] = refl
update-map k f (r ∷ rows) = ap (◌∷◌ (if has_id k r then f r else r)) (update-map k f rows)

map-same : {A : Type 0} (xs : List A) → map (λ x. x) xs ≡ xs
map-same [] = refl
map-same (x ∷ xs) = ap (◌∷◌ x) (map-same xs)

map-map :
    {A : Type 0} (f g h : A → A) (xs : List A)
    → ((x : A) → g (f x) ≡ h x)
    → map g (map f xs) ≡ map h xs
map-map f g h [] e = refl
map-map f g h (x ∷ xs) e = cc (e x, map-map f g h xs e)

module _ (d : Dispatcher) (answer : OutboxEvent → Answer) where
  answered-event_id :
      (e : OutboxEvent) (at : ℕ) (jitter : ℕ → ℕ) (reply : Reply) (r : Row)
      → (answered d e at jitter reply r).event_id ≡ r.event_id
  answered-event_id e at jitter (unconfigured error) r = refl
  answered-event_id e at jitter (delivered id) r = refl
  answered-event_id e at jitter (raised detail) r = ground arith

  outcome-event_id :
      (e : OutboxEvent) (a : Answer) (r : Row) → (outcome d e a r).event_id ≡ r.event_id
  unfolding outcome
  outcome-event_id e a r = answered-event_id e a.at a.jitter a.reply r

  -- The row after the rest of the loop.
  abbrev after_all : List OutboxEvent → Row → Row
  after_all [] r = r
  after_all (e ∷ events) r =
      after_all events (if has_id e.event_id r then outcome d e (answer e) r else r)

  send_all-rows :
      (events : List OutboxEvent) (stats : Stats) (box : Outbox)
      → (send_all d answer events stats box).1.rows ≡ map (after_all events) box.rows
  unfolding send_all
  send_all-rows [] stats box = sym (map-same box.rows)
  send_all-rows (e ∷ events) stats box =
      send_all-rows events _ _
      ∙ ap (map (after_all events)) (update-map e.event_id (outcome d e (answer e)) box.rows)
      ∙ map-map (λ r. if has_id e.event_id r then outcome d e (answer e) r else r)
          (after_all events) (after_all (e ∷ events)) box.rows (λ r. refl)

  after_all-absent :
      (events : List OutboxEvent) (r : Row)
      → count (event_id_is r.event_id) events ≡ 0
      → after_all events r ≡ r
  after_all-absent [] r h = refl
  after_all-absent (e ∷ events) r h = ground (arith, after_all-absent events r)

  after_all-settle :
      (events : List OutboxEvent) (r : Row)
      → count (event_id_is r.event_id) events ≤ 1
      → after_all events r ≡ settle d answer (find_event events r.event_id) r
  after_all-settle [] r h = refl
  after_all-settle (e ∷ events) r h = elim (Bool-cases (event_id_is r.event_id e)) [
    | inl own ↦
        let none_left : count (event_id_is r.event_id) events ≡ 0 = ground (arith, own, h) in
        rw (own) (
          after_all-absent events (outcome d e (answer e) r)
            (rw (outcome-event_id e (answer e) r) none_left))
    | inr other ↦ rw (other) (after_all-settle events r (ground (arith, other, h)))
  ]

map-cong : {A : Type 0} (f g : A → A) (xs : List A) → ((x : A) → f x ≡ g x) → map f xs ≡ map g xs
map-cong f g [] e = refl
map-cong f g (x ∷ xs) e = cc (e x, map-cong f g xs e)

count-take-le : {A : Type 0} (p : A → Bool) (n : ℕ) (xs : List A) → count p (take n xs) ≤ count p xs
count-take-le p zero xs = omega arith
count-take-le p (suc n) [] = omega arith
count-take-le p (suc n) (x ∷ xs) = ground (arith, count-take-le p n xs)

count-filterb-le : {A : Type 0} (p q : A → Bool) (xs : List A) → count p (filterb q xs) ≤ count p xs
count-filterb-le p q [] = omega arith
count-filterb-le p q (x ∷ xs) = ground (arith, count-filterb-le p q xs)

abbrev pub is_event : String → Row → Bool
is_event k r = str_eq k r.event_id

count-to_event :
    (k : String) (rows : List Row)
    → count (event_id_is k) (map to_event rows) ≡ count (is_event k) rows
count-to_event k [] = refl
count-to_event k (r ∷ rows) = ground (arith, count-to_event k rows)

pub count-reclaimed :
    (k : String) (now : ℕ) (rows : List Row)
    → count (is_event k) (map (reclaimed now) rows) ≡ count (is_event k) rows
count-reclaimed k now [] = refl
count-reclaimed k now (r ∷ rows) = elim (Bool-cases (is_stale now r)) [
  | inl stale ↦ rw (stale) (ground (arith, count-reclaimed k now rows))
  | inr live ↦ rw (live) (ground (arith, count-reclaimed k now rows))
]

claim_batch-once :
    (d : Dispatcher) (now : ℕ) (box : Outbox) (k : String)
    → count (is_event k) box.rows ≤ 1
    → count (event_id_is k) (claim_batch d now box).0 ≤ 1
unfolding claim_batch due_rows
claim_batch-once d now box k h = omega (
  arith,
  count-to_event k (due_rows d now box.rows),
  count-take-le (is_event k) d.batch_size (sort_by due_before (filterb (is_due now) box.rows)),
  count-sort_by due_before (is_event k) (filterb (is_due now) box.rows),
  count-filterb-le (is_event k) (is_due now) box.rows,
  h,
)

abbrev total : Stats → ℕ
total s = s.sent + s.retried + s.failed + s.skipped

counted-total :
    (d : Dispatcher) (e : OutboxEvent) (reply : Reply) (s : Stats)
    → (total (counted d e reply s) ≡ suc (total s)) × ((counted d e reply s).claimed ≡ s.claimed)
unfolding counted
counted-total d e (unconfigured error) s = (omega arith, refl)
counted-total d e (delivered id) s = (omega arith, refl)
counted-total d e (raised detail) s = ground arith

send_all-total :
    (d : Dispatcher) (answer : OutboxEvent → Answer) (events : List OutboxEvent) (s : Stats)
    (box : Outbox)
    → let s' = (send_all d answer events s box).0 in
      (total s' ≡ total s + length events) × (s'.claimed ≡ s.claimed)
unfolding send_all
send_all-total d answer [] s box = (omega arith, refl)
send_all-total d answer (e ∷ events) s box =
    let h = send_all-total d answer events (counted d e (answer e).reply s) (record {
      rows = update e.event_id (outcome d e (answer e)) box.rows;
      failures = box.failures ++ failures_of d e (answer e);
    }) in
    let k = counted-total d e (answer e).reply s in (omega (arith, h, k), h.1 ∙ k.1)

-- While an event id names one row at most, a dispatch cycle reclaims the stale leases and claims a
-- batch, and then every row is what the answer to the event claimed under its id makes of it, once,
-- or what it was if none was claimed; and each claimed event is counted as sent, retried, failed or
-- skipped.
pub dispatch_once_lem :
    (d : Dispatcher) (answer : OutboxEvent → Answer) (reclaim_at claim_at : ℕ) (box : Outbox)
    → ((k : String) → count (is_event k) box.rows ≤ 1)
    → let (events, claimed) = claim_batch d claim_at (reclaim_stale_leases reclaim_at box).1 in
      let (stats, after) = dispatch_once d answer reclaim_at claim_at box in
      (after.rows ≡ map (λ r. settle d answer (find_event events r.event_id) r) claimed.rows)
      × (stats.sent + stats.retried + stats.failed + stats.skipped ≡ stats.claimed)
      × (stats.claimed ≡ length events)
unfolding dispatch_once
dispatch_once_lem d answer reclaim_at claim_at box once =
    let live = (reclaim_stale_leases reclaim_at box).1 in
    let events = (claim_batch d claim_at live).0 in
    let claimed = (claim_batch d claim_at live).1 in
    let h = send_all-total d answer events _ claimed in
    (
      send_all-rows d answer events _ claimed
          ∙ map-cong (after_all d answer events)
              (λ r. settle d answer (find_event events r.event_id) r) claimed.rows
              (λ r. after_all-settle d answer events r (
                claim_batch-once d claim_at live r.event_id (
                  unfold reclaim_stale_leases in
                  rw (count-reclaimed r.event_id reclaim_at box.rows) (once r.event_id)))),
      omega (arith, h),
      h.1,
    )
