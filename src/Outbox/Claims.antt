-- ===== src/Outbox/Claims.antt =====
-- `_claim_batch`: which rows are claimed, and that no other dispatcher claims them.
use radio_broadcast_analysis.Prelude.{
  ℕ, zero, suc, String, Bool, true, false, List, [], ◌∷◌, map, ◌≡◌, ◌⊎◌, refl, sym, ap, ◌∙◌, inl,
  inr, arith, if◌then◌else◌, length, take, filterb, anyb, All, All-take, All-imp, nat_Eq, string_Eq,
  eq_iff, str_eq, Bool-cases, if_both, if_cases,
}
use radio_broadcast_analysis.Prelude.Sort.{sort_by, All-sort_by, anyb-sort_by}
use radio_broadcast_analysis.Outbox.{Status, status_eq, Row, update}
use radio_broadcast_analysis.Outbox.Dispatch.{
  OutboxEvent, Dispatcher, to_event, is_due, due_before, due_rows, leased, lease_all,
}

-- One of the rows has this id.
abbrev pub holds_id : String → List Row → Bool
holds_id k rows = anyb (λ c. str_eq k c.event_id) rows

abbrev pub has_event : String → List OutboxEvent → Bool
has_event k events = anyb (λ e. str_eq k e.event_id) events

-- What the claim makes of a row.
abbrev pub if_claimed : Dispatcher → ℕ → List Row → Row → Row
if_claimed d now chosen r = if holds_id r.event_id chosen then leased d now r else r

leased-event_id : (d : Dispatcher) (now : ℕ) (r : Row) → (leased d now r).event_id ≡ r.event_id
leased-event_id d now r = ground arith

leased_twice : (d : Dispatcher) (now : ℕ) (r : Row) → leased d now (leased d now r) ≡ leased d now r
leased_twice d now r = elim (Bool-cases (status_eq r.status Status.pending)) [
  | inl h ↦ rw (h) refl
  | inr h ↦ rw (h) (rw (h) refl)
]

lease_one :
    (d : Dispatcher) (now : ℕ) (c : Row) (chosen : List Row) (r : Row)
    → if_claimed d now chosen (if str_eq r.event_id c.event_id then leased d now r else r)
      ≡ if_claimed d now (c ∷ chosen) r
lease_one d now c chosen r = elim (Bool-cases (str_eq r.event_id c.event_id)) [
  | inl own ↦ rw (own) (
      ap (λ k. if holds_id k chosen then leased d now (leased d now r) else leased d now r)
        (leased-event_id d now r)
      ∙ if_both (λ (x : Row). x ≡ leased d now r) (holds_id r.event_id chosen)
          (leased d now (leased d now r)) (leased d now r) (leased_twice d now r) refl)
  | inr other ↦ rw (other) refl
]

lease_one-map :
    (d : Dispatcher) (now : ℕ) (c : Row) (chosen xs : List Row)
    → map (if_claimed d now chosen) (update c.event_id (leased d now) xs)
      ≡ map (if_claimed d now (c ∷ chosen)) xs
unfolding update
lease_one-map d now c chosen [] = refl
lease_one-map d now c chosen (x ∷ xs) =
    cc (lease_one d now c chosen x, lease_one-map d now c chosen xs)

unclaimed : (d : Dispatcher) (now : ℕ) (xs : List Row) → xs ≡ map (if_claimed d now []) xs
unclaimed d now [] = refl
unclaimed d now (x ∷ xs) = ap (◌∷◌ x) (unclaimed d now xs)

pub lease_all-map :
    (d : Dispatcher) (now : ℕ) (chosen rows : List Row)
    → lease_all d now chosen rows ≡ map (if_claimed d now chosen) rows
unfolding lease_all
lease_all-map d now [] rows = unclaimed d now rows
lease_all-map d now (c ∷ chosen) rows =
    lease_all-map d now chosen (update c.event_id (leased d now) rows)
    ∙ lease_one-map d now c chosen rows

kept_all : (p : Row → Bool) (rows : List Row) → All (λ r. p r ≡ true) (filterb p rows)
kept_all p [] = tt
kept_all p (r ∷ rows) =
    if_cases (λ (xs : List Row). All (λ x. p x ≡ true) xs) (p r) (r ∷ filterb p rows)
      (filterb p rows) (λ h. (h, kept_all p rows)) (λ _. kept_all p rows)

-- Every chosen row is pending and due.
pub due_rows-IsDue :
    (d : Dispatcher) (now : ℕ) (rows : List Row)
    → All (λ c. is_due now c ≡ true) (due_rows d now rows)
unfolding due_rows
due_rows-IsDue d now rows =
    let P : Row → Type 0 = λ c. is_due now c ≡ true in
    All-take P d.batch_size (sort_by due_before (filterb (is_due now) rows))
      (All-sort_by due_before P (filterb (is_due now) rows) (kept_all (is_due now) rows))

holds_id-take :
    (k : String) (n : ℕ) (xs : List Row)
    → holds_id k xs ≡ true
    → (holds_id k (take n xs) ≡ true) ⊎ (length (take n xs) ≡ n)
holds_id-take k zero xs h = inr refl
holds_id-take k (suc n) [] h = absurd cc
holds_id-take k (suc n) (x ∷ xs) h = elim (Bool-cases (str_eq k x.event_id)) [
  | inl own ↦ inl (ap (λ b. if b then true else holds_id k (take n xs)) own)
  | inr other ↦
      let later : holds_id k xs ≡ true =
        sym (ap (λ b. if b then true else holds_id k xs) other) ∙ h in
      elim (holds_id-take k n xs later) [
        | inl found ↦ inl (ap (λ b. if b then true else holds_id k (take n xs)) other ∙ found)
        | inr full ↦ inr (ap suc full)
      ]
]

or_held : (a : Bool) {b : Bool} → b ≡ true → (if a then true else b) ≡ true
or_held true h = refl
or_held false h = h

holds_id-due :
    (now : ℕ) (rows : List Row)
    → All (λ r. is_due now r ≡ true → holds_id r.event_id (filterb (is_due now) rows) ≡ true) rows
holds_id-due now [] = tt
holds_id-due now (r ∷ rows) =
    let due = filterb (is_due now) rows in
    (
      (λ is.
          ap (λ b. holds_id r.event_id (if b then r ∷ due else due)) is
          ∙ ap (λ b. if b then true else holds_id r.event_id due)
              ((eq_iff r.event_id r.event_id).1 refl)),
      All-imp
          (λ x k is.
            if_both (λ (xs : List Row). holds_id x.event_id xs ≡ true) (is_due now r) (r ∷ due) due
              (or_held (str_eq x.event_id r.event_id) (k is)) (k is))
          rows (holds_id-due now rows),
    )

-- A row that is due is chosen, unless the batch is full.
pub due_rows-full :
    (d : Dispatcher) (now : ℕ) (rows : List Row)
    → All
        (λ r.
          is_due now r ≡ true
          → (holds_id r.event_id (due_rows d now rows) ≡ true)
            ⊎ (length (due_rows d now rows) ≡ d.batch_size))
        rows
unfolding due_rows
due_rows-full d now rows =
    let due = filterb (is_due now) rows in
    All-imp
      (λ r h is.
        holds_id-take r.event_id d.batch_size (sort_by due_before due)
          (anyb-sort_by due_before (λ c. str_eq r.event_id c.event_id) due ∙ h is))
      rows (holds_id-due now rows)

pub has_event-map :
    (k : String) (rows : List Row) → has_event k (map to_event rows) ≡ holds_id k rows
has_event-map k [] = refl
has_event-map k (r ∷ rows) =
    ap (λ b. if str_eq k r.event_id then true else b) (has_event-map k rows)
