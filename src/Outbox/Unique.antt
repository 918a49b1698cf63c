-- ===== src/Outbox/Unique.antt =====
-- Rows of a table in which an event id names one row at most.
use radio_broadcast_analysis.Prelude.{
  ℕ, ◌≤◌, String, true, false, List, [], ◌∷◌, ◌≡◌, refl, sym, ap, ◌∙◌, subst, inl, inr, arith,
  if◌then◌else◌, filterb, count, All, All-filterb, All-take, All-imp, All-zip, nat_Eq, string_Eq,
  eq_iff, str_eq, Bool-cases,
}
use radio_broadcast_analysis.Prelude.Sort.{All-sort_by}
use radio_broadcast_analysis.Outbox.{Row, sort_by}
use radio_broadcast_analysis.Outbox.Dispatch.{Dispatcher, is_due, due_rows, due_before}
use radio_broadcast_analysis.Outbox.Settled.{is_event}
use radio_broadcast_analysis.Outbox.Claims.{holds_id, due_rows-IsDue}

absent_all :
    (k : String) (rows : List Row)
    → count (is_event k) rows ≡ 0
    → All (λ c. str_eq k c.event_id ≡ false) rows
absent_all k [] h = tt
absent_all k (r ∷ rows) h = (ground (arith, h), absent_all k rows (ground (arith, h)))

turned : (a b : String) → str_eq a b ≡ false → str_eq b a ≡ true → ⊥
turned a b n e = absurd (cc (n, (eq_iff a b).1 (sym ((eq_iff b a).0 e))))

-- Rows with one id are one row.
pub same_row :
    (rows : List Row)
    → ((k : String) → count (is_event k) rows ≤ 1)
    → All (λ r. All (λ c. str_eq r.event_id c.event_id ≡ true → c ≡ r) rows) rows
same_row [] once = tt
same_row (x ∷ xs) once =
    let absent =
      absent_all x.event_id xs
        (ground (arith, once x.event_id, (eq_iff x.event_id x.event_id).1 refl)) in
    (
      ((λ _. refl), All-imp (λ c n e. absurd (cc (n, e))) xs absent),
      All-zip (λ r n rest. ((λ e. absurd (turned x.event_id r.event_id n e)), rest)) xs absent
          (same_row xs (λ k. ground (arith, once k))),
    )

-- What is chosen is among the rows.
pub All-due_rows :
    (P : Row → Type 0) (d : Dispatcher) (now : ℕ) (rows : List Row)
    → All P rows
    → All P (due_rows d now rows)
unfolding due_rows
All-due_rows P d now rows h =
    All-take P d.batch_size (sort_by due_before (filterb (is_due now) rows))
      (All-sort_by due_before P (filterb (is_due now) rows) (All-filterb P (is_due now) rows h))

pub same_chosen :
    (d : Dispatcher) (now : ℕ) (rows : List Row)
    → ((k : String) → count (is_event k) rows ≤ 1)
    → All (λ r. All (λ c. str_eq r.event_id c.event_id ≡ true → c ≡ r) (due_rows d now rows)) rows
same_chosen d now rows once =
    All-imp
      (λ r same. All-due_rows (λ c. str_eq r.event_id c.event_id ≡ true → c ≡ r) d now rows same)
      rows (same_row rows once)

-- What holds of the chosen row of an id holds of the row with this id.
chosen_all :
    (k : String) (chosen : List Row) (Q : Row → Type 0)
    → All (λ c. str_eq k c.event_id ≡ true → Q c) chosen
    → holds_id k chosen ≡ true
    → (c : Row) × Q c × (str_eq k c.event_id ≡ true)
chosen_all k [] Q h found = absurd cc
chosen_all k (c ∷ chosen) Q h found = elim (Bool-cases (str_eq k c.event_id)) [
  | inl own ↦ (c, h.0 own, own)
  | inr other ↦
      chosen_all k chosen Q h.1
        (sym (ap (λ b. if b then true else holds_id k chosen) other) ∙ found)
]

-- A row whose id was chosen is due.
pub chosen_due :
    (d : Dispatcher) (now : ℕ) (rows : List Row)
    → ((k : String) → count (is_event k) rows ≤ 1)
    → All (λ r. holds_id r.event_id (due_rows d now rows) ≡ true → is_due now r ≡ true) rows
chosen_due d now rows once =
    All-imp
      (λ r same found.
        let due = due_rows-IsDue d now rows in
        let both : All (λ c. str_eq r.event_id c.event_id ≡ true → (c ≡ r) × (is_due now c ≡ true))
            (due_rows d now rows) =
          All-zip (λ c s is e. (s e, is)) (due_rows d now rows)
            (All-due_rows (λ c. str_eq r.event_id c.event_id ≡ true → c ≡ r) d now rows same) due in
        let k =
          chosen_all r.event_id (due_rows d now rows) (λ c. (c ≡ r) × (is_due now c ≡ true)) both
            found in
        subst (λ c. is_due now c ≡ true) k.1.0 k.1.1)
      rows (same_row rows once)
