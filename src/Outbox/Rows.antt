-- ===== src/Outbox/Rows.antt =====
-- Which rows the outbox takes in, and which it lets go.
use radio_broadcast_analysis.Prelude.{
  ℕ, ◌-◌, ◌*◌, String, Bool, true, false, not, ◌&&◌, Option, List, [], ◌∷◌, ◌++◌, ◌≡◌, refl, inl,
  inr, arith, filterb, anyb, count, nat_Eq, string_Eq, eq_iff, Bool-cases,
}
use radio_broadcast_analysis.Outbox.{
  new_row, Status, Row, Outbox, iso_leb, status_eq, enqueue, prune, is_message,
}

count-found : (p : Row → Bool) (rows : List Row) → anyb p rows ≡ false → count p rows ≡ 0
count-found p [] h = refl
count-found p (r ∷ rows) h = ground (arith, count-found p rows)

anyb-snoc :
    (p : Row → Bool) (rows : List Row) (r : Row) → p r ≡ true → anyb p (rows ++ r ∷ []) ≡ true
anyb-snoc p [] r h = rw (h) refl
anyb-snoc p (x ∷ rows) r h = ground (arith, anyb-snoc p rows r h)

-- After `enqueue` the outbox holds a row of the message, and enqueuing the message again, at any
-- time and with any payload, changes nothing.
pub enqueue_again :
    (box : Outbox) (now later : ℕ) (event event' queue group group' id : String)
    (payload payload' : List ℕ) (trace trace' : Option String)
    → let box' = enqueue box now event queue group id payload trace in
      (anyb (is_message queue id) box'.rows ≡ true)
      × (enqueue box' later event' queue group' id payload' trace' ≡ box')
unfolding enqueue
enqueue_again box now later event event' queue group group' id payload payload' trace trace' =
    let row = new_row now event queue group id payload trace in
    let own : is_message queue id row ≡ true =
      rw ((eq_iff queue queue).1 refl, (eq_iff id id).1 refl) refl in
    elim (Bool-cases (anyb (is_message queue id) box.rows)) [
      | inl there ↦ rw (there, there) (refl, refl)
      | inr absent ↦
          let h = anyb-snoc (is_message queue id) box.rows row own in rw (absent, h) (refl, refl)
    ]

-- `prune` removes nothing that was not sent.
pub prune_lem :
    (retention now : ℕ) (box : Outbox) (p : Row → Bool)
    → count (λ r. not (status_eq r.status Status.sent) && p r) (prune retention now box).1.rows
      ≡ count (λ r. not (status_eq r.status Status.sent) && p r) box.rows
unfolding prune
prune_lem retention now box p = kept box.rows
  where
    kept :
        (rows : List Row)
        → count
            (λ r. not (status_eq r.status Status.sent) && p r)
            (filterb
              (λ r. not (
                status_eq r.status Status.sent
                && not (iso_leb (now - retention * 86400000000) r.updated_at)))
              rows)
          ≡ count (λ r. not (status_eq r.status Status.sent) && p r) rows
    kept [] = refl
    kept (r ∷ rows) = ground (arith, kept rows)
