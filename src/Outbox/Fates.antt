-- ===== src/Outbox/Fates.antt =====
-- What a dispatch cycle makes of each row of the outbox.
use radio_broadcast_analysis.Prelude.{
  ℕ, suc, ◌+◌, Bool, true, false, ◌&&◌, ◌||◌, Option, none, some, List, [], ◌∷◌, map, ◌≡◌, ◌⊎◌,
  refl, sym, ap, ◌∙◌, subst, inl, inr, if◌then◌else◌, leb, All, nat_Eq, string_Eq, Bool-cases,
  if_both, if_cases,
}
use radio_broadcast_analysis.Outbox.{
  Row, Status, status_eq, iso_leb, backoff_delay, is_stale, reclaimed,
}
use radio_broadcast_analysis.Outbox.Dispatch.{
  Dispatcher, OutboxEvent, Answer, Reply, unconfigured, delivered, raised, is_due, leased, answered,
}

-- A lease that has lapsed is taken back.
abbrev pub has_lapsed : ℕ → Status → Option ℕ → Bool
has_lapsed t Status.sending (some until) = iso_leb until t
has_lapsed t _ _ = false

-- The row can be claimed at `now`, once the leases that had lapsed at `t` were taken back.
abbrev pub can_be_claimed : ℕ → ℕ → Row → Bool
can_be_claimed t now r =
    (status_eq r.status Status.pending || has_lapsed t r.status r.lease_expires_at)
    && iso_leb r.available_at now

-- The row is of the same message.
abbrev pub SameMessage : Row → Row → Type 0
SameMessage r r' =
    (r'.event_id ≡ r.event_id)
    × (r'.queue_name ≡ r.queue_name)
    × (r'.message_group_id ≡ r.message_group_id)
    × (r'.message_deduplication_id ≡ r.message_deduplication_id)
    × (r'.payload ≡ r.payload)

-- What a reply to the event of `r` makes of the row: `sent`, or `pending` for another try after the
-- backoff, or `failed` when the attempts are used up.
abbrev pub Answered : Dispatcher → ℕ → (ℕ → ℕ) → Reply → Row → Row → Type 0
Answered d at jitter (delivered id) r r' =
    (r'.status ≡ Status.sent)
    × (r'.attempts ≡ r.attempts)
    × (r'.sqs_message_id ≡ some id)
    × (r'.sent_at ≡ some at)
Answered d at jitter (unconfigured error) r r' =
    (r'.status ≡ Status.pending)
    × (r'.attempts ≡ r.attempts)
    × (r'.available_at ≡ at + backoff_delay 0 jitter)
    × (r'.sent_at ≡ r.sent_at)
Answered d at jitter (raised detail) r r' =
    (r'.status ≡ (if leb d.max_attempts (suc r.attempts) then Status.failed else Status.pending))
    × (r'.attempts ≡ suc r.attempts)
    × (r'.available_at ≡ (
        if leb d.max_attempts (suc r.attempts)
        then r.available_at
        else at + backoff_delay r.attempts jitter))
    × (r'.sent_at ≡ r.sent_at)

-- What taking back a lapsed lease makes of a row.
abbrev pub Freed : Bool → Row → Row → Type 0
Freed lapsed r r' =
    if lapsed
    then (r'.status ≡ Status.pending)
      × (r'.lease_expires_at ≡ none)
      × (r'.attempts ≡ r.attempts)
      × SameMessage r r'
    else r' ≡ r

-- A row that is claimed could be, its event is of its message, and it is answered and no longer leased.
-- A row that is not claimed could not be, or the batch is full; its lease is taken back if it had
-- lapsed, and it is otherwise as it was.
abbrev pub Fate :
    Dispatcher → (OutboxEvent → Answer) → ℕ → ℕ → ℕ → Option OutboxEvent → Row → Row → Type 0
Fate d answer t now size (some e) r r' =
    (can_be_claimed t now r ≡ true)
    × (e.payload ≡ r.payload)
    × (e.queue_name ≡ r.queue_name)
    × SameMessage r r'
    × (r'.lease_expires_at ≡ none)
    × Answered d (answer e).at (answer e).jitter (answer e).reply r r'
Fate d answer t now size none r r' =
    ((can_be_claimed t now r ≡ false) ⊎ (size ≡ d.batch_size))
    × Freed (has_lapsed t r.status r.lease_expires_at) r r'

-- The rows of two tables, one by one.
abbrev pub Each : (Row → Row → Type 0) → List Row → List Row → Type 0
Each R [] [] = Unit
Each R [] (s ∷ ss) = ⊥
Each R (r ∷ rs) [] = ⊥
Each R (r ∷ rs) (s ∷ ss) = R r s × Each R rs ss

pub Each-map :
    (R : Row → Row → Type 0) (f : Row → Row) (rs : List Row)
    → All (λ r. R r (f r)) rs
    → Each R rs (map f rs)
Each-map R f [] h = tt
Each-map R f (r ∷ rs) h = (h.0, Each-map R f rs h.1)

lapsed_stale : (t : ℕ) (r : Row) → is_stale t r ≡ has_lapsed t r.status r.lease_expires_at
lapsed_stale t r = over r.status r.lease_expires_at
  where
    over :
        (s : Status) (l : Option ℕ)
        → (elim l as (λ _. Bool) [
          | none ↦ false
          | some until ↦ status_eq s Status.sending && iso_leb until t
        ])
          ≡ has_lapsed t s l
    over Status.pending none = refl
    over Status.pending (some u) = refl
    over Status.sending none = refl
    over Status.sending (some u) = refl
    over Status.sent none = refl
    over Status.sent (some u) = refl
    over Status.failed none = refl
    over Status.failed (some u) = refl

-- What leaves a row as it was but for its status and its lease.
abbrev pub Kept : Row → Row → Type 0
Kept r x =
    (x.attempts ≡ r.attempts)
    × (x.available_at ≡ r.available_at)
    × (x.sent_at ≡ r.sent_at)
    × SameMessage r x

pub reclaimed-Kept : (t : ℕ) (r : Row) → Kept r (reclaimed t r)
reclaimed-Kept t r =
    if_both (Kept r) (is_stale t r)
      (record r { status = Status.pending; lease_expires_at = none; updated_at = t }) r
      (refl, refl, refl, (refl, refl, refl, refl, refl))
      (refl, refl, refl, (refl, refl, refl, refl, refl))

pub leased-Kept : (d : Dispatcher) (now : ℕ) (r x : Row) → Kept r x → Kept r (leased d now x)
leased-Kept d now r x k =
    if_both (Kept r) (status_eq x.status Status.pending)
      (record x {
        status = Status.sending;
        lease_expires_at = some (now + d.lease);
        updated_at = now;
      })
      x k k

or_true : (p x : Bool) → x ≡ ((p || true) && x)
or_true true x = refl
or_true false x = refl

or_none : (p x : Bool) → (p && x) ≡ ((p || false) && x)
or_none true x = refl
or_none false x = refl

pub due_can : (t now : ℕ) (r : Row) → is_due now (reclaimed t r) ≡ can_be_claimed t now r
due_can t now r =
    let p = status_eq r.status Status.pending in
    let x = iso_leb r.available_at now in
    if_cases (λ (s : Row). is_due now s ≡ can_be_claimed t now r) (is_stale t r)
      (record r { status = Status.pending; lease_expires_at = none; updated_at = t }) r
      (λ h. or_true p x ∙ ap (λ b. (p || b) && x) (sym h ∙ lapsed_stale t r))
      (λ h. or_none p x ∙ ap (λ b. (p || b) && x) (sym h ∙ lapsed_stale t r))

pub reclaimed-Freed :
    (t : ℕ) (r : Row) → Freed (has_lapsed t r.status r.lease_expires_at) r (reclaimed t r)
reclaimed-Freed t r =
    subst (λ b. Freed b r (reclaimed t r)) (lapsed_stale t r) (over (is_stale t r))
  where
    over :
        (b : Bool)
        → Freed b r (
            if b
            then record r { status = Status.pending; lease_expires_at = none; updated_at = t }
            else r)
    over true = (refl, refl, refl, (refl, refl, refl, refl, refl))
    over false = refl

pub answered-lem :
    (d : Dispatcher) (e : OutboxEvent) (at : ℕ) (jitter : ℕ → ℕ) (reply : Reply) (r x : Row)
    → Kept r x
    → e.attempts ≡ r.attempts
    → let r' = answered d e at jitter reply x in
      SameMessage r r' × (r'.lease_expires_at ≡ none) × Answered d at jitter reply r r'
answered-lem d e at jitter (delivered id) r x k same = (k.3, refl, (refl, k.0, refl, refl))
answered-lem d e at jitter (unconfigured error) r x k same = (k.3, refl, (refl, k.0, refl, k.2))
answered-lem d e at jitter (raised detail) r x k same =
    elim (Bool-cases (leb d.max_attempts (suc e.attempts))) [
      | inl last ↦
          let used : leb d.max_attempts (suc r.attempts) ≡ true =
            ap (λ n. leb d.max_attempts (suc n)) (sym same) ∙ last in
          rw (last, used) (k.3, refl, (refl, ap suc k.0, k.1, k.2))
      | inr more ↦
          let left : leb d.max_attempts (suc r.attempts) ≡ false =
            ap (λ n. leb d.max_attempts (suc n)) (sym same) ∙ more in
          rw (more, left)
            (k.3, refl, (refl, ap suc k.0, ap (λ n. at + backoff_delay n jitter) same, k.2))
    ]
