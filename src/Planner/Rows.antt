-- ===== src/Planner/Rows.antt =====
-- The row of one station, and what updates of the table leave of it.
use radio_broadcast_analysis.Prelude.{
  ℕ, String, Bool, true, false, Option, none, some, ◌≡◌, refl, sym, ap, ◌∙◌, subst, inl, inr, arith,
  nat_Eq, string_Eq, eq_iff, str_eq, Bool-cases, if_both,
}
use radio_broadcast_analysis.Prelude.Dict.{get, put, get-put}
use radio_broadcast_analysis.Planner.{
  State, Subscription, Table, set_row, update_row, upsert_row, revived, is_was_active,
}
use radio_broadcast_analysis.Planner.Cycle.{is_assignable}

-- The station has a row, and it meets the predicate.
abbrev pub HasRow : (Subscription → Type 0) → String → Table → Type 0
HasRow P id t = (r : Subscription) × (get t id ≡ some r) × P r

module _ (P : Subscription → Type 0) (id : String) where
  pub put-HasRow :
      (t : Table) (j : String) (r : Subscription)
      → (str_eq j id ≡ true → P r)
      → (str_eq j id ≡ false → HasRow P id t)
      → HasRow P id (put t j r)
  put-HasRow t j r here there = elim (Bool-cases (str_eq j id)) [
    | inl same ↦ (r, ground (arith, get-put t j id r, same), here same)
    | inr other ↦ let h = there other in (h.0, ground (arith, get-put t j id r, other, h.1), h.2)
  ]

  -- An update that keeps the predicate keeps the row, whichever station it is of.
  pub update_row-HasRow :
      (t : Table) (j : String) (f : Subscription → Subscription)
      → ((r : Subscription) → P r → P (f r))
      → HasRow P id t
      → HasRow P id (update_row t j f)
  update_row-HasRow t j f keeps h = over (get t j) refl
    where
      over : (row : Option Subscription) → get t j ≡ row → HasRow P id (set_row t j f row)
      over none e = h
      over (some r) e =
          put-HasRow t j (f r)
            (λ same.
              let key = (eq_iff j id).0 same in
              let same_row : some h.0 ≡ some r = sym h.1 ∙ (ap (get t) (sym key) ∙ e) in
              keeps r (
                subst P (ap (λ o. elim o as (λ _. Subscription) [ none ↦ r | some x ↦ x ]) same_row)
                  h.2))
            (λ _. h)

  update_row-other :
      (t : Table) (j : String) (f : Subscription → Subscription)
      → str_eq j id ≡ false
      → HasRow P id t
      → HasRow P id (update_row t j f)
  update_row-other t j f other h = over (get t j)
    where
      over : (row : Option Subscription) → HasRow P id (set_row t j f row)
      over none = h
      over (some r) = put-HasRow t j (f r) (λ same. absurd cc) (λ _. h)

pub get-set_row_other :
    (t : Table) (j id : String) (f : Subscription → Subscription) (row : Option Subscription)
    → str_eq j id ≡ false
    → get (set_row t j f row) id ≡ get t id
get-set_row_other t j id f none other = refl
get-set_row_other t j id f (some r) other = ground (arith, get-put t j id (f r), other)

pub get-upsert_row_other :
    (t : Table) (j id : String) (row : Subscription) (f : Subscription → Subscription)
    (old : Option Subscription)
    → str_eq j id ≡ false
    → get (upsert_row t j row f old) id ≡ get t id
get-upsert_row_other t j id row f none other = ground (arith, get-put t j id row, other)
get-upsert_row_other t j id row f (some r) other = ground (arith, get-put t j id (f r), other)

-- The station is in the pool of the listener that has its shard.
abbrev pub in_pool : State → Bool
in_pool State.desired = false
in_pool s = is_assignable s

pub revived-live : (s : State) (reason : Option String) → is_assignable (revived s reason) ≡ true
revived-live State.desired reason = refl
revived-live State.pending_capacity reason = refl
revived-live State.starting reason = refl
revived-live State.active reason = refl
revived-live State.degraded reason = refl
revived-live State.stopped reason = refl
revived-live State.winding_down reason =
    if_both (λ s. is_assignable s ≡ true) (is_was_active reason) State.active State.desired refl
      refl

pub in_pool-assignable : (s : State) → in_pool s ≡ true → is_assignable s ≡ true
in_pool-assignable State.desired h = refl
in_pool-assignable State.pending_capacity h = refl
in_pool-assignable State.starting h = refl
in_pool-assignable State.active h = refl
in_pool-assignable State.degraded h = refl
in_pool-assignable State.winding_down h = h
in_pool-assignable State.stopped h = h

-- A row of a station that `n` campaigns refer to, in its shard.
abbrev pub Serves : (State → Bool) → ℕ → ℕ → Subscription → Type 0
Serves good n shard r =
    (r.reference_count ≡ n)
    × (r.shard_index ≡ shard)
    × (good r.state ≡ true)
    × (r.winddown_after ≡ none)

-- The predicate depends on the row only.
pub same_row :
    (P : Subscription → Type 0) (id : String) (t t' : Table)
    → get t' id ≡ get t id
    → HasRow P id t
    → HasRow P id t'
same_row P id t t' e h = (h.0, e ∙ h.1, h.2)
