-- ===== src/Monitoring/Stopping.antt =====
-- Which stations are stopped when the campaigns change.
use radio_broadcast_analysis.Prelude.{
  ℕ, ◌<◌, true, false, none, List, [], ◌∷◌, map, ◌≡◌, ◌≢◌, refl, ◌∙◌, inl, inr, arith, ltb, nat_eq,
  filterb, All, nat_Eq, string_Eq, Bool-cases, Option-cases,
}
use radio_broadcast_analysis.Monitoring.{
  ManagedStation, Store, references, set_count, disarm, revive, recount, recompute_reference_counts,
  is_due_for_stop, stations_due_for_stop,
}

recount-id : (now grace refs : ℕ) (r : ManagedStation) → (recount now grace refs r).id ≡ r.id
unfolding recount
recount-id now grace refs r = ground arith

recount-pinned :
    (now grace refs : ℕ) (r : ManagedStation)
    → (recount now grace refs r).legacy_pinned ≡ r.legacy_pinned
unfolding recount
recount-pinned now grace refs r = ground arith

set_count-stop_after :
    (now refs : ℕ) (r : ManagedStation) → (set_count now refs r).stop_after ≡ r.stop_after
set_count-stop_after now refs r = ground arith

revive-stop_after :
    (now : ℕ) (old r : ManagedStation) → (revive now old r).stop_after ≡ r.stop_after
revive-stop_after now old r = ground arith

disarm-stop_after :
    (now : ℕ) (old r : ManagedStation)
    → r.stop_after ≡ old.stop_after
    → (disarm now old r).stop_after ≡ none
disarm-stop_after now old r e = elim (Option-cases old.stop_after) [
  | inl unset ↦ rw (unset) (e ∙ unset)
  | inr (at, set) ↦ rw (set) refl
]

-- A referenced station has no stop timer after the recount.
recount-referenced :
    (now grace refs : ℕ) (r : ManagedStation)
    → 0 < refs
    → (recount now grace refs r).stop_after ≡ none
unfolding recount
recount-referenced now grace refs r h =
    let some_ : ltb 0 refs ≡ true = ground arith in
    let none_ : nat_eq refs 0 ≡ false = ground arith in
    rw (none_, some_)
      (revive-stop_after now r (disarm now r (set_count now refs r))
        ∙ disarm-stop_after now r (set_count now refs r) (set_count-stop_after now refs r))

due-pinned :
    (now : ℕ) (r : ManagedStation)
    → is_due_for_stop now r ≡ true
    → (r.stop_after ≢ none) × (r.legacy_pinned ≡ false)
due-pinned now r h = elim (Option-cases r.stop_after) [
  | inl unset ↦ absurd (never unset h)
  | inr (at, set) ↦ (λ unset. never unset h, ground (arith, h))
]
  where
    never : r.stop_after ≡ none → is_due_for_stop now r ≡ true → ⊥
    never unset due = let e : is_due_for_stop now r ≡ false = rw (unset) refl in cc

-- After the references are recounted, only stations that no active campaign refers to, and that are
-- not pinned, are due to be stopped, at any time.
pub recompute-due :
    (now grace later : ℕ) (db : Store)
    → All
        (λ r. (references db r.id ≡ 0) × (r.legacy_pinned ≡ false))
        (stations_due_for_stop later (recompute_reference_counts now grace db).1)
unfolding stations_due_for_stop recompute_reference_counts
recompute-due now grace later db = over db.stations
  where
    over :
        (rows : List ManagedStation)
        → All
            (λ r. (references db r.id ≡ 0) × (r.legacy_pinned ≡ false))
            (filterb
              (is_due_for_stop later)
              (map (λ r. recount now grace (references db r.id) r) rows))
    over [] = tt
    over (r ∷ rows) =
        let r' = recount now grace (references db r.id) r in
        elim (Bool-cases (is_due_for_stop later r')) [
          | inl due ↦ rw (due) ((unreferenced r due, (due-pinned later r' due).1), over rows)
          | inr stays ↦ rw (stays) (over rows)
        ]
      where
        unreferenced :
            (r : ManagedStation)
            → is_due_for_stop later (recount now grace (references db r.id) r) ≡ true
            → references db (recount now grace (references db r.id) r).id ≡ 0
        unreferenced r due =
            rw (recount-id now grace (references db r.id) r)
              (elim (Bool-cases (nat_eq (references db r.id) 0)) [
                | inl none_ ↦ ground (arith, none_)
                | inr some_ ↦ absurd (
                    (due-pinned later (recount now grace (references db r.id) r) due).0
                      (recount-referenced now grace (references db r.id) r (ground (arith, some_))))
              ])
