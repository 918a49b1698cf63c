-- ===== src/Supervisor/Fairness.antt =====
-- Who gets the free slots.
use radio_broadcast_analysis.Prelude.{
  ℕ, zero, suc, ◌-◌, ◌≤◌, min, String, Bool, true, false, ◌&&◌, ◌||◌, Option, none, some, List, [],
  ◌∷◌, ◌≡◌, ◌⊎◌, refl, ap, inl, inr, arith, if◌then◌else◌, ltb, nat_eq, length, take, anyb, count,
  All, All-zip, length-take, nat_Eq, string_Eq, eq_iff, str_eq,
}
use radio_broadcast_analysis.Prelude.Dict.{Dict, get}
use radio_broadcast_analysis.Prelude.Sort.{
  sort_by, Ordered, sort_by-Ordered, count-sort_by, length-sort_by, All-sort_by_inv,
}
use radio_broadcast_analysis.Prelude.Text.{text_leb, text_leb_total, text_leb_trans}
use radio_broadcast_analysis.Stream.{StationPlan}
use radio_broadcast_analysis.Supervisor.{Settings, Supervisor, served_leb}
use radio_broadcast_analysis.Supervisor.Reconcile.{fairer, next_in_line}

fairer_total :
    (last_served : Dict String ℕ) (a b : String × StationPlan)
    → fairer last_served a b ≡ false
    → fairer last_served b a ≡ true
fairer_total last_served (a, p) (b, q) h = over (get last_served a) (get last_served b) h
  where
    over :
        (x y : Option ℕ)
        → (if served_leb x y then (if served_leb y x then text_leb a b else true) else false)
          ≡ false
        → (if served_leb y x then (if served_leb x y then text_leb b a else true) else false) ≡ true
    over none none h = text_leb_total a b h
    over none (some y) h = absurd cc
    over (some x) none h = refl
    over (some x) (some y) h = ground (arith, h, text_leb_total a b)

fairer_trans :
    (last_served : Dict String ℕ) (a b c : String × StationPlan)
    → fairer last_served a b ≡ true
    → fairer last_served b c ≡ true
    → fairer last_served a c ≡ true
fairer_trans last_served (a, p) (b, q) (c, r) h k =
    over (get last_served a) (get last_served b) (get last_served c) h k
  where
    over :
        (x y z : Option ℕ)
        → (if served_leb x y then (if served_leb y x then text_leb a b else true) else false) ≡ true
        → (if served_leb y z then (if served_leb z y then text_leb b c else true) else false) ≡ true
        → (if served_leb x z then (if served_leb z x then text_leb a c else true) else false) ≡ true
    over none none none h k = text_leb_trans a b c h k
    over none none (some z) h k = refl
    over none (some y) none h k = absurd cc
    over none (some y) (some z) h k = refl
    over (some x) none z h k = absurd cc
    over (some x) (some y) none h k = absurd cc
    over (some x) (some y) (some z) h k = ground (arith, h, k, text_leb_trans a b c)

-- The station that was last served at `x` comes before the one that was at `y`: one that never was
-- before all that were, and of those served at one time the smaller id first.
abbrev pub comes_first : Option ℕ → String → Option ℕ → String → Bool
comes_first none a none b = text_leb a b
comes_first none a (some y) b = true
comes_first (some x) a none b = false
comes_first (some x) a (some y) b = ltb x y || (nat_eq x y && text_leb a b)

abbrev pub precedes : Dict String ℕ → String × StationPlan → String × StationPlan → Bool
precedes last_served (a, _) (b, _) = comes_first (get last_served a) a (get last_served b) b

fairer-precedes :
    (last_served : Dict String ℕ) (a b : String × StationPlan)
    → fairer last_served a b ≡ true
    → precedes last_served a b ≡ true
fairer-precedes last_served (a, p) (b, q) h = over (get last_served a) (get last_served b) h
  where
    over :
        (x y : Option ℕ)
        → (if served_leb x y then (if served_leb y x then text_leb a b else true) else false) ≡ true
        → comes_first x a y b ≡ true
    over none none h = h
    over none (some y) h = refl
    over (some x) none h = absurd cc
    over (some x) (some y) h = ground (arith, h)

abbrev pub is_station : String → String × StationPlan → Bool
is_station id slot = str_eq id slot.0

or_true : (a : Bool) {b : Bool} → b ≡ true → (if a then true else b) ≡ true
or_true true h = refl
or_true false h = h

-- Who is not among the first of an ordered list comes after all of them.
take_or_after :
    (last_served : Dict String ℕ) (n : ℕ) (xs : List (String × StationPlan))
    → Ordered (fairer last_served) xs
    → All
        (λ w.
          (anyb (is_station w.0) (take n xs) ≡ true)
          ⊎ All (λ c. precedes last_served c w ≡ true) (take n xs))
        xs
take_or_after last_served zero xs o = everyone xs
  where
    everyone :
        (ys : List (String × StationPlan))
        → All
            (λ w. (anyb (is_station w.0) [] ≡ true) ⊎ All (λ c. precedes last_served c w ≡ true) [])
            ys
    everyone [] = tt
    everyone (y ∷ ys) = (inr tt, everyone ys)
take_or_after last_served (suc n) [] o = tt
take_or_after last_served (suc n) (x ∷ xs) o = (
  inl (ap (λ b. if b then true else anyb (is_station x.0) (take n xs)) ((eq_iff x.0 x.0).1 refl)),
  All-zip
      (λ w first k. elim k [
        | inl chosen ↦ inl (or_true (is_station w.0 x) chosen)
        | inr after ↦ inr (fairer-precedes last_served x w first, after)
      ])
      xs o.0 (take_or_after last_served n xs o.1),
)

count-take-le :
    (p : String × StationPlan → Bool) (n : ℕ) (xs : List (String × StationPlan))
    → count p (take n xs) ≤ count p xs
count-take-le p zero xs = omega arith
count-take-le p (suc n) [] = omega arith
count-take-le p (suc n) (x ∷ xs) = ground (arith, count-take-le p n xs)

-- The free slots go to those who have waited longest. As many of those who wait are chosen as there
-- are free slots, or all if fewer wait, each of them once; and whoever waits is chosen, or each of the chosen comes before it: it
-- was never served and the other was, or it was served earlier, or both were never served, or
-- at the same time, and its id is no greater.
pub next_in_line-fair :
    {C : Type 0} (settings : Settings) (classifier_factory : String → C)
    (new_id : String → ℕ → String) (waiting : Dict String StationPlan) (u : Supervisor C)
    → let chosen = next_in_line settings classifier_factory new_id waiting u in
      (length chosen ≡ min (settings.max_sessions - length u.sessions) (length waiting))
      × ((p : String × StationPlan → Bool) → count p chosen ≤ count p waiting)
      × All
          (λ w.
            (anyb (is_station w.0) chosen ≡ true)
            ⊎ All (λ c. precedes u.last_served c w ≡ true) chosen)
          waiting
next_in_line-fair settings classifier_factory new_id waiting u =
    let before = fairer u.last_served in
    let free = settings.max_sessions - length u.sessions in
    let sorted = sort_by before waiting in
    (
      omega (arith, length-take free sorted, length-sort_by before waiting),
      λ p. omega (arith, count-take-le p free sorted, count-sort_by before p waiting),
      All-sort_by_inv before
          (λ w.
            (anyb (is_station w.0) (take free sorted) ≡ true)
            ⊎ All (λ c. precedes u.last_served c w ≡ true) (take free sorted))
          waiting
          (take_or_after u.last_served free sorted (
            sort_by-Ordered before (fairer_total u.last_served) (fairer_trans u.last_served)
              waiting)),
    )
