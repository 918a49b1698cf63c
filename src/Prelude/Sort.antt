-- ===== src/Prelude/Sort.antt =====
-- sorted(xs, key=...): the stable sort by a Boolean order, and what it keeps.
use mathlib.Core.Path.{◌≡◌, refl, subst}
use mathlib.Core.Logic.{inl, inr}
use mathlib.Core.Bool.{Bool, true, false}
use Prim.Native.Nat.{ℕ, zero, suc}
use mathlib.Core.List.{List, [], ◌∷◌}
use native.Mathlib.Omega.{arith}
use radio_broadcast_analysis.Prelude.Tests.{if◌then◌else◌, Bool-cases, if_cases}
use radio_broadcast_analysis.Prelude.Lists.{All, All-imp, All-drop, anyb, count, length, take, drop}

module _ {ℓ} {A : Type ℓ} (before : A → A → Bool) where
  unfoldable pub insert_by : A → List A → List A
  insert_by a [] = a ∷ []
  insert_by a (x ∷ xs) = if before a x then a ∷ x ∷ xs else x ∷ insert_by a xs

  unfoldable pub sort_by : List A → List A
  unfolding insert_by
  sort_by [] = []
  sort_by (a ∷ rest) = insert_by a (sort_by rest)

  pub count-insert_by :
      (p : A → Bool) (a : A) (xs : List A) → count p (insert_by a xs) ≡ count p (a ∷ xs)
  unfolding insert_by
  count-insert_by p a [] = refl
  count-insert_by p a (x ∷ xs) = ground (arith, count-insert_by p a xs)

  -- Sorting keeps every element, as often as it is there.
  pub count-sort_by : (p : A → Bool) (xs : List A) → count p (sort_by xs) ≡ count p xs
  unfolding sort_by
  count-sort_by p [] = refl
  count-sort_by p (a ∷ rest) =
      ground (arith, count-insert_by p a (sort_by rest), count-sort_by p rest)

  length-insert_by : (a : A) (xs : List A) → length (insert_by a xs) ≡ suc (length xs)
  unfolding insert_by
  length-insert_by a [] = omega arith
  length-insert_by a (x ∷ xs) = ground (arith, length-insert_by a xs)

  pub length-sort_by : (xs : List A) → length (sort_by xs) ≡ length xs
  unfolding sort_by
  length-sort_by [] = refl
  length-sort_by (a ∷ rest) = omega (arith, length-insert_by a (sort_by rest), length-sort_by rest)

  anyb-insert_by : (p : A → Bool) (a : A) (xs : List A) → anyb p (insert_by a xs) ≡ anyb p (a ∷ xs)
  unfolding insert_by
  anyb-insert_by p a [] = refl
  anyb-insert_by p a (x ∷ xs) = ground (arith, anyb-insert_by p a xs)

  pub anyb-sort_by : (p : A → Bool) (xs : List A) → anyb p (sort_by xs) ≡ anyb p xs
  unfolding sort_by
  anyb-sort_by p [] = refl
  anyb-sort_by p (a ∷ rest) = ground (arith, anyb-insert_by p a (sort_by rest), anyb-sort_by p rest)

  module _ {κ} (P : A → Type κ) where
    pub All-insert_by : (a : A) (xs : List A) → P a → All P xs → All P (insert_by a xs)
    unfolding insert_by
    All-insert_by a [] h hs = (h, tt)
    All-insert_by a (x ∷ xs) h hs = ground (arith, All-insert_by a xs h hs.1)

    pub All-sort_by : (xs : List A) → All P xs → All P (sort_by xs)
    unfolding sort_by
    All-sort_by [] hs = tt
    All-sort_by (a ∷ rest) hs = All-insert_by a (sort_by rest) hs.0 (All-sort_by rest hs.1)

    All-insert_by_inv : (a : A) (xs : List A) → All P (insert_by a xs) → P a × All P xs
    unfolding insert_by
    All-insert_by_inv a [] h = h
    All-insert_by_inv a (x ∷ xs) h = elim (Bool-cases (before a x)) [
      | inl first ↦ subst (λ b. All P (if b then a ∷ x ∷ xs else x ∷ insert_by a xs)) first h
      | inr later ↦
          let k : All P (x ∷ insert_by a xs) =
            subst (λ b. All P (if b then a ∷ x ∷ xs else x ∷ insert_by a xs)) later h in
          let r = All-insert_by_inv a xs k.1 in (r.0, (k.0, r.1))
    ]

    -- What holds of the sorted list holds of the list.
    pub All-sort_by_inv : (xs : List A) → All P (sort_by xs) → All P xs
    unfolding sort_by
    All-sort_by_inv [] hs = tt
    All-sort_by_inv (a ∷ rest) hs =
        let r = All-insert_by_inv a (sort_by rest) hs in (r.0, All-sort_by_inv rest r.1)

  -- Each element comes before all those after it.
  abbrev pub Ordered : List A → Type 0
  Ordered [] = Unit
  Ordered (x ∷ xs) = All (λ y. before x y ≡ true) xs × Ordered xs

  module _ (total : (a b : A) → before a b ≡ false → before b a ≡ true)
      (trans : (a b c : A) → before a b ≡ true → before b c ≡ true → before a c ≡ true) where
    insert_by-Ordered : (a : A) (xs : List A) → Ordered xs → Ordered (insert_by a xs)
    unfolding insert_by
    insert_by-Ordered a [] h = (tt, tt)
    insert_by-Ordered a (x ∷ xs) h =
        if_cases Ordered (before a x) (a ∷ x ∷ xs) (x ∷ insert_by a xs)
          (λ first. ((first, All-imp (λ y k. trans a x y first k) xs h.0), h))
          (λ later. (
            All-insert_by (λ y. before x y ≡ true) a xs (total a x later) h.0,
            insert_by-Ordered a xs h.1,
          ))

    -- Sorting by a total order puts the elements in order.
    pub sort_by-Ordered : (xs : List A) → Ordered (sort_by xs)
    unfolding sort_by
    sort_by-Ordered [] = tt
    sort_by-Ordered (a ∷ rest) = insert_by-Ordered a (sort_by rest) (sort_by-Ordered rest)

  -- The first `n` of an ordered list come before all the others.
  pub take-drop-Ordered :
      (n : ℕ) (xs : List A)
      → Ordered xs
      → All (λ x. All (λ y. before x y ≡ true) (drop n xs)) (take n xs)
  take-drop-Ordered zero xs h = tt
  take-drop-Ordered (suc n) [] h = tt
  take-drop-Ordered (suc n) (x ∷ xs) h =
      (All-drop (λ y. before x y ≡ true) n xs h.0, take-drop-Ordered n xs h.1)
