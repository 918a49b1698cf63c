-- ===== src/Matching/Scripts.antt =====
-- `_within_edit_distance` and the edits that turn one text into the other.
use radio_broadcast_analysis.Prelude.{
  ℕ, suc, ◌+◌, ◌≤◌, min, true, List, [], ◌∷◌, ◌++◌, ◌≡◌, ◌↔◌, ◌⊎◌, refl, sym, ◌∙◌, subst, inl, inr,
  arith, nat_eq, length, nat_Eq, string_Eq, Bool-cases, append-nil,
}
use radio_broadcast_analysis.Matching.Fuzzy.{cost, within_edit_distance}
use radio_broadcast_analysis.Matching.EditDistance.{
  distance, distance-nil, onto, within_edit_distance_lem,
}

-- The first text becomes the second by so many removals, additions and replacements of a character.
pub data Edits : List ℕ → List ℕ → ℕ → Type 0 where
  done : Edits [] [] 0
  keep : {x n : ℕ} {xs ys : List ℕ} → Edits xs ys n → Edits (x ∷ xs) (x ∷ ys) n
  replace : {x y n : ℕ} {xs ys : List ℕ} → Edits xs ys n → Edits (x ∷ xs) (y ∷ ys) (suc n)
  remove : {x n : ℕ} {xs ys : List ℕ} → Edits xs ys n → Edits (x ∷ xs) ys (suc n)
  add : {y n : ℕ} {xs ys : List ℕ} → Edits xs ys n → Edits xs (y ∷ ys) (suc n)

distance-remove : (x : ℕ) (xs ys : List ℕ) → distance (x ∷ xs) ys ≤ suc (distance xs ys)
unfolding distance
distance-remove x xs [] = omega (arith, distance-nil xs)
distance-remove x xs (y ∷ ys) = omega arith

distance-add : (y : ℕ) (xs ys : List ℕ) → distance xs (y ∷ ys) ≤ suc (distance xs ys)
unfolding distance
distance-add y [] ys = omega arith
distance-add y (x ∷ xs) ys = omega arith

cost_self : (x : ℕ) → cost x x ≡ 0
cost_self x = ground arith

cost_bound : (x y : ℕ) → cost x y ≤ 1
cost_bound x y = ground arith

-- No sequence of edits is shorter than the distance.
distance-Edits : {n : ℕ} {xs ys : List ℕ} → Edits xs ys n → distance xs ys ≤ n
unfolding distance
distance-Edits done = omega arith
distance-Edits (keep {x} {n} {xs} {ys} e) = omega (arith, distance-Edits e, cost_self x)
distance-Edits (replace {x} {y} {n} {xs} {ys} e) = omega (arith, distance-Edits e, cost_bound x y)
distance-Edits (remove {x} {n} {xs} {ys} e) =
    omega (arith, distance-Edits e, distance-remove x xs ys)
distance-Edits (add {y} {n} {xs} {ys} e) = omega (arith, distance-Edits e, distance-add y xs ys)

-- The first text becomes the second by at most so many edits.
abbrev pub AtMost : List ℕ → List ℕ → ℕ → Type 0
AtMost xs ys limit = (n : ℕ) × (n ≤ limit) × Edits xs ys n

least : (a b c : ℕ) → (a ≤ min (min a b) c) ⊎ (b ≤ min (min a b) c) ⊎ (c ≤ min (min a b) c)
least a b c = ground arith

length-Edits : (ys : List ℕ) → Edits [] ys (length ys)
length-Edits [] = done
length-Edits (y ∷ ys) = add (length-Edits ys)

-- Both texts read backwards, before the rest of each.
onto-Edits :
    {n m : ℕ} {xs ys us vs : List ℕ}
    → Edits xs ys n
    → Edits us vs m
    → (k : ℕ) → k ≡ n + m
    → Edits (onto xs us) (onto ys vs) k
onto-Edits {n} {m} {xs} {ys} {us} {vs} done f k h = subst (Edits us vs) (omega (arith, h)) f
onto-Edits (keep e) f k h = onto-Edits e (keep f) k h
onto-Edits (replace e) f k h = onto-Edits e (replace f) k (omega (arith, h))
onto-Edits (remove e) f k h = onto-Edits e (remove f) k (omega (arith, h))
onto-Edits (add e) f k h = onto-Edits e (add f) k (omega (arith, h))

AtMost-relax : {xs ys : List ℕ} {n m : ℕ} → n ≤ m → AtMost xs ys n → AtMost xs ys m
AtMost-relax h e = (e.0, omega (arith, h, e.1), e.2)

-- The two first characters made the same.
AtMost-replace :
    (x y n : ℕ) {xs ys : List ℕ} → AtMost xs ys n → AtMost (x ∷ xs) (y ∷ ys) (n + cost x y)
AtMost-replace x y n {xs} {ys} e = elim (Bool-cases (nat_eq x y)) [
  | inl same ↦
      let first : x ≡ y = ground (arith, same) in
      subst (λ z. AtMost (x ∷ xs) (z ∷ ys) (n + cost x y)) first (e.0, omega (arith, e.1), keep e.2)
  | inr other ↦ (suc e.0, ground (arith, other, e.1), replace e.2)
]

distance-AtMost : (xs ys : List ℕ) → AtMost xs ys (distance xs ys)
unfolding distance
distance-AtMost [] ys = (length ys, omega arith, length-Edits ys)
distance-AtMost (x ∷ xs) [] =
    let rest = distance-AtMost xs [] in
    (suc rest.0, omega (arith, rest.1, distance-nil xs), remove rest.2)
distance-AtMost (x ∷ xs) (y ∷ ys) =
    let removed = distance-AtMost xs (y ∷ ys) in
    let added = distance-AtMost (x ∷ xs) ys in
    let replaced = distance-AtMost xs ys in
    elim (least (distance xs (y ∷ ys) + 1) (distance (x ∷ xs) ys + 1) (distance xs ys + cost x y)) [
      | inl h ↦ (suc removed.0, omega (arith, h, removed.1), remove removed.2)
      | inr (inl h) ↦ (suc added.0, omega (arith, h, added.1), add added.2)
      | inr (inr h) ↦ AtMost-relax h (AtMost-replace x y (distance xs ys) replaced)
    ]

reversed_twice : (xs ys zs : List ℕ) → onto (onto xs ys) zs ≡ onto ys (xs ++ zs)
reversed_twice [] ys zs = refl
reversed_twice (x ∷ xs) ys zs = reversed_twice xs (x ∷ ys) zs

-- The texts turned round twice are the texts again.
AtMost-reversed : (xs ys : List ℕ) (n : ℕ) → AtMost (onto xs []) (onto ys []) n → AtMost xs ys n
AtMost-reversed xs ys n e =
    let back : AtMost (onto (onto xs []) []) (onto (onto ys []) []) n =
      (e.0, e.1, onto-Edits e.2 done e.0 (omega arith)) in
    subst (λ us. AtMost us ys n) (reversed_twice xs [] [] ∙ append-nil xs)
      (subst (λ vs. AtMost (onto (onto xs []) []) vs n) (reversed_twice ys [] [] ∙ append-nil ys)
        back)

-- `_within_edit_distance` answers yes exactly when at most `maximum` removals, additions and
-- replacements of single characters turn the one text into the other.
pub within_edit_distance-AtMost :
    (left right : List ℕ) (maximum : ℕ)
    → within_edit_distance left right maximum ≡ true ↔ AtMost left right maximum
within_edit_distance-AtMost left right maximum =
    let table = within_edit_distance_lem left right maximum in
    let d = distance (onto left []) (onto right []) in
    (
      (λ h. AtMost-reversed left right maximum (
          AtMost-relax (ground (arith, sym table ∙ h))
            (distance-AtMost (onto left []) (onto right [])))),
      (λ e. table ∙ ground (arith, e.1, distance-Edits (onto-Edits e.2 done e.0 (omega arith)))),
    )
