-- ===== src/Matching/EditDistance.antt =====
-- `_within_edit_distance` decides whether few enough edits turn one text into the other.
use radio_broadcast_analysis.Prelude.{
  ℕ, suc, ◌+◌, ◌≤◌, min, true, false, List, [], ◌∷◌, ◌≡◌, refl, sym, ap, ◌∙◌, subst, arith,
  if◌then◌else◌, ltb, leb, length, All, nat_Eq, string_Eq, if_cases,
}
use radio_broadcast_analysis.Matching.Fuzzy.{
  cost, same_text, next_values, best_of, last_value, rows, range_from, length_gap,
  within_edit_distance,
}

-- The number of edits by recursion on the last characters: the texts are given backwards.
unfoldable pub distance : List ℕ → List ℕ → ℕ
distance [] ys = length ys
distance (x ∷ xs) [] = suc (length xs)
distance (x ∷ xs) (y ∷ ys) =
    min (min (distance xs (y ∷ ys) + 1) (distance (x ∷ xs) ys + 1)) (distance xs ys + cost x y)

-- The distances of `xs` to `ys` and to what it becomes by each of the characters of `right`.
unfoldable pub row_for : List ℕ → List ℕ → List ℕ → List ℕ
unfolding distance
row_for xs ys [] = []
row_for xs ys (y ∷ right) = distance xs (y ∷ ys) ∷ row_for xs (y ∷ ys) right

next_values-row_for :
    (x : ℕ) (xs ys right : List ℕ)
    → next_values x right (distance (x ∷ xs) ys) (distance xs ys ∷ row_for xs ys right)
      ≡ row_for (x ∷ xs) ys right
unfolding next_values row_for distance
next_values-row_for x xs ys [] = refl
next_values-row_for x xs ys (y ∷ right) =
    ap (◌∷◌ (distance (x ∷ xs) (y ∷ ys))) (next_values-row_for x xs (y ∷ ys) right)

range_from-row_for : (ys right : List ℕ) → range_from (suc (length ys)) right ≡ row_for [] ys right
unfolding range_from row_for distance
range_from-row_for ys [] = refl
range_from-row_for ys (y ∷ right) = ap (◌∷◌ (suc (length ys))) (range_from-row_for (y ∷ ys) right)

-- reversed(xs) + ys
abbrev pub onto : List ℕ → List ℕ → List ℕ
onto [] ys = ys
onto (x ∷ xs) ys = onto xs (x ∷ ys)

last_value-row_for :
    (xs ys right : List ℕ)
    → last_value (distance xs ys) (row_for xs ys right) ≡ distance xs (onto right ys)
unfolding last_value row_for
last_value-row_for xs ys [] = refl
last_value-row_for xs ys (y ∷ right) = last_value-row_for xs (y ∷ ys) right

pub distance-nil : (xs : List ℕ) → distance xs [] ≡ length xs
unfolding distance
distance-nil [] = refl
distance-nil (x ∷ xs) = refl

-- `m` is at most each of the values.
abbrev AtLeast : ℕ → List ℕ → Type 0
AtLeast m = All (λ v. m ≤ v)

next_values-AtLeast :
    (m x : ℕ) (right previous : List ℕ) (last : ℕ)
    → m ≤ last
    → AtLeast m previous
    → AtLeast m (next_values x right last previous)
unfolding next_values
next_values-AtLeast m x [] previous last h k = tt
next_values-AtLeast m x (y ∷ right) [] last h k = tt
next_values-AtLeast m x (y ∷ right) (p ∷ []) last h k = tt
next_values-AtLeast m x (y ∷ right) (p ∷ q ∷ previous) last h k =
    let value : m ≤ min (min (q + 1) (last + 1)) (p + cost x y) = omega (arith, h, k.0, k.1.0) in
    (
      value,
      next_values-AtLeast m x right (q ∷ previous) (min (min (q + 1) (last + 1)) (p + cost x y))
          value k.1,
    )

last_value-AtLeast :
    (m v : ℕ) (values : List ℕ) → m ≤ v → AtLeast m values → m ≤ last_value v values
unfolding last_value
last_value-AtLeast m v [] h k = h
last_value-AtLeast m v (w ∷ values) h k = last_value-AtLeast m w values k.0 k.1

best_of-AtLeast :
    (best : ℕ) (values : List ℕ)
    → (best_of best values ≤ best) × AtLeast (best_of best values) values
unfolding best_of
best_of-AtLeast best [] = (omega arith, tt)
best_of-AtLeast best (v ∷ values) =
    let k = best_of-AtLeast (min best v) values in (omega (arith, k.0), (omega (arith, k.0), k.1))

-- What bounds a row from below bounds the distance that comes out.
distance-AtLeast :
    (m : ℕ) (xs left right : List ℕ)
    → m ≤ distance xs []
    → AtLeast m (row_for xs [] right)
    → m ≤ distance (onto left xs) (onto right [])
unfolding distance
distance-AtLeast m xs [] right h k =
    subst (λ n. m ≤ n) (last_value-row_for xs [] right)
      (last_value-AtLeast m (distance xs []) (row_for xs [] right) h k)
distance-AtLeast m xs (x ∷ left) right h k =
    let first : m ≤ distance (x ∷ xs) [] = omega (arith, h, distance-nil xs) in
    distance-AtLeast m (x ∷ xs) left right first (
      subst (AtLeast m) (next_values-row_for x xs [] right) (
        next_values-AtLeast m x right (distance xs [] ∷ row_for xs [] right) (distance (x ∷ xs) [])
          first (h, k)))

rows_lem :
    (maximum : ℕ) (right xs left : List ℕ)
    → rows maximum right (suc (length xs)) left (distance xs []) (row_for xs [] right)
      ≡ leb (distance (onto left xs) (onto right [])) maximum
unfolding rows distance
rows_lem maximum right xs [] = ap (λ n. leb n maximum) (last_value-row_for xs [] right)
rows_lem maximum right xs (x ∷ left) =
    let i = distance (x ∷ xs) [] in
    let values = next_values x right i (distance xs [] ∷ row_for xs [] right) in
    let e : values ≡ row_for (x ∷ xs) [] right = next_values-row_for x xs [] right in
    let k = best_of-AtLeast i values in
    let far : ltb maximum (best_of i values) ≡ true
        → leb (distance (onto left (x ∷ xs)) (onto right [])) maximum ≡ false =
      λ h. ground (
        arith,
        h,
        distance-AtLeast (best_of i values) (x ∷ xs) left right k.0
            (subst (AtLeast (best_of i values)) e k.1),
      ) in
    if_cases (λ b. b ≡ leb (distance (onto left (x ∷ xs)) (onto right [])) maximum)
      (ltb maximum (best_of i values)) false (rows maximum right (suc i) left i values)
      (λ h. sym (far h))
      (λ _. ap (rows maximum right (suc i) left i) e ∙ rows_lem maximum right (x ∷ xs) left)

distance-same : (xs : List ℕ) → distance xs xs ≡ 0
unfolding distance
distance-same [] = refl
distance-same (x ∷ xs) = ground (arith, distance-same xs)

-- No edit changes the length by more than one.
distance-length : (xs ys : List ℕ) → length_gap xs ys ≤ distance xs ys
unfolding distance
distance-length [] ys = omega arith
distance-length (x ∷ xs) [] = omega arith
distance-length (x ∷ xs) (y ∷ ys) =
    omega (arith, distance-length xs (y ∷ ys), distance-length (x ∷ xs) ys, distance-length xs ys)

length-onto : (xs ys : List ℕ) → length (onto xs ys) ≡ length xs + length ys
length-onto [] ys = omega arith
length-onto (x ∷ xs) ys = omega (arith, length-onto xs (x ∷ ys))

same_text-≡ : (xs ys : List ℕ) → same_text xs ys ≡ true → xs ≡ ys
unfolding same_text
same_text-≡ [] [] h = refl
same_text-≡ [] (y ∷ ys) h = absurd cc
same_text-≡ (x ∷ xs) [] h = absurd cc
same_text-≡ (x ∷ xs) (y ∷ ys) h =
    let here : x ≡ y = ground (arith, h) in
    let there : xs ≡ ys = same_text-≡ xs ys (ground (arith, h)) in cc

-- The function answers whether the distance is at most `maximum`.
pub within_edit_distance_lem :
    (left right : List ℕ) (maximum : ℕ)
    → within_edit_distance left right maximum
      ≡ leb (distance (onto left []) (onto right [])) maximum
unfolding within_edit_distance distance
within_edit_distance_lem left right maximum =
    let d = distance (onto left []) (onto right []) in
    let gap = length_gap left right in
    let longer : gap ≤ d = omega (
      arith,
      distance-length (onto left []) (onto right []),
      length-onto left [],
      length-onto right [],
    ) in
    let same_case : same_text left right ≡ true → true ≡ leb d maximum = λ h.
      let e : d ≡ 0 =
        ap (λ xs. distance (onto xs []) (onto right [])) (same_text-≡ left right h)
        ∙ distance-same (onto right []) in
      ground (arith, e) in
    let table : rows maximum right 1 left 0 (range_from 1 right) ≡ leb d maximum =
      ap (rows maximum right 1 left 0) (range_from-row_for [] right)
      ∙ rows_lem maximum right [] left in
    if_cases (λ b. b ≡ leb d maximum) (ltb maximum gap) false
      (if same_text left right then true else rows maximum right 1 left 0 (range_from 1 right))
      (λ h. ground (arith, h, longer))
      (λ _.
        if_cases (λ b. b ≡ leb d maximum) (same_text left right) true
          (rows maximum right 1 left 0 (range_from 1 right)) same_case (λ _. table))
