-- ===== src/Matching/Fuzzy.antt =====
-- `_within_edit_distance` of app/services/keyword_matcher.py, over texts as lists of code points.
use radio_broadcast_analysis.Prelude.{
  ℕ, suc, ◌+◌, ◌-◌, min, Bool, true, false, ◌&&◌, List, [], ◌∷◌, if◌then◌else◌, ltb, leb, nat_eq,
  length, nat_Eq, string_Eq,
}

-- 0 if left_char == right_char else 1
abbrev pub cost : ℕ → ℕ → ℕ
cost x y = if nat_eq x y then 0 else 1

-- left == right
unfoldable pub same_text : List ℕ → List ℕ → Bool
same_text [] [] = true
same_text [] (y ∷ ys) = false
same_text (x ∷ xs) [] = false
same_text (x ∷ xs) (y ∷ ys) = nat_eq x y && same_text xs ys

-- The inner loop: the values after `last` in the row of `x`; `previous` begins one place before them.
unfoldable pub next_values : ℕ → List ℕ → ℕ → List ℕ → List ℕ
next_values x [] last previous = []
next_values x (y ∷ ys) last [] = []
next_values x (y ∷ ys) last (p ∷ []) = []
next_values x (y ∷ ys) last (p ∷ q ∷ previous) =
    let value = min (min (q + 1) (last + 1)) (p + cost x y) in
    value ∷ next_values x ys value (q ∷ previous)

-- min(best, ...) over the values of a row
unfoldable pub best_of : ℕ → List ℕ → ℕ
best_of best [] = best
best_of best (v ∷ values) = best_of (min best v) values

-- previous[-1]
unfoldable pub last_value : ℕ → List ℕ → ℕ
last_value v [] = v
last_value v (w ∷ values) = last_value w values

-- The outer loop from the i-th character on; a row is its first value and the others.
unfoldable pub rows : ℕ → List ℕ → ℕ → List ℕ → ℕ → List ℕ → Bool
unfolding next_values best_of last_value
rows maximum right i [] first others = leb (last_value first others) maximum
rows maximum right i (x ∷ left) first others =
    let values = next_values x right i (first ∷ others) in
    let rest = rows maximum right (suc i) left i values in
    if ltb maximum (best_of i values) then false else rest

-- list(range(start, start + len(xs)))
unfoldable pub range_from : ℕ → List ℕ → List ℕ
range_from start [] = []
range_from start (x ∷ xs) = start ∷ range_from (suc start) xs

abbrev pub length_gap : List ℕ → List ℕ → ℕ
length_gap left right = (length left - length right) + (length right - length left)

-- `_within_edit_distance`
unfoldable pub within_edit_distance : List ℕ → List ℕ → ℕ → Bool
unfolding same_text rows range_from
within_edit_distance left right maximum =
    if ltb maximum (length_gap left right)
    then false
    else if same_text left right
    then true
    else rows maximum right 1 left 0 (range_from 1 right)
