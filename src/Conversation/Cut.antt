-- ===== src/Conversation/Cut.antt =====
-- Slices of a text that is put together from parts.
use radio_broadcast_analysis.Prelude.{
  ℕ, zero, suc, ◌+◌, ◌-◌, ◌≤◌, List, [], ◌∷◌, ◌++◌, ◌≡◌, refl, ap, inl, inr, arith, leb, length,
  take, drop, length-drop, nat_Eq, string_Eq, Bool-cases,
}

-- text[start:end]
abbrev pub cut : List ℕ → ℕ → ℕ → List ℕ
cut text start end = take (end - start) (drop start text)

drop-append : (xs ys : List ℕ) (n : ℕ) → drop (length xs + n) (xs ++ ys) ≡ drop n ys
drop-append [] ys n = ap (λ k. drop k ys) (omega arith)
drop-append (x ∷ xs) ys n =
    let e : suc (length xs) + n ≡ suc (length xs + n) = omega arith in rw (e) (drop-append xs ys n)

drop-inside : (xs ys : List ℕ) (n : ℕ) → n ≤ length xs → drop n (xs ++ ys) ≡ drop n xs ++ ys
drop-inside xs ys zero h = refl
drop-inside [] ys (suc n) h = absurd (omega arith)
drop-inside (x ∷ xs) ys (suc n) h = drop-inside xs ys n (omega arith)

take-inside : (xs ys : List ℕ) (n : ℕ) → n ≤ length xs → take n (xs ++ ys) ≡ take n xs
take-inside xs ys zero h = refl
take-inside [] ys (suc n) h = absurd (omega arith)
take-inside (x ∷ xs) ys (suc n) h = ap (◌∷◌ x) (take-inside xs ys n (omega arith))

-- A span inside the middle part of a text is cut out of that part.
pub cut-middle :
    (before middle after : List ℕ) (start end : ℕ)
    → end ≤ length middle
    → cut (before ++ (middle ++ after)) (length before + start) (length before + end)
      ≡ cut middle start end
cut-middle before middle after start end h = elim (Bool-cases (leb start end)) [
  | inl forward ↦
      let size : length before + end - (length before + start) ≡ end - start = omega arith in
      rw
        (
          size,
          drop-append before (middle ++ after) start,
          drop-inside middle after start (ground arith),
        )
        (take-inside (drop start middle) after (end - start)
          (omega (arith, length-drop {0} start middle)))
  | inr backward ↦
      let size : length before + end - (length before + start) ≡ 0 = ground arith in
      let size' : end - start ≡ 0 = ground arith in rw (size, size')
]
