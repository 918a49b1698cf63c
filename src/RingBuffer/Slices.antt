-- ===== src/RingBuffer/Slices.antt =====
-- Lists read by position: what `take`, `drop`, `++` and `splice` leave at each index.
use radio_broadcast_analysis.Prelude.{
  ℕ, zero, suc, ◌+◌, ◌-◌, ◌%◌, ◌≤◌, ◌<◌, none, List, [], ◌∷◌, ◌++◌, ◌≡◌, refl, ap, ◌∙◌, arith,
  if◌then◌else◌, ltb, length, take, drop, get_elem?, length-append, length-take, length-drop,
  nat_Eq, string_Eq,
}
use native.Mathlib.Nat.{mod-add-mod, mod-eq_of_lt, mod-eq-sub-mod, mod-lt}
use radio_broadcast_analysis.RingBuffer.{splice}

module _ {ℓ} {A : Type ℓ} where
  pub get_elem?-append :
      (xs ys : List A) (i : ℕ)
      → get_elem? (xs ++ ys) i
        ≡ (if ltb i (length xs) then get_elem? xs i else get_elem? ys (i - length xs))
  get_elem?-append [] ys i = ground (arith, ap (get_elem? ys) (sub_zero i))
    where
      sub_zero : (k : ℕ) → k - 0 ≡ k
      sub_zero k = omega arith
  get_elem?-append (x ∷ xs) ys zero = ground arith
  get_elem?-append (x ∷ xs) ys (suc i) =
      ground (arith, get_elem?-append xs ys i, ap (get_elem? ys) (peel i (length xs)))
    where
      peel : (k n : ℕ) → suc k - suc n ≡ k - n
      peel k n = omega arith

  pub get_elem?-take :
      (n : ℕ) (xs : List A) (i : ℕ)
      → get_elem? (take n xs) i ≡ (if ltb i n then get_elem? xs i else none)
  get_elem?-take zero xs i = ground arith
  get_elem?-take (suc n) [] i = ground arith
  get_elem?-take (suc n) (x ∷ xs) zero = ground arith
  get_elem?-take (suc n) (x ∷ xs) (suc i) = ground (arith, get_elem?-take n xs i)

  pub get_elem?-drop :
      (n : ℕ) (xs : List A) (i : ℕ) → get_elem? (drop n xs) i ≡ get_elem? xs (n + i)
  get_elem?-drop zero xs i = ap (get_elem? xs) (omega arith)
  get_elem?-drop (suc n) [] i = refl
  get_elem?-drop (suc n) (x ∷ xs) i = get_elem?-drop n xs i ∙ ap (get_elem? (x ∷ xs)) (shift n i)
    where
      shift : (n i : ℕ) → suc (n + i) ≡ suc n + i
      shift n i = omega arith

  pub get_elem?-none : (xs : List A) (i : ℕ) → length xs ≤ i → get_elem? xs i ≡ none
  get_elem?-none [] i h = refl
  get_elem?-none (x ∷ xs) zero h = absurd (omega arith)
  get_elem?-none (x ∷ xs) (suc i) h = get_elem?-none xs i (omega arith)

  -- Lists that agree at every index are equal.
  pub list_ext : (xs ys : List A) → ((i : ℕ) → get_elem? xs i ≡ get_elem? ys i) → xs ≡ ys
  list_ext [] [] h = refl
  list_ext [] (y ∷ ys) h = absurd (cc (h 0))
  list_ext (x ∷ xs) [] h = absurd (cc (h 0))
  list_ext (x ∷ xs) (y ∷ ys) h = cc (h 0, list_ext xs ys (λ i. h (suc i)))

-- A slice assignment changes the bytes of its slice and no others.
pub get_elem?-splice :
    (buffer chunk : List ℕ) (at i : ℕ)
    → at + length chunk ≤ length buffer
    → get_elem? (splice buffer at chunk) i ≡ (
        if ltb i at
        then get_elem? buffer i
        else if ltb i (at + length chunk)
        then get_elem? chunk (i - at)
        else get_elem? buffer i)
unfolding splice
get_elem?-splice buffer chunk at i h = ground (
  arith,
  get_elem?-append (take at buffer) (chunk ++ drop (at + length chunk) buffer) i,
  length-take at buffer,
  get_elem?-take at buffer i,
  get_elem?-append chunk (drop (at + length chunk) buffer) (i - at),
  get_elem?-drop (at + length chunk) buffer (i - at - length chunk),
)

pub length-splice :
    (buffer chunk : List ℕ) (at : ℕ)
    → at + length chunk ≤ length buffer
    → length (splice buffer at chunk) ≡ length buffer
unfolding splice
length-splice buffer chunk at h = omega (
  arith,
  length-append {0} (take at buffer) (chunk ++ drop (at + length chunk) buffer),
  length-append {0} chunk (drop (at + length chunk) buffer),
  length-take {0} at buffer,
  length-drop {0} (at + length chunk) buffer,
)

-- The remainder of a sum whose second part is below the divisor.
pub mod_step :
    (s k c : ℕ)
    → 0 < c
    → k < c
    → (s + k) % c ≡ (if ltb (s % c + k) c then s % c + k else s % c + k - c)
mod_step s k c h lt = ground (
  arith,
  mod-add-mod s c k,
  mod-lt s {m = c} h,
  λ (p : s % c + k < c). mod-eq_of_lt p,
  λ (p : c ≤ s % c + k). mod-eq-sub-mod p,
  λ (p : s % c + k - c < c). mod-eq_of_lt p,
)
