-- ===== src/Prelude/Text.antt =====
-- Python's order of strings: by code points, the first difference first.
use Prim.Native.Nat.{ℕ}
use Prim.Native.Char.{code}
use Prim.Native.String.{String}
use mathlib.Core.Path.{◌≡◌, refl}
use mathlib.Core.Bool.{Bool, true, false}
use native.Mathlib.Omega.{arith}
use text.Mathlib.TextEquality.{Char-path}
use mathlib.Core.List.{List, [], ◌∷◌}
use radio_broadcast_analysis.Prelude.Tests.{if◌then◌else◌, ltb, nat_eq}

abbrev pub codes : String → List ℕ
codes String.[] = []
codes (String.◌∷◌ c s) = code c ∷ codes s

abbrev pub codes_leb : List ℕ → List ℕ → Bool
codes_leb [] ys = true
codes_leb (x ∷ xs) [] = false
codes_leb (x ∷ xs) (y ∷ ys) = if nat_eq x y then codes_leb xs ys else ltb x y

-- a <= b
abbrev pub text_leb : String → String → Bool
text_leb a b = codes_leb (codes a) (codes b)

codes_leb_total : (xs ys : List ℕ) → codes_leb xs ys ≡ false → codes_leb ys xs ≡ true
codes_leb_total [] ys h = absurd cc
codes_leb_total (x ∷ xs) [] h = refl
codes_leb_total (x ∷ xs) (y ∷ ys) h = ground (arith, h, codes_leb_total xs ys)

codes_leb_trans :
    (xs ys zs : List ℕ) → codes_leb xs ys ≡ true → codes_leb ys zs ≡ true → codes_leb xs zs ≡ true
codes_leb_trans [] ys zs h k = refl
codes_leb_trans (x ∷ xs) [] zs h k = absurd cc
codes_leb_trans (x ∷ xs) (y ∷ ys) [] h k = absurd cc
codes_leb_trans (x ∷ xs) (y ∷ ys) (z ∷ zs) h k = ground (arith, h, k, codes_leb_trans xs ys zs)

-- The order of strings is total and transitive.
pub text_leb_total : (a b : String) → text_leb a b ≡ false → text_leb b a ≡ true
text_leb_total a b = codes_leb_total (codes a) (codes b)

pub text_leb_trans :
    (a b c : String) → text_leb a b ≡ true → text_leb b c ≡ true → text_leb a c ≡ true
text_leb_trans a b c = codes_leb_trans (codes a) (codes b) (codes c)

-- Two strings that come before one another are the same.
pub text_leb_antisym : (a b : String) → text_leb a b ≡ true → text_leb b a ≡ true → a ≡ b
text_leb_antisym String.[] String.[] h k = refl
text_leb_antisym String.[] (String.◌∷◌ d t) h k = absurd cc
text_leb_antisym (String.◌∷◌ c s) String.[] h k = absurd cc
text_leb_antisym (String.◌∷◌ c s) (String.◌∷◌ d t) h k =
    let first : c ≡ d = Char-path c d (ground (arith, h, k)) in
    let rest : s ≡ t = text_leb_antisym s t (ground (arith, h, k)) (ground (arith, h, k)) in
    λ i. String.◌∷◌ (first i) (rest i)
