-- ===== src/Outbox/Stamps.antt =====
-- The order in which the stored timestamps are compared, against the order of time.
use radio_broadcast_analysis.Prelude.{
  ℕ, ◌+◌, ◌*◌, ◌/◌, ◌%◌, ◌<◌, true, not, ◌&&◌, List, [], ◌∷◌, ◌++◌, ◌≡◌, refl, ◌∙◌, arith,
  if◌then◌else◌, leb, nat_eq, nat_Eq, string_Eq,
}
use radio_broadcast_analysis.Prelude.Text.{codes_leb}
use radio_broadcast_analysis.Prelude.IsoFormat.{
  digit, two_digits, three_digits, four_digits, five_digits, six_digits, fraction, seconds_text,
  isoformat,
}
use radio_broadcast_analysis.Outbox.{iso, iso_leb}

codes_leb-append : (xs ys zs : List ℕ) → codes_leb (xs ++ ys) (xs ++ zs) ≡ codes_leb ys zs
codes_leb-append [] ys zs = refl
codes_leb-append (x ∷ xs) ys zs = ground (arith, codes_leb-append xs ys zs)

codes_leb_refl : (xs : List ℕ) → codes_leb xs xs ≡ true
codes_leb_refl [] = refl
codes_leb_refl (x ∷ xs) = ground (arith, codes_leb_refl xs)

-- Numbers with equally many digits compare as their texts do.
module _ (rest : List ℕ) where
  digit-leb : (a b : ℕ) → codes_leb (digit a rest) (digit b rest) ≡ leb a b
  digit-leb a b = ground (arith, codes_leb_refl rest)

  two_digits-leb : (a b : ℕ) → codes_leb (two_digits a rest) (two_digits b rest) ≡ leb a b
  two_digits-leb a b = ground (arith, digit-leb (a % 10) (b % 10))

  three_digits-leb : (a b : ℕ) → codes_leb (three_digits a rest) (three_digits b rest) ≡ leb a b
  three_digits-leb a b = ground (arith, two_digits-leb (a % 100) (b % 100))

  four_digits-leb : (a b : ℕ) → codes_leb (four_digits a rest) (four_digits b rest) ≡ leb a b
  four_digits-leb a b = ground (arith, three_digits-leb (a % 1000) (b % 1000))

  five_digits-leb : (a b : ℕ) → codes_leb (five_digits a rest) (five_digits b rest) ≡ leb a b
  five_digits-leb a b = ground (arith, four_digits-leb (a % 10000) (b % 10000))

  six_digits-leb : (a b : ℕ) → codes_leb (six_digits a rest) (six_digits b rest) ≡ leb a b
  six_digits-leb a b = ground (arith, five_digits-leb (a % 100000) (b % 100000))

fraction-leb :
    (a b : ℕ)
    → codes_leb (fraction a (90 ∷ [])) (fraction b (90 ∷ []))
      ≡ (if nat_eq b 0 then true else not (nat_eq a 0) && leb a b)
fraction-leb a b = ground (arith, six_digits-leb (90 ∷ []) a b)

-- Two timestamps of one second compare as the times do, unless the earlier is the whole second: its
-- text is greater than that of every other time of the second.
pub iso_leb-second :
    (second a b : ℕ)
    → a < 1000000
    → b < 1000000
    → iso_leb (second * 1000000 + a) (second * 1000000 + b)
      ≡ (if nat_eq b 0 then true else not (nat_eq a 0) && leb a b)
unfolding iso_leb iso isoformat
iso_leb-second second a b ha hb =
    let whole_a : (second * 1000000 + a) / 1000000 ≡ second = omega (arith, ha) in
    let whole_b : (second * 1000000 + b) / 1000000 ≡ second = omega (arith, hb) in
    let part_a : (second * 1000000 + a) % 1000000 ≡ a = omega (arith, ha) in
    let part_b : (second * 1000000 + b) % 1000000 ≡ b = omega (arith, hb) in
    rw (whole_a, whole_b, part_a, part_b)
      (codes_leb-append (seconds_text second) (fraction a (90 ∷ [])) (fraction b (90 ∷ []))
        ∙ fraction-leb a b)
