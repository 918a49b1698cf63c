-- ===== src/Prelude/IsoFormat.antt =====
-- datetime.isoformat() of the standard library, in UTC and without its offset, as code points. A time
-- is the microseconds since the beginning of the year 1.
use mathlib.Core.Bool.{Bool, not, ◌&&◌, ◌||◌}
use Prim.Native.Nat.{ℕ, suc, ◌+◌, ◌-◌, ◌*◌, ◌/◌, ◌%◌, min}
use mathlib.Core.List.{List, [], ◌∷◌, ◌++◌}
use radio_broadcast_analysis.Prelude.Tests.{if◌then◌else◌, ltb, nat_eq}

-- The digits of a number, before the rest of the text.
abbrev pub digit : ℕ → List ℕ → List ℕ
digit m rest = (48 + m) ∷ rest

abbrev pub two_digits : ℕ → List ℕ → List ℕ
two_digits m rest = (48 + m / 10) ∷ digit (m % 10) rest

abbrev pub three_digits : ℕ → List ℕ → List ℕ
three_digits m rest = (48 + m / 100) ∷ two_digits (m % 100) rest

abbrev pub four_digits : ℕ → List ℕ → List ℕ
four_digits m rest = (48 + m / 1000) ∷ three_digits (m % 1000) rest

abbrev pub five_digits : ℕ → List ℕ → List ℕ
five_digits m rest = (48 + m / 10000) ∷ four_digits (m % 10000) rest

abbrev pub six_digits : ℕ → List ℕ → List ℕ
six_digits m rest = (48 + m / 100000) ∷ five_digits (m % 100000) rest

abbrev pub is_leap : ℕ → Bool
is_leap year = nat_eq (year % 4) 0 && (not (nat_eq (year % 100) 0) || nat_eq (year % 400) 0)

-- The years before a day, of which the last century of four and the last year of four have a day
-- more.
unfoldable pub years_before : ℕ → ℕ
years_before n =
    let in_cycle = n % 146097 in
    let century = min 3 (in_cycle / 36524) in
    let in_century = in_cycle - century * 36524 in
    let in_four = in_century % 1461 in
    n / 146097 * 400 + century * 100 + in_century / 1461 * 4 + min 3 (in_four / 365)

abbrev pub days_before_year : ℕ → ℕ
days_before_year years = years * 365 + years / 4 - years / 100 + years / 400

abbrev pub month_lengths : Bool → List ℕ
month_lengths leap =
    31 ∷ (if leap then 29 else 28) ∷ 31 ∷ 30 ∷ 31 ∷ 30 ∷ 31 ∷ 31 ∷ 30 ∷ 31 ∷ 30 ∷ 31 ∷ []

-- The month and the day, the `n`-th after the first of the month `m`, before the rest of the text.
unfoldable pub month_and_day : ℕ → ℕ → List ℕ → List ℕ → List ℕ
month_and_day m n [] rest = two_digits m (45 ∷ two_digits (suc n) rest)
month_and_day m n (l ∷ lengths) rest =
    let later = month_and_day (suc m) (n - l) lengths rest in
    if ltb n l then two_digits m (45 ∷ two_digits (suc n) rest) else later

-- YYYY-MM-DD
unfoldable pub date_text : ℕ → List ℕ → List ℕ
unfolding years_before month_and_day
date_text n rest =
    let years = years_before n in
    four_digits (suc years)
      (45 ∷ month_and_day 1 (n - days_before_year years) (month_lengths (is_leap (suc years))) rest)

-- THH:MM:SS
abbrev pub time_text : ℕ → List ℕ → List ℕ
time_text s rest =
    84 ∷ two_digits (s / 3600) (58 ∷ two_digits (s % 3600 / 60) (58 ∷ two_digits (s % 60) rest))

-- .ffffff, which a whole second does not have
abbrev pub fraction : ℕ → List ℕ → List ℕ
fraction micros rest = if nat_eq micros 0 then rest else 46 ∷ six_digits micros rest

-- The text up to the seconds.
unfoldable pub seconds_text : ℕ → List ℕ
unfolding date_text
seconds_text s = date_text (s / 86400) (time_text (s % 86400) [])

unfoldable pub isoformat : ℕ → List ℕ → List ℕ
unfolding seconds_text
isoformat t zone = seconds_text (t / 1000000) ++ fraction (t % 1000000) zone
