-- ===== src/Dates/Civil.antt =====
-- The calendar of the language's Date in UTC. A day is a natural number, the days since the 1st of
-- January of the year -272000, and a year is counted from there, which is before the first day that
-- a Date can hold; 272000 is a multiple of the 400 years after which the calendar repeats.
use vnp_dbms_backend.Common.{
  ℕ, zero, suc, ◌+◌, ◌-◌, ◌*◌, ◌/◌, ◌%◌, Bool, not, ◌&&◌, ◌||◌, List, [], ◌∷◌, ltb, leb, eqb,
  if◌then◌else◌,
}

-- The year 0
unfoldable pub year_zero : ℕ
year_zero = 272000

unfoldable pub is_leap : ℕ → Bool
is_leap y = eqb (y % 4) 0 && (not (eqb (y % 100) 0) || eqb (y % 400) 0)

unfoldable pub days_before_year : ℕ → ℕ
days_before_year y = 365 * y + (y + 3) / 4 + (y + 399) / 400 - (y + 99) / 100

unfoldable pub month_lengths : Bool → List ℕ
month_lengths leap =
    31 ∷ (if leap then 29 else 28) ∷ 31 ∷ 30 ∷ 31 ∷ 30 ∷ 31 ∷ 31 ∷ 30 ∷ 31 ∷ 30 ∷ 31 ∷ []

-- The days of the first `m` months
unfoldable pub days_before : List ℕ → (m : ℕ) → ℕ
days_before ls zero = 0
days_before [] (suc m) = 0
days_before (l ∷ ls) (suc m) = l + days_before ls m

-- The length of the month `m`
abbrev pub nth_or_zero : List ℕ → ℕ → ℕ
nth_or_zero [] m = 0
nth_or_zero (l ∷ ls) zero = l
nth_or_zero (l ∷ ls) (suc m) = nth_or_zero ls m

-- The month, from 0, and the day in it, from 0, of a day of the year
unfoldable pub month_day : List ℕ → ℕ → ℕ × ℕ
month_day [] n = (0, n)
month_day (l ∷ ls) n = let (m, d) = month_day ls (n - l) in if ltb n l then (0, n) else (suc m, d)

-- `getUTCMonth` counts from 0, `getUTCDate` from 1.
pub record Civil : Type 0 where
  pub year : ℕ
  pub month : ℕ
  pub day : ℕ

-- `Date.UTC(year, month, day)` for a year from 100 on (the years below stand for 19xx), and a month from 0 to 11
unfoldable pub day_number : (year month day : ℕ) → ℕ
day_number y m d = days_before_year y + days_before (month_lengths (is_leap y)) m + d - 1

unfoldable pub corrected : (guess n : ℕ) → ℕ
corrected y n =
    if leb (days_before_year (y + 1)) n
    then y + 1
    else if ltb n (days_before_year y)
    then y - 1
    else y

unfoldable pub year_of : ℕ → ℕ
year_of n = corrected (400 * n / 146097) n

-- The date of a day of a year, both from 0
unfoldable pub dated : (year day : ℕ) → Civil
dated y k =
    let (m, d) = month_day (month_lengths (is_leap y)) k in
    record { year = y; month = m; day = suc d }

unfoldable pub civil_of : ℕ → Civil
civil_of n = dated (year_of n) (n - days_before_year (year_of n))

-- The day of 1970-01-01, and how far from there a Date reaches
unfoldable pub epoch : ℕ
epoch = 100065488

unfoldable pub reach : ℕ
reach = 100000000

unfoldable pub is_valid : ℕ → Bool
is_valid n = leb epoch (n + reach) && leb n (epoch + reach)

-- The test for a date of the calendar, with the month from 1
unfoldable pub is_date : (year month1 day : ℕ) → Bool
is_date y m d =
    leb 1 m && leb m 12 && leb 1 d && leb d (nth_or_zero (month_lengths (is_leap y)) (m - 1))
