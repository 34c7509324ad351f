-- ===== src/Dates/Calendar.antt =====
-- The calendar and the days: each day has one date, and each date one day.
use vnp_dbms_backend.Common.{
  ℕ, zero, suc, ◌+◌, ◌-◌, ◌*◌, ◌/◌, ◌≤◌, ◌<◌, ◌≡◌, refl, ap, inl, inr, Bool, true, false, List, [],
  ◌∷◌, ltb, leb, if◌then◌else◌, arith, Bool-cases, length,
}
use vnp_dbms_backend.Dates.Civil.{
  is_leap, days_before_year, month_lengths, days_before, nth_or_zero, month_day, day_number,
  corrected, year_of, dated, civil_of,
}

abbrev pub year_length : Bool → ℕ
year_length leap = if leap then 366 else 365

next_year : (y : ℕ) → days_before_year (suc y) ≡ days_before_year y + year_length (is_leap y)
unfolding days_before_year is_leap
next_year y = ground arith

-- The guess of `year_of` is at most one year off.
guess_low : (n : ℕ) → days_before_year (400 * n / 146097 - 1) ≤ n
unfolding days_before_year
guess_low n = omega arith

guess_high : (n : ℕ) → n < days_before_year (400 * n / 146097 + 2)
unfolding days_before_year
guess_high n = omega arith

corrected_low : (y n : ℕ) → days_before_year (y - 1) ≤ n → days_before_year (corrected y n) ≤ n
unfolding days_before_year corrected
corrected_low y n h = elim (Bool-cases (leb (days_before_year (y + 1)) n)) [
  | inl later ↦ rw later (ground (arith, later))
  | inr not_later ↦ elim (Bool-cases (ltb n (days_before_year y))) [
    | inl earlier ↦ rw (not_later, earlier) h
    | inr same ↦ rw (not_later, same) (ground (arith, same))
  ]
]

corrected_high :
    (y n : ℕ) → n < days_before_year (y + 2) → n < days_before_year (suc (corrected y n))
unfolding days_before_year corrected
corrected_high y n h = elim (Bool-cases (leb (days_before_year (y + 1)) n)) [
  | inl later ↦ rw later (omega (arith, h))
  | inr not_later ↦ elim (Bool-cases (ltb n (days_before_year y))) [
    | inl earlier ↦ rw (not_later, earlier) (ground (arith, earlier))
    | inr same ↦ rw (not_later, same) (ground (arith, not_later))
  ]
]

pub year_of_low : (n : ℕ) → days_before_year (year_of n) ≤ n
unfolding year_of
year_of_low n = corrected_low (400 * n / 146097) n (guess_low n)

pub year_of_high : (n : ℕ) → n < days_before_year (suc (year_of n))
unfolding year_of
year_of_high n = corrected_high (400 * n / 146097) n (guess_high n)

pub days_before_year_mono : (y z : ℕ) → y < z → days_before_year (suc y) ≤ days_before_year z
unfolding days_before_year
days_before_year_mono y z h = omega arith

same_year :
    (y z n : ℕ)
    → days_before_year y ≤ n
    → n < days_before_year (suc y)
    → days_before_year z ≤ n
    → n < days_before_year (suc z)
    → y ≡ z
same_year y z n yl yh zl zh = elim (Bool-cases (ltb y z)) [
  | inl below ↦ absurd (ground (arith, days_before_year_mono y z (ground arith)))
  | inr not_below ↦ elim (Bool-cases (ltb z y)) [
    | inl above ↦ absurd (ground (arith, days_before_year_mono z y (ground arith)))
    | inr not_above ↦ ground arith
  ]
]

-- The year is the only one that holds the day.
pub year_of_unique :
    (y n : ℕ) → days_before_year y ≤ n → n < days_before_year (suc y) → year_of n ≡ y
year_of_unique y n low high = same_year (year_of n) y n (year_of_low n) (year_of_high n) low high

-- The days of a list of months add up, and are split again.
month_lem :
    (ls : List ℕ) (n : ℕ)
    → n < days_before ls (length ls)
    → days_before ls (month_day ls n).0 + (month_day ls n).1 ≡ n
unfolding month_day days_before
month_lem [] n h = absurd (omega arith)
month_lem (l ∷ ls) n h = elim (Bool-cases (ltb n l)) [
  | inl here ↦ rw here (omega arith)
  | inr later ↦ rw later (ground (arith, month_lem ls (n - l) (ground arith)))
]

month_bounds :
    (ls : List ℕ) (n : ℕ)
    → n < days_before ls (length ls)
    → ((month_day ls n).0 < length ls) × ((month_day ls n).1 < nth_or_zero ls (month_day ls n).0)
unfolding month_day days_before
month_bounds [] n h = absurd (omega arith)
month_bounds (l ∷ ls) n h = elim (Bool-cases (ltb n l)) [
  | inl here ↦ rw here (omega arith, ground arith)
  | inr later ↦
      let (a, b) = month_bounds ls (n - l) (ground arith) in rw later (omega (arith, a), b)
]

month_day_lem :
    (ls : List ℕ) (m d : ℕ)
    → m < length ls
    → d < nth_or_zero ls m
    → month_day ls (days_before ls m + d) ≡ (m, d)
unfolding month_day days_before
month_day_lem [] m d hm hd = absurd (omega arith)
month_day_lem (l ∷ ls) zero d hm hd =
    let none_before : 0 + d ≡ d = omega arith in
    let within : ltb d l ≡ true = ground arith in rw (none_before, within) refl
month_day_lem (l ∷ ls) (suc m) d hm hd =
    let beyond : ltb (l + days_before ls m + d) l ≡ false = ground arith in
    let left : l + days_before ls m + d - l ≡ days_before ls m + d = omega arith in
    rw (beyond, left, month_day_lem ls m d (omega arith) hd) refl

days_before-year : (leap : Bool) → days_before (month_lengths leap) 12 ≡ year_length leap
unfolding days_before month_lengths
days_before-year true = refl
days_before-year false = refl

pub length-month_lengths : (leap : Bool) → length (month_lengths leap) ≡ 12
unfolding month_lengths
length-month_lengths leap = refl

-- A date of the calendar: the 12 months and their lengths.
abbrev pub IsDate : ℕ → ℕ → ℕ → Type 0
IsDate y m d = (m < 12) × (1 ≤ d) × (d ≤ nth_or_zero (month_lengths (is_leap y)) m)

pub days_before-next :
    (ls : List ℕ) (m : ℕ)
    → m < length ls
    → days_before ls m + nth_or_zero ls m ≤ days_before ls (length ls)
unfolding days_before
days_before-next [] m h = absurd (omega arith)
days_before-next (l ∷ ls) zero h = omega arith
days_before-next (l ∷ ls) (suc m) h = omega (arith, days_before-next ls m (omega arith))

year_total :
    (y : ℕ)
    → days_before (month_lengths (is_leap y)) (length (month_lengths (is_leap y)))
      ≡ year_length (is_leap y)
year_total y = rw (length-month_lengths (is_leap y)) (days_before-year (is_leap y))

module _ (y m d : ℕ) (h : IsDate y m d) where
  within_year : days_before (month_lengths (is_leap y)) m + d ≤ year_length (is_leap y)
  within_year = omega (
    arith,
    h.2,
    year_total y,
    days_before-next (month_lengths (is_leap y)) m (rw (length-month_lengths (is_leap y)) h.0),
  )

  year_of-day_number : year_of (day_number y m d) ≡ y
  unfolding day_number
  year_of-day_number =
      year_of_unique y _ (omega (arith, h.1)) (omega (arith, h.1, within_year, next_year y))

  day_of_year :
      day_number y m d - days_before_year y ≡ days_before (month_lengths (is_leap y)) m + (d - 1)
  unfolding day_number
  day_of_year = omega (arith, h.1)

  -- `Date.UTC` of a date is the day whose date it is.
  pub civil_of-day_number : civil_of (day_number y m d) ≡ record { year = y; month = m; day = d }
  unfolding civil_of dated
  civil_of-day_number =
      rw
        (
          year_of-day_number,
          day_of_year,
          month_day_lem (month_lengths (is_leap y)) m (d - 1)
              (rw (length-month_lengths (is_leap y)) h.0) (omega (arith, h.1, h.2)),
        )
        (ap (λ k. record { year = y; month = m; day = k }) (omega (arith, h.1)))

module _ (n : ℕ) where
  -- The day of the year, and the lengths of its months
  abbrev rest : ℕ
  rest = n - days_before_year (year_of n)

  abbrev lengths : List ℕ
  lengths = month_lengths (is_leap (year_of n))

  rest_lt : rest < days_before lengths (length lengths)
  rest_lt =
      omega (arith, year_total (year_of n), next_year (year_of n), year_of_low n, year_of_high n)

  pub civil_of-IsDate : IsDate (civil_of n).year (civil_of n).month (civil_of n).day
  unfolding civil_of dated
  civil_of-IsDate =
      let (m_lt, d_lt) = month_bounds lengths rest rest_lt in
      (omega (arith, m_lt, length-month_lengths (is_leap (year_of n))), omega arith, d_lt)

  -- Each day is the `Date.UTC` of its date.
  pub day_number-civil_of : day_number (civil_of n).year (civil_of n).month (civil_of n).day ≡ n
  unfolding day_number civil_of dated
  day_number-civil_of = omega (arith, month_lem lengths rest rest_lt, year_of_low n)
