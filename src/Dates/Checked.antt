-- ===== src/Dates/Checked.antt =====
-- The check of a date by way of `Date.UTC` admits the dates of the calendar, from the year 100 on.
use vnp_dbms_backend.Common.{
  ℕ, suc, ◌+◌, ◌-◌, ◌/◌, ◌%◌, ◌≤◌, ◌<◌, ◌≡◌, ◌≢◌, refl, ap, inl, inr, true, false, ◌&&◌, Option,
  none, some, ltb, leb, if◌then◌else◌, arith, Bool-cases, and-eq-true_iff,
}
use vnp_dbms_backend.Dates.Civil.{civil_of, dated, day_number, is_date, year_zero, days_before_year}
use vnp_dbms_backend.Dates.Calendar.{
  IsDate, civil_of-IsDate, civil_of-day_number, year_of_high, days_before_year_mono,
}
use vnp_dbms_backend.Dates.Written.{is_date-IsDate}
use vnp_dbms_backend.Dates.ParserJob.{date_utc, checked, same_date}

-- What the check is to do
unfoldable pub calendar_day : (year month1 day : ℕ) → Option ℕ
calendar_day y m d =
    if leb 100 y && is_date (year_zero + y) m d
    then some (day_number (year_zero + y) (m - 1) d)
    else none

IsDate-is_date : (y m d : ℕ) → is_date y m d ≡ true → IsDate y (m - 1) d × (1 ≤ m)
unfolding is_date
IsDate-is_date y m d h = ground (arith, h)

module _ (y m d : ℕ) where
  date_utc-IsDate :
      100 ≤ y
      → IsDate (year_zero + y) (m - 1) d
      → 1 ≤ m
      → date_utc y m d ≡ day_number (year_zero + y) (m - 1) d
  unfolding date_utc day_number year_zero
  date_utc-IsDate late h m_low =
      let late_test : ltb y 100 ≡ false = ground (arith, late) in
      let same_year : year_zero + y - 1 + (m + 11) / 12 ≡ year_zero + y =
        omega (arith, h.0, m_low) in
      let same_month : (m + 11) % 12 ≡ m - 1 = omega (arith, h.0, m_low) in
      rw (late_test, same_year, same_month) (omega (arith, h.1))

  checked-IsDate :
      100 ≤ y
      → IsDate (year_zero + y) (m - 1) d
      → 1 ≤ m
      → checked y m d ≡ some (day_number (year_zero + y) (m - 1) d)
  unfolding checked
  checked-IsDate late h m_low =
      rw (date_utc-IsDate late h m_low, civil_of-day_number (year_zero + y) (m - 1) d h)
        (let same : same_date (record { year = year_zero + y; month = m - 1; day = d }) y m d
              ≡ true =
            ground (arith, m_low) in
          rw same refl)

  same_parts :
      same_date (civil_of (date_utc y m d)) y m d ≡ true
      → ((civil_of (date_utc y m d)).year ≡ year_zero + y)
        × ((civil_of (date_utc y m d)).month + 1 ≡ m)
        × ((civil_of (date_utc y m d)).day ≡ d)
  same_parts h = ground (arith, h)

  date_utc-early :
      y < 100 → 1 ≤ m → m ≤ 12 → 1 ≤ d → days_before_year (year_zero + (1900 + y)) ≤ date_utc y m d
  unfolding date_utc day_number year_zero
  date_utc-early early m_low m_high d_low =
      let early_test : ltb y 100 ≡ true = ground (arith, early) in
      let same_year : year_zero + (1900 + y) - 1 + (m + 11) / 12 ≡ year_zero + (1900 + y) =
        omega (arith, m_low, m_high) in
      rw (early_test, same_year) (omega (arith, d_low))

  -- The years below 100 are carried to the 20th century, so their dates do not come back.
  early_year : y < 100 → 1 ≤ m → m ≤ 12 → 1 ≤ d → (civil_of (date_utc y m d)).year ≢ year_zero + y
  unfolding civil_of dated
  early_year early m_low m_high d_low e = omega (
    arith,
    date_utc-early early m_low m_high d_low,
    year_of_high (date_utc y m d),
    ap (λ z. days_before_year (suc z)) e,
    days_before_year_mono (year_zero + y) (year_zero + (1900 + y)) (omega arith),
  )

  same_date-IsDate :
      same_date (civil_of (date_utc y m d)) y m d ≡ true
      → leb 100 y && is_date (year_zero + y) m d ≡ true
  same_date-IsDate h =
      let (ey, em, ed) = same_parts h in
      let (m_lt, d_low, d_high) = civil_of-IsDate (date_utc y m d) in
      let valid =
        is_date-IsDate (civil_of (date_utc y m d)).year (civil_of (date_utc y m d)).month
          (civil_of (date_utc y m d)).day (m_lt, d_low, d_high) in
      let good : is_date (year_zero + y) m d ≡ true = cc (valid, ey, em, ed) in
      elim (Bool-cases (leb 100 y)) [
        | inl late ↦ rw (late, good) refl
        | inr early ↦ absurd (
            early_year (ground (arith, early)) (omega (arith, em)) (omega (arith, em, m_lt))
              (omega (arith, ed, d_low)) ey)
      ]

  -- Whatever the numbers are, `Date.UTC` and the comparison of the parts find the day of a date of the
  -- calendar from the year 100 on, and nothing else.
  pub checked-eq : checked y m d ≡ calendar_day y m d
  unfolding checked calendar_day
  checked-eq = elim (Bool-cases (leb 100 y && is_date (year_zero + y) m d)) [
    | inl good ↦
        let (late, valid) = (and-eq-true_iff (leb 100 y) (is_date (year_zero + y) m d)).0 good in
        let (h, m_low) = IsDate-is_date (year_zero + y) m d valid in
        rw good (checked-IsDate (ground (arith, late)) h m_low)
    | inr bad ↦ elim (Bool-cases (same_date (civil_of (date_utc y m d)) y m d)) [
      | inl same ↦ cc (bad, same_date-IsDate same)
      | inr other ↦ rw (bad, other) refl
    ]
  ]
