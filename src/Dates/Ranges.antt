-- ===== src/Dates/Ranges.antt =====
-- The ranges of parser jobs, in days.
use vnp_dbms_backend.Common.{
  ℕ, ◌+◌, ◌-◌, ◌*◌, ◌≤◌, ◌≡◌, inl, inr, Bool, Option, some, ltb, if◌then◌else◌, arith, Bool-cases,
}
use vnp_dbms_backend.Dates.Civil.{civil_of, year_of, dated}
use vnp_dbms_backend.Dates.Calendar.{year_of_low, year_of_high, days_before_year_mono}
use vnp_dbms_backend.Dates.Text.{Text}
use vnp_dbms_backend.Dates.Written.{FourDigits, day_text, date_text-day_text, midnight-day_text}
use vnp_dbms_backend.Dates.ParserJob.{
  calc_parser_job_start_date, calc_parser_job_end_date, calc_agoda_parser_job_start_date,
  calc_agoda_parser_job_end_date, calc_preliminary_run_date,
}

pub year_of_mono : (m n : ℕ) → m ≤ n → year_of m ≤ year_of n
year_of_mono m n h = elim (Bool-cases (ltb (year_of n) (year_of m))) [
  | inl below ↦ absurd (
      omega (
        arith,
        h,
        year_of_low m,
        year_of_high n,
        days_before_year_mono (year_of n) (year_of m) (ground arith),
      ))
  | inr not_below ↦ ground arith
]

pub FourDigits-between : (a n b : ℕ) → FourDigits a → FourDigits b → a ≤ n → n ≤ b → FourDigits n
unfolding civil_of dated
FourDigits-between a n b ha hb an nb =
    (omega (arith, ha.0, year_of_mono a n an), omega (arith, hb.1, year_of_mono n b nb))

module _ (parse_other : Text → Option ℕ) (n crs_days : ℕ) where
  -- Let `n` and the last of the days be days of years from 0 to 9999; then the range of a job starts on the
  -- day after the historical date and ends the CRS days later, for a booking job a year of 365 days
  -- after that.
  pub parser_job_range :
      (add_extra_year : Bool)
      → FourDigits n
      → FourDigits (n + 1 + (crs_days + (if add_extra_year then 365 else 0)))
      → (calc_parser_job_start_date parse_other (day_text n) ≡ some (day_text (n + 1)))
        × (calc_parser_job_end_date parse_other (day_text (n + 1)) crs_days add_extra_year
            ≡ some (day_text (n + 1 + (crs_days + (if add_extra_year then 365 else 0)))))
  unfolding calc_parser_job_start_date calc_parser_job_end_date
  parser_job_range add_extra_year first last =
      let next : FourDigits (n + 1) =
        FourDigits-between n (n + 1) _ first last (omega arith) (omega arith) in
      (
        rw (midnight-day_text parse_other n first) (date_text-day_text (n + 1) next),
        rw (midnight-day_text parse_other (n + 1) next) (date_text-day_text _ last),
      )

  -- Let the days of the range be days of years from 0 to 9999; then the range of an Agoda job lies
  -- around the day after the historical date, the CRS days to each side.
  pub agoda_parser_job_range :
      crs_days ≤ n
      → FourDigits n
      → FourDigits (n + 1 - crs_days)
      → FourDigits (n + crs_days + 1)
      → (calc_agoda_parser_job_start_date parse_other (day_text n) crs_days
          ≡ some (day_text (n + 1 - crs_days)))
        × (calc_agoda_parser_job_end_date parse_other (day_text n) crs_days
            ≡ some (day_text (n + 1 - crs_days + 2 * crs_days)))
  unfolding calc_agoda_parser_job_start_date calc_agoda_parser_job_end_date
  agoda_parser_job_range le now first last =
      let wide : n + 1 - crs_days + 2 * crs_days ≡ n + crs_days + 1 = omega arith in
      (
        rw (midnight-day_text parse_other n now) (date_text-day_text _ first),
        rw (midnight-day_text parse_other n now, wide) (date_text-day_text _ last),
      )

  pub preliminary_run_date-day :
      FourDigits n
      → FourDigits (n + 1 + crs_days + 15)
      → calc_preliminary_run_date parse_other (day_text n) crs_days
        ≡ some (day_text (n + 1 + crs_days + 15))
  unfolding calc_preliminary_run_date
  preliminary_run_date-day now last =
      rw (midnight-day_text parse_other n now) (date_text-day_text _ last)
