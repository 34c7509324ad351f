-- ===== src/Dates/Examples.antt =====
-- Dates, run dates and the forms of dates, at concrete days.
use vnp_dbms_backend.Common.{
  ℕ, ◌+◌, ◌-◌, ◌≤◌, ◌≡◌, refl, true, false, Option, none, some, List, [], ◌∷◌, arith, ok,
  if◌then◌else◌, ltb,
}
use vnp_dbms_backend.Common.Prisma.{scanning}
use vnp_dbms_backend.Common.Text.{codes}
use vnp_dbms_backend.Dates.Civil.{
  civil_of, dated, day_number, year_of, corrected, days_before_year, days_before, month_day,
  month_lengths, is_leap, year_zero, is_valid, epoch, reach,
}
use vnp_dbms_backend.Common.Text.{parse_units, is_space, is_digit, skip_spaces}
use vnp_dbms_backend.Dates.Text
use vnp_dbms_backend.Dates.Text.{
  Text, date_text, year_text, trim, trim_end, iso_parts, iso_prefix, digits, slash_parts,
  one_or_two, month_name_parts, letters, after_day,
}
use vnp_dbms_backend.Dates.ParserJob.{
  Value, midnight, parse_crs_days, normalize_parser_job_date, normalize_text, checked, date_utc,
  month_index_from_name, last_day_of_last_month,
}
use vnp_dbms_backend.Dates.Ranges.{FourDigits-between}
use vnp_dbms_backend.Dates.RunDate.{Ota, Property, Dates, calc_run_date}
use vnp_dbms_backend.Dates.Search.{FirstFree, calc_run_date-FirstFree}
use vnp_dbms_backend.Dates.Checked.{calendar_day}
use vnp_dbms_backend.Dates.Normalize.{slash_text, normalize-slash, normalize-roundtrip}
use vnp_dbms_backend.Dates.Written.{FourDigits, day_text}

-- 2026-01-31
abbrev last_of_january : ℕ
last_of_january = 100085972

january : civil_of last_of_january ≡ record { year = 274026; month = 0; day = 31 }
unfolding civil_of dated year_of corrected days_before_year month_day month_lengths is_leap
january = refl

written : date_text last_of_january ≡ some (codes "2026-01-31")
unfolding date_text civil_of dated year_of corrected days_before_year month_day month_lengths
    is_leap is_valid epoch reach year_text year_zero
written = refl

FourDigits-january : FourDigits last_of_january
unfolding civil_of dated year_of corrected days_before_year month_day month_lengths is_leap
    year_zero
FourDigits-january = (omega arith, omega arith)

FourDigits-later : FourDigits (last_of_january + 1000)
unfolding civil_of dated year_of corrected days_before_year month_day month_lengths is_leap
    year_zero
FourDigits-later = (omega arith, omega arith)

later : (k : ℕ) → k ≤ 1000 → FourDigits (last_of_january + k)
later k h =
    FourDigits-between last_of_january _ (last_of_january + 1000) FourDigits-january
      FourDigits-later (omega arith) (omega arith)

-- An engine that reads no other form
abbrev strict : Text → Option ℕ
strict s = none

abbrev thirty : Option Text
thirty = some (codes "30")

thirty-days : parse_crs_days thirty ≡ some 30
unfolding parse_crs_days parse_units trim trim_end skip_spaces is_space
thirty-days = refl

abbrev taken : List Property
taken = record { id = "p"; run_date = λ ota. some (codes "2026-03-18") } ∷ []

abbrev one_each : Ota → ℕ
one_each ota = 1

calc_run_date-FirstFree_example :
    (j : ℕ) × (calc_run_date scanning strict one_each none
        (day_text last_of_january)
        thirty
        Ota.booking
        taken
      ≡ (ok (some (day_text (last_of_january + 1 + 30 + 15 + j))), taken))
    × FirstFree scanning strict one_each none Ota.booking taken
        (last_of_january + 1 + 30 + 15)
        365
        j
calc_run_date-FirstFree_example =
    calc_run_date-FirstFree scanning strict one_each none Ota.booking taken last_of_january 30
      thirty thirty-days FourDigits-january (later 411 (omega arith))

abbrev urgent : Dates
urgent = record {
  created_at = some (some last_of_january);
  to = λ ota. some (codes "2026-01-31");
  crs = λ ota. none;
  priority = λ ota. some (codes "HIGH");
}

normalize-slash_example :
    normalize_parser_job_date strict (Value.text (slash_text 2 30 2026))
    ≡ ok
        (Text.◌>>=◌ (if ltb 12 2 then calendar_day 2026 30 2 else calendar_day 2026 2 30) date_text)
normalize-slash_example = normalize-slash strict 2 30 2026 (omega arith) (omega arith) (omega arith)

epoch_before : epoch - 25569 ≤ last_of_january
unfolding epoch
epoch_before = omega arith

normalize-roundtrip_example :
    (normalize_parser_job_date strict (Value.text (day_text last_of_january))
      ≡ ok (some (day_text last_of_january)))
    × (normalize_parser_job_date strict (Value.date (some last_of_january))
        ≡ ok (some (day_text last_of_january)))
    × (normalize_parser_job_date strict (
          Value.text (
            slash_text
              ((civil_of last_of_january).month + 1)
              (civil_of last_of_january).day
              ((civil_of last_of_january).year - year_zero)))
        ≡ ok (some (day_text last_of_january)))
    × (normalize_parser_job_date strict
          (Value.number false (last_of_january - (epoch - 25569)) true)
        ≡ ok (some (day_text last_of_january)))
    × (midnight strict (day_text last_of_january) ≡ some last_of_january)
normalize-roundtrip_example =
    normalize-roundtrip strict last_of_january true FourDigits-january epoch_before

-- There is no 30th of February.
no_30th : normalize_parser_job_date strict (Value.text (codes "02/30/2026")) ≡ ok none
unfolding normalize_parser_job_date normalize_text trim trim_end skip_spaces is_space iso_parts
    iso_prefix digits is_digit slash_parts one_or_two month_name_parts letters after_day
    month_index_from_name checked date_utc civil_of dated day_number year_of corrected
    days_before_year days_before month_day month_lengths is_leap is_valid epoch reach year_text
    year_zero date_text
no_30th = refl

-- A text that looks like a date is taken for one.
not_looked_at :
    normalize_parser_job_date strict (Value.text (codes "2026-99-99"))
    ≡ ok (some (codes "2026-99-99"))
unfolding normalize_parser_job_date normalize_text trim trim_end skip_spaces is_space iso_parts
    iso_prefix digits is_digit
not_looked_at = refl

-- Digits at the front are enough for the CRS days.
days_with_unit : parse_crs_days (some (codes "30abc")) ≡ some 30
unfolding parse_crs_days parse_units trim trim_end skip_spaces is_space
days_with_unit = refl

month_name :
    normalize_parser_job_date strict (Value.text (codes " Sept. 30, 2026"))
    ≡ ok (some (codes "2026-09-30"))
unfolding normalize_parser_job_date normalize_text trim trim_end skip_spaces is_space iso_parts
    iso_prefix digits is_digit slash_parts one_or_two month_name_parts letters after_day
    month_index_from_name checked date_utc civil_of dated day_number year_of corrected
    days_before_year days_before month_day month_lengths is_leap is_valid epoch reach year_text
    year_zero date_text
month_name = refl

last_month : last_day_of_last_month last_of_january ≡ some (codes "2025-12-31")
unfolding last_day_of_last_month trim trim_end skip_spaces is_space iso_parts iso_prefix digits
    is_digit slash_parts one_or_two month_name_parts letters after_day month_index_from_name checked
    date_utc civil_of dated day_number year_of corrected days_before_year days_before month_day
    month_lengths is_leap is_valid epoch reach year_text year_zero date_text
last_month = refl
