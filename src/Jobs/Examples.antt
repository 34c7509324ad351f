-- ===== src/Jobs/Examples.antt =====
-- Parser jobs for concrete properties.
use vnp_dbms_backend.Common.{
  map, ℕ, ◌+◌, ◌-◌, ◌≤◌, ◌≡◌, refl, ◌⊎◌, true, false, Option, none, some, List, [], ◌∷◌, arith,
  Error, error, err, not_found, length,
}
use vnp_dbms_backend.Common.Prisma.{scanning}
use vnp_dbms_backend.Common.Text.{codes, parse_units, skip_spaces, is_space}
use vnp_dbms_backend.Dates.Civil.{
  civil_of, dated, year_of, corrected, days_before_year, month_day, month_lengths, is_leap,
  year_zero,
}
use vnp_dbms_backend.Dates.Text.{Text, trim, trim_end}
use vnp_dbms_backend.Dates.Written.{FourDigits, day_text}
use vnp_dbms_backend.Dates.Ranges.{FourDigits-between}
use vnp_dbms_backend.Dates.ParserJob.{parse_crs_days}
use vnp_dbms_backend.Dates.Order.{text_lt}
use vnp_dbms_backend.Jobs.Window.{
  job_priority, Ota, Property, Columns, Outcome, columns, job_window, fixed_start,
}
use vnp_dbms_backend.Jobs.Service.{
  Dto, Job, Summary, Db, Answer, backwards, forward, bulk_create_parser_jobs, build,
}
use vnp_dbms_backend.Dates.RunDate
use vnp_dbms_backend.Dates.Search.{FirstFree}
use vnp_dbms_backend.Jobs.Complete
use vnp_dbms_backend.Jobs.Complete.{completed, is_high, Row, crs_raw, slot}
use vnp_dbms_backend.Jobs.Completed.{
  Completes, IsCompleted, update_historical_and_run_date-FirstFree,
}
use vnp_dbms_backend.Jobs.Accounts.{
  Accounts, Selected, Rejects, Ends, bulk_create_parser_jobs-Accounts,
}
use vnp_dbms_backend.Jobs.Windows.{IsForward, Fits, text_of, job_window-IsForward}

abbrev strict : Text → Option ℕ
strict s = none

-- 2026-01-31
abbrev day : ℕ
day = 100085972

FourDigits-early : FourDigits (day - 1000)
unfolding civil_of dated year_of corrected days_before_year month_day month_lengths is_leap
    year_zero
FourDigits-early = (omega arith, omega arith)

FourDigits-late : FourDigits (day + 1000)
unfolding civil_of dated year_of corrected days_before_year month_day month_lengths is_leap
    year_zero
FourDigits-late = (omega arith, omega arith)

near : (n : ℕ) → day - 1000 ≤ n → n ≤ day + 1000 → FourDigits n
near n low high =
    FourDigits-between (day - 1000) n (day + 1000) FourDigits-early FourDigits-late low high

abbrev hotel_columns : Columns
hotel_columns = record {
  ota_id = some "17";
  to = text_of (some day);
  crs = some (codes "30");
  priority = none;
  billing_type = none;
}

abbrev no_columns : Columns
no_columns = record { ota_id = none; to = none; crs = none; priority = none; billing_type = none }

thirty_days : parse_crs_days hotel_columns.crs ≡ some 30
unfolding parse_crs_days parse_units trim trim_end skip_spaces is_space
thirty_days = refl

Fits-day : Fits hotel_columns day
Fits-day = (
  near day (omega arith) (omega arith),
  near (day + 1) (omega arith) (omega arith),
  λ d e.
      let d_is : 30 ≡ d = ground (arith, thirty_days, e) in
      (
        omega (arith, d_is),
        near _ (omega (arith, d_is)) (omega (arith, d_is)),
        near _ (omega (arith, d_is)) (omega (arith, d_is)),
      ),
)

job_window-IsForward_example :
    (r : Outcome) × (job_window strict Ota.booking hotel_columns (text_of none) (text_of none)
      ≡ some r)
    × IsForward r
job_window-IsForward_example =
    job_window-IsForward strict Ota.booking hotel_columns none none (some day) tt tt Fits-day refl
      refl

abbrev hotel : Property
hotel = record {
  id = "p";
  name = "Hotel";
  expedia = no_columns;
  booking = hotel_columns;
  agoda = hotel_columns;
  booking_otp_number = none;
}

abbrev table : Db
table = record { properties = hotel ∷ []; posted = [] }

abbrev request : Dto
request = record {
  property_ids = "p" ∷ [];
  ota_type = Ota.booking;
  start_date = some (codes "2026-03-01");
  end_date = some (codes "2026-03-31");
}

abbrev accepting : List Job → Answer
accepting jobs = Answer.answered (record { status = 201; body = none })

bulk_create_parser_jobs-Accounts_example :
    ((e : Error) × Rejects strict true request table e
      × (bulk_create_parser_jobs scanning strict true true accepting request table
          ≡ (err e, table)))
    ⊎ ((ps : List Property) × (jobs : List Job) × (summary : List Summary) × (backwards request
          ≡ false)
        × Selected request table ps
        × Accounts ps jobs summary
        × Ends true accepting jobs summary table
            (bulk_create_parser_jobs scanning strict true true accepting request table))
bulk_create_parser_jobs-Accounts_example =
    bulk_create_parser_jobs-Accounts scanning strict true true accepting request table

posted_one :
    length (bulk_create_parser_jobs scanning strict true true accepting request table).1.posted ≡ 1
unfolding bulk_create_parser_jobs backwards build job_window fixed_start forward text_lt
posted_one = refl

-- The columns of another OTA are used for `expedia_db`.
other_columns : columns Ota.expedia_db hotel ≡ hotel.agoda
other_columns = refl

-- An id that is given twice is told to be missing.
twice :
    (bulk_create_parser_jobs scanning strict true true accepting
      (record request { property_ids = "p" ∷ "p" ∷ [] })
      table).0
    ≡ err (error not_found "The following property IDs were not found")
unfolding bulk_create_parser_jobs backwards text_lt
twice = refl

abbrev urgent : Row
urgent = record {
  id = "p";
  to = λ o. none;
  crs = λ o. none;
  priority = λ o. some (codes "high");
  run_date = λ o. some (codes "2026-03-18");
}

abbrev done : Complete.Dto
done = record { parent_id = "p"; ota_type = RunDate.booking; end_date = day_text day }

abbrev one_each : RunDate.Ota → ℕ
one_each o = 1

thirty_given : parse_crs_days (crs_raw done urgent) ≡ some 30
unfolding parse_crs_days parse_units trim trim_end skip_spaces is_space job_priority
thirty_given = refl

update_historical_and_run_date-FirstFree_example :
    (j : ℕ) × Completes scanning strict one_each done
      (urgent ∷ [])
      urgent
      (some (day_text (day + 1 + 30 + 15 + j)))
    × IsCompleted done urgent
        (day_text (day + 1 + 30 + 15 + j))
        (completed done (is_high done urgent) (some (day_text (day + 1 + 30 + 15 + j))) urgent)
    × FirstFree scanning strict one_each
        (some "p")
        RunDate.booking
        (map slot (urgent ∷ []))
        (day + 1 + 30 + 15)
        365
        j
update_historical_and_run_date-FirstFree_example =
    update_historical_and_run_date-FirstFree scanning strict one_each done (urgent ∷ []) urgent day
      30 refl thirty_given refl (near day (omega arith) (omega arith))
      (near (day + 1 + 30 + 15 + 365) (omega arith) (omega arith))
