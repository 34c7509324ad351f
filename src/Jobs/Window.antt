-- ===== src/Jobs/Window.antt =====
-- The window of a parser job: the middle of bulkCreateParserJobs in
-- src/modules/external-api/external-recurring-jobs.service.ts. A reason for skipping is the case that the message tells.
use vnp_dbms_backend.Common.{
  ℕ, ◌-◌, ◌*◌, Bool, true, false, ◌&&◌, Option, none, some, [], ◌∷◌, eqb, leb, if◌then◌else◌,
  String,
}
use vnp_dbms_backend.Common.Text.{codes}
use vnp_dbms_backend.Dates.Text.{Text, ◌>>=◌, trim}
use vnp_dbms_backend.Dates.Order.{text_lt}
use vnp_dbms_backend.Dates.RunDate.{should_calc, same_text}
use vnp_dbms_backend.Dates.ParserJob.{
  calc_parser_job_start_date, calc_parser_job_end_date, calc_agoda_parser_job_start_date,
  calc_agoda_parser_job_end_date, parse_crs_days,
}

-- `ParserJobOtaType`
pub data Ota : Type 0 where
  expedia booking agoda expedia_db : Ota

abbrev pub is_agoda : Ota → Bool
is_agoda agoda = true
is_agoda ota = false

abbrev pub is_booking : Ota → Bool
is_booking booking = true
is_booking ota = false

-- The columns of a property for one OTA, with the name of the billing type
pub record Columns : Type 0 where
  pub ota_id : Option String
  pub to : Option Text
  pub crs : Option Text
  pub priority : Option Text
  pub billing_type : Option String

pub record Property : Type 0 where
  pub id : String
  pub name : String
  pub expedia : Columns
  pub booking : Columns
  pub agoda : Columns
  pub booking_otp_number : Option String

-- `ota === 'expedia' ? … : ota === 'booking' ? … : …`
abbrev pub columns : Ota → Property → Columns
columns expedia p = p.expedia
columns booking p = p.booking
columns ota p = p.agoda

-- `toUpperCase`, on the letters that can become one of HIGH (U+0131 becomes an I)
abbrev upper : Text → Text
upper [] = []
upper (c ∷ cs) =
    (if leb b'a' c && leb c b'z' then c - 32 else if eqb c 0x131 then b'I' else c) ∷ upper cs

unfoldable pub job_priority : Option Text → ℕ
job_priority none = 0
job_priority (some p) = if same_text (upper (trim p)) (codes "HIGH") then 1 else 0

pub data Reason : Type 0 where
  no_ota_id no_historical_to : Reason
  bad_crs : Option Text → Reason
  end_before_start : (end_date start_date : Text) → Reason

pub data Outcome : Type 0 where
  skipped : Reason → Outcome
  window : (start_date end_date : Text) → Outcome

module _ (parse_other : Text → Option ℕ) (ota : Ota) (c : Columns) where
  abbrev or_bad_crs : (ℕ → Option Outcome) → Option ℕ → Option Outcome
  or_bad_crs f none = some (skipped (bad_crs c.crs))
  or_bad_crs f (some crs_days) = f crs_days

  unfoldable pub fixed_start : (start_date : Text) → (end_date : Option Text) → Option Outcome
  fixed_start start_date (some end_date) = some (window start_date end_date)
  fixed_start start_date none =
      or_bad_crs
        (λ crs_days. do
          end_date ←
              calc_parser_job_end_date parse_other start_date
                (if is_agoda ota then crs_days * 2 else crs_days) (is_booking ota)
          some (window start_date end_date))
        (parse_crs_days c.crs)

  unfoldable pub usual_window : (historical_to : Text) (crs_days : ℕ) → Option Outcome
  usual_window historical_to crs_days =
      if is_agoda ota
      then (calc_agoda_parser_job_start_date parse_other historical_to crs_days >>= λ start_date.
          calc_agoda_parser_job_end_date parse_other historical_to crs_days >>= λ end_date.
          some (window start_date end_date))
      else (calc_parser_job_start_date parse_other historical_to >>= λ start_date.
          calc_parser_job_end_date parse_other start_date crs_days (is_booking ota) >>= λ end_date.
          some (window start_date end_date))

  unfoldable pub from_history : (historical_to end_date : Option Text) → Option Outcome
  from_history none end_date = some (skipped no_historical_to)
  from_history (some historical_to) (some end_date) = do
    start_date ← calc_parser_job_start_date parse_other historical_to
    some (
        if text_lt end_date start_date
        then skipped (end_before_start end_date start_date)
        else window start_date end_date)
  from_history (some historical_to) none =
      or_bad_crs (usual_window historical_to) (parse_crs_days c.crs)

  abbrev from_start : (start_date end_date : Option Text) → Option Outcome
  from_start (some start_date) end_date = fixed_start start_date end_date
  from_start none end_date = from_history (should_calc c.to) end_date

  abbrev with_id : Option String → (start_date end_date : Option Text) → Option Outcome
  with_id none start_date end_date = some (skipped no_ota_id)
  with_id (some id) start_date end_date = from_start (should_calc start_date) (should_calc end_date)

  -- `none` is a RangeError.
  unfoldable pub job_window : (start_date end_date : Option Text) → Option Outcome
  job_window start_date end_date = with_id c.ota_id start_date end_date
