-- ===== src/Dates/ParserJob.antt =====
-- src/common/utils/parser-job-date.util.ts. A Date is its day: the time of the day is midnight or is cut off.
use vnp_dbms_backend.Common.{
  String, ◌++◌, ℕ, ◌+◌, ◌-◌, ◌/◌, ◌%◌, Bool, true, false, ◌&&◌, ◌||◌, Option, none, some, is_some,
  List, [], ◌∷◌, any, ltb, leb, eqb, if◌then◌else◌, Result, ok, err, error, internal,
}
use vnp_dbms_backend.Common.Text.{codes, parse_units}
use vnp_dbms_backend.Dates.Civil.{Civil, civil_of, day_number, is_date, year_zero, epoch}
use vnp_dbms_backend.Dates.Text.{
  Text, ◌>>=◌, date_text, iso_prefix, iso_parts, slash_parts, month_name_parts, trim, lower,
  starts_with, is_nil,
}

abbrev month_names : List String
month_names =
    "january" ∷ "february" ∷ "march" ∷ "april" ∷ "may" ∷ "june" ∷ "july" ∷ "august" ∷ "september"
    ∷ "october" ∷ "november" ∷ "december" ∷ []

-- `findIndex`, from 1
abbrev index_from : ℕ → Text → List String → Option ℕ
index_from i name [] = none
index_from i name (m ∷ ms) =
    let more = index_from (i + 1) name ms in if starts_with (codes m) name then some i else more

-- The month from 1; `none` is -1.
unfoldable pub month_index_from_name : Text → Option ℕ
month_index_from_name token = index_from 1 (lower token) month_names

-- `Date.UTC(year, month1 - 1, day)`: years below 100 stand for 19xx, and what exceeds the year or the month is carried.
unfoldable pub date_utc : (year month1 day : ℕ) → ℕ
date_utc year month1 day =
    let y = year_zero + (if ltb year 100 then 1900 + year else year) in
    day_number (y - 1 + (month1 + 11) / 12) ((month1 + 11) % 12) 1 + day - 1

abbrev pub same_date : Civil → (year month1 day : ℕ) → Bool
same_date c year month1 day =
    eqb c.year (year_zero + year) && eqb (c.month + 1) month1 && eqb c.day day

-- The day of a date that `Date.UTC` does not change
unfoldable pub checked : (year month1 day : ℕ) → Option ℕ
checked year month1 day =
    let n = date_utc year month1 day in
    if same_date (civil_of n) year month1 day then some n else none

-- What a request, a spreadsheet or the database may hold: `null` and `undefined`, a text, a Date (`none` is an Invalid Date), a number by its
-- sign, the whole part of its absolute value and whether there is a fraction, and NaN or an infinity
pub data Value : Type 0 where
  missing not_finite : Value
  text : Text → Value
  date : Option ℕ → Value
  number : (negative : Bool) → (whole : ℕ) → (fraction : Bool) → Value

-- `new Date(Math.floor(value - EXCEL_EPOCH_OFFSET_DAYS) * MS_PER_DAY)`
abbrev pub excel_day : (negative : Bool) (whole : ℕ) (fraction : Bool) → ℕ
excel_day false whole fraction = epoch - 25569 + whole
excel_day true whole fraction = epoch - 25569 - whole - (if fraction then 1 else 0)

-- `new Date(value)`, of milliseconds
abbrev pub timestamp_day : (negative : Bool) (whole : ℕ) → ℕ
timestamp_day false whole = epoch + whole / 86400000
timestamp_day true whole = epoch - (whole + 86399999) / 86400000

-- An Invalid Date goes on as the text of the number, which matches no pattern.
unfoldable pub from_number : (negative : Bool) (whole : ℕ) (fraction : Bool) → Option Text
from_number negative whole fraction =
    if ltb whole 3000000
    then date_text (excel_day negative whole fraction)
    else if leb whole 8640000000000000
    then date_text (timestamp_day negative whole)
    else none

-- The first number is the day if it is no month.
abbrev from_slash : ℕ × ℕ × ℕ → Option Text
from_slash (first, second, year) =
    (if ltb 12 first then checked year second first else checked year first second) >>= date_text

abbrev from_month_name : Text × ℕ × ℕ → Option Text
from_month_name (word, day, year) = do
  month1 ← month_index_from_name word
  n ← checked year month1 day
  date_text n

-- `new Date(text)` of a text that is no date of the calendar is left to the engine: the day, or
-- `none` for an Invalid Date.
module _ (parse_other : Text → Option ℕ) where
  abbrev valid_or : Option ℕ → Text → Option ℕ
  valid_or none s = parse_other s
  valid_or (some n) s = some n

  abbrev known : ℕ × ℕ × ℕ → Option ℕ
  known (year, month1, day) =
      if is_date (year_zero + year) month1 day
      then some (day_number (year_zero + year) (month1 - 1) day)
      else none

  -- `new Date(`${s}T00:00:00.000Z`)`
  unfoldable pub midnight : Text → Option ℕ
  midnight s = valid_or (iso_parts s >>= known) (s ++ codes "T00:00:00.000Z")

  unfoldable pub calc_parser_job_start_date : Text → Option Text
  calc_parser_job_start_date historical_to = do n ← midnight historical_to; date_text (n + 1)

  unfoldable pub calc_parser_job_end_date :
      Text → (crs_days : ℕ) → (add_extra_year : Bool) → Option Text
  calc_parser_job_end_date start_date crs_days add_extra_year = do
    n ← midnight start_date
    date_text (n + (crs_days + (if add_extra_year then 365 else 0)))

  unfoldable pub calc_agoda_parser_job_start_date : Text → (crs_days : ℕ) → Option Text
  calc_agoda_parser_job_start_date historical_to crs_days = do
    n ← midnight historical_to
    date_text (n + 1 - crs_days)

  unfoldable pub calc_agoda_parser_job_end_date : Text → (crs_days : ℕ) → Option Text
  calc_agoda_parser_job_end_date historical_to crs_days = do
    n ← midnight historical_to
    date_text (n + crs_days + 1)

  unfoldable pub calc_preliminary_run_date : Text → (crs_days : ℕ) → Option Text
  calc_preliminary_run_date end_date crs_days = do
    n ← midnight end_date
    date_text (n + 1 + crs_days + 15)

  abbrev engine_text : Text → Option Text
  engine_text s =
      if any (eqb b'T') s || is_some (iso_prefix s) then (parse_other s >>= date_text) else none

  abbrev month_name_or_engine : Text → Option Text
  month_name_or_engine s = elim (month_name_parts s) [
    | some parts ↦ from_month_name parts
    | none ↦ engine_text s
  ]

  unfoldable pub normalize_text : Text → Option Text
  normalize_text s =
      if is_some (iso_parts s)
      then some s
      else elim (slash_parts s) [ some parts ↦ from_slash parts | none ↦ month_name_or_engine s ]

  abbrev or_range_error : Option Text → Result (Option Text)
  or_range_error none = err (error internal "Invalid time value")
  or_range_error (some t) = ok (some t)

  unfoldable pub normalize_parser_job_date : Value → Result (Option Text)
  normalize_parser_job_date missing = ok none
  normalize_parser_job_date not_finite = ok none
  normalize_parser_job_date (date d) = or_range_error (d >>= date_text)
  normalize_parser_job_date (number negative whole fraction) =
      ok (from_number negative whole fraction)
  normalize_parser_job_date (text s) = ok (if is_nil s then none else normalize_text (trim s))

abbrev positive_days : Text → Option ℕ
positive_days crs = if is_nil crs then none else parse_units (trim crs)

unfoldable pub parse_crs_days : Option Text → Option ℕ
parse_crs_days none = none
parse_crs_days (some crs) = positive_days crs

-- `now` is the present day.
unfoldable pub last_day_of_last_month : (now : ℕ) → Option Text
last_day_of_last_month now =
    let c = civil_of now in date_text (date_utc (c.year - year_zero) (c.month + 1) 0)
