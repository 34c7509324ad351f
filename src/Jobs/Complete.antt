-- ===== src/Jobs/Complete.antt =====
-- updateHistoricalAndRunDate of src/modules/external-api/external-recurring-jobs.service.ts: what a completed job
-- changes. The cache of filters, which it empties, and the log are left out.
use vnp_dbms_backend.Common.{
  ℕ, Bool, true, false, Option, none, some, List, map, eqb, if◌then◌else◌, String, str_eq, Exec,
  pure, gets, modify, or_raise, ◌>>=◌, ◌>>◌, bad_request, not_found,
}
use vnp_dbms_backend.Common.Prisma.{Prisma}
use vnp_dbms_backend.Common.Text.{codes}
use vnp_dbms_backend.Dates.Text.{Text}
use vnp_dbms_backend.Dates.ParserJob.{parse_crs_days}
use vnp_dbms_backend.Dates.RunDate
use vnp_dbms_backend.Dates.RunDate.{Ota, expedia, booking, agoda, calc_run_date}
use vnp_dbms_backend.Jobs.Window.{job_priority}

-- A property, by its columns for each OTA
pub record Row : Type 0 where
  pub id : String
  pub to : Ota → Option Text
  pub crs : Ota → Option Text
  pub priority : Ota → Option Text
  pub run_date : Ota → Option Text

-- `UpdateHistoricalAndRunDateDto`
pub record Dto : Type 0 where
  pub parent_id : String
  pub ota_type : Ota
  pub end_date : Text

pub record Updated : Type 0 where
  pub historical_to_updated : Text
  pub run_date : Option Text

abbrev pub has_id : String → Row → Bool
has_id id r = str_eq r.id id

-- The property as the search for a run date sees it
abbrev pub slot : Row → RunDate.Property
slot r = record { id = r.id; run_date = r.run_date }

abbrev pub same_ota : Ota → Ota → Bool
same_ota expedia expedia = true
same_ota booking booking = true
same_ota agoda agoda = true
same_ota a b = false

-- A column of one OTA is written.
abbrev pub written : Ota → Text → (Ota → Option Text) → Ota → Option Text
written ota t column o = if same_ota o ota then some t else column o

abbrev pub written_if : Option Text → Ota → (Ota → Option Text) → Ota → Option Text
written_if none ota column = column
written_if (some t) ota column = written ota t column

abbrev pub is_high : Dto → Row → Bool
is_high dto r = eqb (job_priority (r.priority dto.ota_type)) 1

abbrev pub crs_raw : Dto → Row → Option Text
crs_raw dto r = if is_high dto r then some (codes "30") else r.crs dto.ota_type

-- `updateData`; the priority and the CRS days are written if the property that was found has a high priority.
unfoldable pub completed : Dto → (high : Bool) → Option Text → Row → Row
completed dto high run_date r = record {
  id = r.id;
  to = written dto.ota_type dto.end_date r.to;
  run_date = written_if run_date dto.ota_type r.run_date;
  priority = if high then written dto.ota_type (codes "REGULAR") r.priority else r.priority;
  crs = if high then written dto.ota_type (codes "30") r.crs else r.crs;
}

module _ (prisma : Prisma) (parse_other : Text → Option ℕ) (capacity : Ota → ℕ) (dto : Dto) where
  -- The search reads the table alone.
  unfoldable pub search_run_date : Option Text → Exec (List Row) (Option Text)
  search_run_date crs rows = (
    (calc_run_date prisma parse_other capacity (some dto.parent_id) dto.end_date crs dto.ota_type
        (map slot rows)).0,
    rows,
  )

  abbrev run_date_if : Option Text → Option ℕ → Exec (List Row) (Option Text)
  run_date_if crs none = pure none
  run_date_if crs (some crs_days) = do
    found ← search_run_date crs
    run_date ← or_raise found bad_request "Could not calculate run date — CRS is invalid"
    pure (some run_date)

  unfoldable pub update_historical_and_run_date : Exec (List Row) Updated
  update_historical_and_run_date = do
    found ← gets (prisma.find_first (has_id dto.parent_id))
    p ← or_raise found not_found "Property was not found"
    run_date ← run_date_if (crs_raw dto p) (parse_crs_days (crs_raw dto p))
    modify (prisma.update (has_id dto.parent_id) (completed dto (is_high dto p) run_date))
    pure (record { historical_to_updated = dto.end_date; run_date = run_date })
