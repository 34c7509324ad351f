-- ===== src/Dates/RunDate.antt =====
-- src/common/services/run-date-calculator.service.ts. What it writes to the log is left out.
use vnp_dbms_backend.Common.{
  ℕ, zero, suc, ◌+◌, Bool, true, false, not, ◌&&◌, Option, none, some, List, [], ◌∷◌, ltb, eqb,
  if◌then◌else◌, String, str_eq, Exec, pure, gets, or_raise, ◌>>=◌, internal,
}
use vnp_dbms_backend.Common.Text.{codes}
use vnp_dbms_backend.Common.Prisma.{Prisma}
use vnp_dbms_backend.Dates.Text.{Text, date_text, is_nil}
use vnp_dbms_backend.Dates.ParserJob.{midnight, calc_preliminary_run_date, parse_crs_days}
use vnp_dbms_backend.Dates.Text

-- `RunDateOtaType`
pub data Ota : Type 0 where
  expedia booking agoda : Ota

-- The run date columns of a property
pub record Property : Type 0 where
  pub id : String
  pub run_date : Ota → Option Text

abbrev pub same_text : Text → Text → Bool
same_text [] [] = true
same_text [] (c ∷ cs) = false
same_text (c ∷ cs) [] = false
same_text (c ∷ cs) (d ∷ ds) = eqb c d && same_text cs ds

abbrev pub has_run_date : Ota → Text → Property → Bool
has_run_date ota date p = elim (p.run_date ota) [ none ↦ false | some t ↦ same_text t date ]

-- `where['id'] = { not: excludeId }`, if it is given
abbrev pub not_excluded : Option String → Property → Bool
not_excluded none p = true
not_excluded (some id) p = not (str_eq p.id id)

-- What the calculation needs of a property. A given `created_at` is the day of the Date made from it, or `none` for an
-- Invalid Date.
pub record Dates : Type 0 where
  pub created_at : Option (Option ℕ)
  pub to : Ota → Option Text
  pub crs : Ota → Option Text
  pub priority : Ota → Option Text

pub record RunDates : Type 0 where
  pub expedia_run_date : Option Text
  pub booking_run_date : Option Text
  pub agoda_run_date : Option Text

-- `property.<ota>_priority === 'HIGH'`
abbrev pub is_high : Option Text → Bool
is_high none = false
is_high (some p) = same_text p (codes "HIGH")

-- `!!to`
abbrev pub should_calc : Option Text → Option Text
should_calc none = none
should_calc (some to) = if is_nil to then none else some to

abbrev pub or_range_error : {S A : Type 0} → Option A → Exec S A
or_range_error o = or_raise o internal "Invalid time value"

unfoldable pub max_search_days : ℕ
max_search_days = 365

-- The capacities are of the configuration, `parse_other` is the engine's.
module _ (prisma : Prisma) (parse_other : Text → Option ℕ) (capacity : Ota → ℕ)
    (exclude_id : Option String) where
  abbrev pub slots_used : Ota → Text → List Property → ℕ
  slots_used ota candidate rows =
      prisma.count (λ p. has_run_date ota candidate p && not_excluded exclude_id p) rows

  unfoldable pub day_after : Text → Option Text
  day_after candidate = Text.◌>>=◌ (midnight parse_other candidate) (λ n. date_text (n + 1))

  -- The loop, with the rounds that are left
  unfoldable pub search_from : (rounds : ℕ) → Ota → Text → Exec (List Property) Text
  search_from zero ota candidate = pure candidate
  search_from (suc k) ota candidate = do
    used ← gets (slots_used ota candidate)
    if ltb used (capacity ota)
        then pure candidate
        else or_range_error (day_after candidate) >>= λ next. search_from k ota next

  abbrev search_with : (historical_to : Text) → Ota → Option ℕ → Exec (List Property) (Option Text)
  search_with historical_to ota none = pure none
  search_with historical_to ota (some crs_days) = do
    candidate ← or_range_error (calc_preliminary_run_date parse_other historical_to crs_days)
    found ← search_from max_search_days ota candidate
    pure (some found)

  unfoldable pub calc_run_date :
      (historical_to : Text) (crs : Option Text) → Ota → Exec (List Property) (Option Text)
  calc_run_date historical_to crs ota = search_with historical_to ota (parse_crs_days crs)

  -- `now` is the present day.
  module _ (now : ℕ) where
    abbrev pub created : Option (Option ℕ) → Option ℕ
    created none = some now
    created (some d) = d

    abbrev day_later : Option ℕ → Exec (List Property) (Option Text)
    day_later none = pure none
    day_later (some n) = or_range_error (date_text (n + 1)) >>= λ t. pure (some t)

    unfoldable pub high_run_date : Dates → Exec (List Property) (Option Text)
    high_run_date p = day_later (created p.created_at)

    abbrev run_date_to : Dates → Ota → Option Text → Exec (List Property) (Option Text)
    run_date_to p ota none = pure none
    run_date_to p ota (some to) =
        if is_high (p.priority ota) then high_run_date p else calc_run_date to (p.crs ota) ota

    -- The three parts of `calcRunDatesForProperty` differ in the columns alone.
    unfoldable pub run_date_of : Dates → Ota → Exec (List Property) (Option Text)
    run_date_of p ota = run_date_to p ota (should_calc (p.to ota))

    unfoldable pub calc_run_dates_for_property : Dates → Exec (List Property) RunDates
    calc_run_dates_for_property p = do
      e ← run_date_of p expedia
      b ← run_date_of p booking
      a ← run_date_of p agoda
      pure (record { expedia_run_date = e; booking_run_date = b; agoda_run_date = a })
