-- ===== src/Jobs/Completed.antt =====
-- A completed job moves the historical date of its property, and finds its next run date.
use vnp_dbms_backend.Common.Text.{codes}
use vnp_dbms_backend.Common.{
  Bool, ◌&&◌, true, false, ℕ, ◌+◌, ◌≡◌, refl, ap, ◌∙◌, Option, none, some, List, map, if◌then◌else◌,
  ok,
}
use vnp_dbms_backend.Common.Prisma.{Prisma}
use vnp_dbms_backend.Dates.Text.{Text}
use vnp_dbms_backend.Dates.ParserJob.{parse_crs_days}
use vnp_dbms_backend.Dates.Written.{FourDigits, day_text}
use vnp_dbms_backend.Dates.RunDate.{Ota, calc_run_date}
use vnp_dbms_backend.Dates.Search.{FirstFree, calc_run_date-FirstFree}
use vnp_dbms_backend.Jobs.Complete.{
  same_ota, written, Row, Dto, has_id, slot, is_high, crs_raw, completed, search_run_date,
  update_historical_and_run_date,
}

-- The property after the job: the columns of the OTA are written, those of the other two are not.
pub record IsCompleted (dto : Dto) (p : Row) (run_date : Text) (q : Row) : Type 0 where
  pub to_is : (o : Ota) → q.to o ≡ (if same_ota o dto.ota_type then some dto.end_date else p.to o)
  pub run_date_is :
      (o : Ota) → q.run_date o ≡ (if same_ota o dto.ota_type then some run_date else p.run_date o)
  pub priority_is :
      (o : Ota)
      → q.priority o ≡ (
          if is_high dto p && same_ota o dto.ota_type then some (codes "REGULAR") else p.priority o)
  pub crs_is :
      (o : Ota)
      → q.crs o ≡ (if is_high dto p && same_ota o dto.ota_type then some (codes "30") else p.crs o)

completed-IsCompleted :
    (dto : Dto) (p : Row) (run_date : Text)
    → IsCompleted dto p run_date (completed dto (is_high dto p) (some run_date) p)
unfolding completed
completed-IsCompleted dto p run_date = record {
  to_is = λ o. refl;
  run_date_is = λ o. refl;
  priority_is = λ o. if_written (is_high dto p) o (codes "REGULAR") p.priority;
  crs_is = λ o. if_written (is_high dto p) o (codes "30") p.crs;
}
  where
    if_written :
        (high : Bool) (o : Ota) (t : Text) (column : Ota → Option Text)
        → (if high then written dto.ota_type t column else column) o
          ≡ (if high && same_ota o dto.ota_type then some t else column o)
    if_written true o t column = refl
    if_written false o t column = refl

module _ (prisma : Prisma) (parse_other : Text → Option ℕ) (capacity : Ota → ℕ) (dto : Dto)
    (rows : List Row) (p : Row) where
  -- What is written when a run date is found, or not looked for
  abbrev pub Completes : Option Text → Type 0
  Completes run_date = update_historical_and_run_date prisma parse_other capacity dto rows ≡ (
    ok (record { historical_to_updated = dto.end_date; run_date = run_date }),
    map (λ r. if has_id dto.parent_id r then completed dto (is_high dto p) run_date r else r) rows,
  )

  -- Let the property be found, its CRS days (30 for a property of high priority) be given, and the end
  -- of the job be a day from which the CRS days and a year lead to years of four digits; then the property gets the end
  -- of the job as its historical date, the run date is the first day with a free slot (the property itself not
  -- counted) after the 16 days and the CRS days, or the last one that is reached, and a high priority becomes
  -- REGULAR with 30 CRS days.
  pub update_historical_and_run_date-FirstFree :
      (n crs_days : ℕ)
      → prisma.find_first (has_id dto.parent_id) rows ≡ some p
      → parse_crs_days (crs_raw dto p) ≡ some crs_days
      → dto.end_date ≡ day_text n
      → FourDigits n
      → FourDigits (n + 1 + crs_days + 15 + 365)
      → (j : ℕ) × Completes (some (day_text (n + 1 + crs_days + 15 + j)))
        × IsCompleted dto p
            (day_text (n + 1 + crs_days + 15 + j))
            (completed dto (is_high dto p) (some (day_text (n + 1 + crs_days + 15 + j))) p)
        × FirstFree prisma parse_other capacity
            (some dto.parent_id)
            dto.ota_type
            (map slot rows)
            (n + 1 + crs_days + 15)
            365
            j
  unfolding update_historical_and_run_date search_run_date
  update_historical_and_run_date-FirstFree n crs_days found given end_is first last =
      let (j, e, f) =
        calc_run_date-FirstFree prisma parse_other capacity (some dto.parent_id) dto.ota_type
          (map slot rows) n crs_days (crs_raw dto p) given first last in
      let e' =
        ap
          (λ t.
            calc_run_date prisma parse_other capacity (some dto.parent_id) t (crs_raw dto p)
              dto.ota_type (map slot rows))
          end_is
        ∙ e in
      (
        j,
        rw
            (
              found,
              given,
              e',
              prisma.rows_update (has_id dto.parent_id)
                  (completed dto (is_high dto p) (some (day_text (n + 1 + crs_days + 15 + j))))
                  rows,
            )
            refl,
        completed-IsCompleted dto p _,
        f,
      )

  -- Without CRS days the run date is left as it is.
  pub update_historical_and_run_date-no_crs :
      prisma.find_first (has_id dto.parent_id) rows ≡ some p
      → parse_crs_days (crs_raw dto p) ≡ none
      → Completes none
  unfolding update_historical_and_run_date
  update_historical_and_run_date-no_crs found missing =
      rw
        (
          found,
          missing,
          prisma.rows_update (has_id dto.parent_id) (completed dto (is_high dto p) none) rows,
        )
        refl
