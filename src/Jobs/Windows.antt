-- ===== src/Jobs/Windows.antt =====
-- The windows of parser jobs do not end before they start.
use vnp_dbms_backend.Common.{
  ℕ, ◌+◌, ◌-◌, ◌*◌, ◌≤◌, ◌≡◌, refl, ap, ◌∙◌, inl, inr, Bool, true, false, Option, none, some,
  if◌then◌else◌, arith, Bool-cases, Option-cases,
}
use vnp_dbms_backend.Dates.Text.{Text}
use vnp_dbms_backend.Dates.Order.{text_lt, text_lt-day_text}
use vnp_dbms_backend.Dates.RunDate.{should_calc}
use vnp_dbms_backend.Dates.Written.{FourDigits, day_text, date_text-day_text, midnight-day_text}
use vnp_dbms_backend.Dates.Ranges.{FourDigits-between, agoda_parser_job_range}
use vnp_dbms_backend.Dates.ParserJob.{
  calc_parser_job_start_date, calc_parser_job_end_date, parse_crs_days,
}
use vnp_dbms_backend.Jobs.Window.{
  Ota, Columns, Outcome, skipped, window, is_agoda, is_booking, fixed_start, usual_window,
  from_history, job_window, bad_crs, end_before_start, no_ota_id, no_historical_to,
}
use vnp_dbms_backend.Jobs.Service.{ends_early}

-- The window goes from a day to that day or a later one.
abbrev pub IsForward : Outcome → Type 0
IsForward (skipped r) = Unit
IsForward (window start end) =
    (m : ℕ) × (n : ℕ) × (start ≡ day_text m) × (end ≡ day_text n) × (m ≤ n)

-- A day from which the CRS days, if any, lead to days of years from 0 to 9999 again
abbrev pub Fits : Columns → ℕ → Type 0
Fits c n =
    FourDigits n
    × FourDigits (n + 1)
    × ((d : ℕ)
        → parse_crs_days c.crs ≡ some d
        → (d ≤ n) × FourDigits (n + 1 - d) × FourDigits (n + 1 + (2 * d + 365)))

abbrev pub text_of : Option ℕ → Option Text
text_of none = none
text_of (some n) = some (day_text n)

abbrev pub FitsOption : Columns → Option ℕ → Type 0
FitsOption c none = Unit
FitsOption c (some n) = Fits c n

should_calc-text_of : (o : Option ℕ) → should_calc (text_of o) ≡ text_of o
unfolding day_text
should_calc-text_of none = refl
should_calc-text_of (some n) = refl

module _ (parse_other : Text → Option ℕ) where
  end_day :
      (n k : ℕ) (extra : Bool)
      → FourDigits n
      → FourDigits (n + (k + (if extra then 365 else 0)))
      → calc_parser_job_end_date parse_other (day_text n) k extra
        ≡ some (day_text (n + (k + (if extra then 365 else 0))))
  unfolding calc_parser_job_end_date
  end_day n k extra h last = rw (midnight-day_text parse_other n h) (date_text-day_text _ last)

  start_day :
      (n : ℕ)
      → FourDigits n
      → FourDigits (n + 1)
      → calc_parser_job_start_date parse_other (day_text n) ≡ some (day_text (n + 1))
  unfolding calc_parser_job_start_date
  start_day n h next = rw (midnight-day_text parse_other n h) (date_text-day_text _ next)

  extra_le : (extra : Bool) → (if extra then 365 else 0) ≤ 365
  extra_le true = omega arith
  extra_le false = omega arith

  twice_le : (b : Bool) (d : ℕ) → (if b then d * 2 else d) ≤ 2 * d
  twice_le true d = omega arith
  twice_le false d = omega arith

  module _ (ota : Ota) (c : Columns) where
    -- The outcome is there (no exception), and it is good.
    abbrev Good : Option Outcome → Type 0
    Good o = (r : Outcome) × (o ≡ some r) × IsForward r

    Good-fixed :
        (n : ℕ)
        → Fits c n
        → (end : Option ℕ) → FitsOption c end
        → ends_early (some (day_text n)) (text_of end) ≡ false
        → Good (fixed_start parse_other ota c (day_text n) (text_of end))
    unfolding fixed_start
    Good-fixed n h (some m) hm order =
        let le : n ≤ m = ground (arith, order, text_lt-day_text m n hm.0 h.0) in
        (_, refl, (n, m, refl, refl, le))
    Good-fixed n h none hm order = elim (Option-cases (parse_crs_days c.crs)) [
      | inl missing ↦ (skipped (bad_crs c.crs), rw missing refl, tt)
      | inr (d, given) ↦
          let (le, first, last) = h.2 d given in
          let k : ℕ = if is_agoda ota then d * 2 else d in
          let near : n + (k + (if is_booking ota then 365 else 0)) ≤ n + 1 + (2 * d + 365) =
            omega (arith, twice_le (is_agoda ota) d, extra_le (is_booking ota)) in
          let there_is : FourDigits (n + (k + (if is_booking ota then 365 else 0))) =
            FourDigits-between n _ (n + 1 + (2 * d + 365)) h.0 last (omega arith) near in
          (
            window (day_text n) (day_text (n + (k + (if is_booking ota then 365 else 0)))),
            rw (given, end_day n k (is_booking ota) h.0 there_is) refl,
            (n, _, refl, refl, omega arith),
          )
    ]

    Good-usual :
        (n d : ℕ)
        → Fits c n
        → parse_crs_days c.crs ≡ some d
        → Good (usual_window parse_other ota c (day_text n) d)
    unfolding usual_window
    Good-usual n d h given =
        let (le, first, last) = h.2 d given in
        elim (Bool-cases (is_agoda ota)) [
          | inl yes_agoda ↦
              let (starts, ends) =
                agoda_parser_job_range parse_other n d le h.0 first
                  (FourDigits-between n _ _ h.0 last (omega arith) (omega arith)) in
              (
                window (day_text (n + 1 - d)) (day_text (n + 1 - d + 2 * d)),
                rw (yes_agoda, starts, ends) refl,
                (n + 1 - d, n + 1 - d + 2 * d, refl, refl, omega arith),
              )
          | inr other ↦
              let near : n + 1 + (d + (if is_booking ota then 365 else 0)) ≤ n + 1 + (2 * d + 365) =
                omega (arith, extra_le (is_booking ota)) in
              let there_is : FourDigits (n + 1 + (d + (if is_booking ota then 365 else 0))) =
                FourDigits-between n _ _ h.0 last (omega arith) near in
              (
                window (day_text (n + 1))
                    (day_text (n + 1 + (d + (if is_booking ota then 365 else 0)))),
                rw (other, start_day n h.0 h.1, end_day (n + 1) d (is_booking ota) h.1 there_is)
                    refl,
                (n + 1, n + 1 + (d + (if is_booking ota then 365 else 0)), refl, refl, omega arith),
              )
        ]

    Good-history :
        (to end : Option ℕ)
        → FitsOption c to
        → FitsOption c end
        → Good (from_history parse_other ota c (text_of to) (text_of end))
    unfolding from_history
    Good-history none end h he = (skipped no_historical_to, refl, tt)
    Good-history (some n) (some m) h he =
        elim (Bool-cases (text_lt (day_text m) (day_text (n + 1)))) [
          | inl early ↦ (
            skipped (end_before_start (day_text m) (day_text (n + 1))),
            rw (start_day n h.0 h.1, early) refl,
            tt,
          )
          | inr late ↦
              let le : n + 1 ≤ m = ground (arith, late, text_lt-day_text m (n + 1) he.0 h.1) in
              (
                window (day_text (n + 1)) (day_text m),
                rw (start_day n h.0 h.1, late) refl,
                (n + 1, m, refl, refl, le),
              )
        ]
    Good-history (some n) none h he = elim (Option-cases (parse_crs_days c.crs)) [
      | inl missing ↦ (skipped (bad_crs c.crs), rw missing refl, tt)
      | inr (d, given) ↦ let (r, e, forward) = Good-usual n d h given in (r, rw given e, forward)
    ]

    -- Let the dates of the request and the historical date of the property be missing or days whose CRS days
    -- lead to years from 0 to 9999, and let the request not end before it starts; then no
    -- exception is thrown, and the property is skipped or gets a job that does not end before it starts.
    pub job_window-IsForward :
        (start end to : Option ℕ)
        → FitsOption c start
        → FitsOption c end
        → FitsOption c to
        → c.to ≡ text_of to
        → ends_early (text_of start) (text_of end) ≡ false
        → (r : Outcome) × (job_window parse_other ota c (text_of start) (text_of end) ≡ some r)
          × IsForward r
    unfolding job_window
    job_window-IsForward none end to hs he ht to_is order = elim (Option-cases c.ota_id) [
      | inl missing ↦ (skipped no_ota_id, rw missing refl, tt)
      | inr (id, given) ↦
          let history : should_calc c.to ≡ text_of to =
            ap should_calc to_is ∙ should_calc-text_of to in
          simp (given, should_calc-text_of end, history) (Good-history to end ht he)
    ]
    job_window-IsForward (some n) end to hs he ht to_is order = elim (Option-cases c.ota_id) [
      | inl missing ↦ (skipped no_ota_id, rw missing refl, tt)
      | inr (id, given) ↦
          simp (given, should_calc-text_of (some n), should_calc-text_of end)
            (Good-fixed n hs end he order)
    ]
