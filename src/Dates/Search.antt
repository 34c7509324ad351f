-- ===== src/Dates/Search.antt =====
-- The search for a run date ends on the first day with a free slot, or after a year of full days.
use vnp_dbms_backend.Common.{
  ℕ, zero, suc, ◌+◌, ◌≤◌, ◌<◌, ◌≡◌, refl, ap, subst, ◌∙◌, inl, inr, true, Option, some, List, ltb,
  arith, Bool-cases, String, ok, Result,
}
use vnp_dbms_backend.Common.Prisma.{Prisma}
use vnp_dbms_backend.Dates.Text.{Text}
use vnp_dbms_backend.Dates.ParserJob.{parse_crs_days}
use vnp_dbms_backend.Dates.Written.{FourDigits, day_text, date_text-day_text, midnight-day_text}
use vnp_dbms_backend.Dates.Ranges.{FourDigits-between, preliminary_run_date-day}
use vnp_dbms_backend.Dates.RunDate
use vnp_dbms_backend.Dates.RunDate.{
  Ota, Property, has_run_date, not_excluded, slots_used, day_after, search_from, calc_run_date,
  max_search_days, Dates, high_run_date, run_date_of, is_high, should_calc,
}

module _ (prisma : Prisma) (parse_other : Text → Option ℕ) (capacity : Ota → ℕ)
    (exclude_id : Option String) (ota : Ota) (rows : List Property) where
  -- The properties that have the day as their run date already
  abbrev pub used : ℕ → ℕ
  used n = slots_used prisma parse_other capacity exclude_id ota (day_text n) rows

  -- `j` days after `n`, of `k` days that are looked at, comes the first one with a free slot, or the search ends.
  pub record FirstFree (n k j : ℕ) : Type 0 where
    pub within : j ≤ k
    pub full_before : (i : ℕ) → i < j → capacity ota ≤ used (n + i)
    pub free : j < k → used (n + j) < capacity ota

  FirstFree-next :
      (n k j : ℕ) → capacity ota ≤ used n → FirstFree (n + 1) k j → FirstFree n (suc k) (suc j)
  FirstFree-next n k j full f = record {
    within = omega (arith, f.within);
    full_before = before;
    free = λ l. subst (λ m. used m < capacity ota) (omega arith) (f.free (omega (arith, l)));
  }
    where
      before : (i : ℕ) → i < suc j → capacity ota ≤ used (n + i)
      before zero l = subst (λ m. capacity ota ≤ used m) (omega arith) full
      before (suc i) l =
          subst (λ m. capacity ota ≤ used m) (omega arith) (f.full_before i (omega (arith, l)))

  day_after-day_text :
      (n : ℕ)
      → FourDigits n
      → FourDigits (n + 1)
      → day_after prisma parse_other capacity exclude_id (day_text n) ≡ some (day_text (n + 1))
  unfolding day_after
  day_after-day_text n h next =
      rw (midnight-day_text parse_other n h) (date_text-day_text (n + 1) next)

  at_once :
      (n : ℕ)
      → ◌≡◌ {A = Result Text × List Property} (ok (day_text n), rows) (ok (day_text (n + 0)), rows)
  at_once n = ap (λ m. (ok (day_text m), rows)) (omega arith)

  search_from-lem :
      (k n : ℕ)
      → FourDigits n
      → FourDigits (n + k)
      → (j : ℕ) × (search_from prisma parse_other capacity exclude_id k ota (day_text n) rows
          ≡ (ok (day_text (n + j)), rows))
        × FirstFree n k j
  unfolding search_from
  search_from-lem zero n first last = (
    0,
    at_once n,
    record {
      within = omega arith;
      full_before = λ i l. absurd (omega (arith, l));
      free = λ l. absurd (omega (arith, l));
    },
  )
  search_from-lem (suc k) n first last = elim (Bool-cases (ltb (used n) (capacity ota))) [
    | inl hit ↦ (
      0,
      rw hit (at_once n),
      record {
        within = omega arith;
        full_before = λ i l. absurd (omega (arith, l));
        free = λ l. let same : n + 0 ≡ n = omega arith in rw same (ground (arith, hit));
      },
    )
    | inr miss ↦
        let next : FourDigits (n + 1) =
          FourDigits-between n (n + 1) _ first last (omega arith) (omega arith) in
        let (j, e, f) = search_from-lem k (n + 1) next (subst FourDigits (omega arith) last) in
        (
          suc j,
          rw (miss, day_after-day_text n first next)
              (e ∙ ap (λ m. (ok (day_text m), rows)) (omega arith)),
          FirstFree-next n k j (ground (arith, miss)) f,
        )
  ]

  -- Let the CRS days be given, and let the historical date, and the day a year after the first
  -- candidate, be days of years from 0 to 9999; then a run date is found: the historical date is followed by the
  -- CRS days and 16 days more, and by `j` days that have no free slot. The run date has a free
  -- slot, unless `j` is 365: then the search gives up, and takes a day that it has not looked at.
  pub calc_run_date-FirstFree :
      (historical_to crs_days : ℕ) (crs : Option Text)
      → parse_crs_days crs ≡ some crs_days
      → FourDigits historical_to
      → FourDigits (historical_to + 1 + crs_days + 15 + 365)
      → (j : ℕ) × (calc_run_date prisma parse_other capacity exclude_id
            (day_text historical_to)
            crs
            ota
            rows
          ≡ (ok (some (day_text (historical_to + 1 + crs_days + 15 + j))), rows))
        × FirstFree (historical_to + 1 + crs_days + 15) 365 j
  unfolding calc_run_date max_search_days
  calc_run_date-FirstFree historical_to crs_days crs given first last =
      let start : FourDigits (historical_to + 1 + crs_days + 15) =
        FourDigits-between historical_to _ _ first last (omega arith) (omega arith) in
      let (j, e, f) = search_from-lem 365 (historical_to + 1 + crs_days + 15) start last in
      (
        j,
        rw (given, preliminary_run_date-day parse_other historical_to crs_days first start, e) refl,
        f,
      )

  -- A property of high priority with a historical date gets the day after its creation as its run
  -- date, whatever the CRS days and the free slots; `created_at` may be missing, then the present day counts.
  pub run_date_of-high :
      (now created : ℕ) (p : Dates) (to : Text)
      → should_calc (p.to ota) ≡ some to
      → is_high (p.priority ota) ≡ true
      → RunDate.created prisma parse_other capacity exclude_id now p.created_at ≡ some created
      → FourDigits (created + 1)
      → run_date_of prisma parse_other capacity exclude_id now p ota rows
        ≡ (ok (some (day_text (created + 1))), rows)
  unfolding run_date_of high_run_date
  run_date_of-high now created p to given high made next =
      rw (given, high, made, date_text-day_text (created + 1) next) refl
