-- ===== src/Dates/Normalize.antt =====
-- `normalizeParserJobDate` brings the forms of a date to one.
use vnp_dbms_backend.Common.{
  ℕ, ◌+◌, ◌-◌, ◌/◌, ◌≤◌, ◌<◌, ◌≡◌, refl, ap, ◌∙◌, Bool, true, false, Option, none, some, [], ◌∷◌,
  ◌++◌, ltb, leb, if◌then◌else◌, arith, All, ok,
}
use vnp_dbms_backend.Common.Text.{is_digit, is_space, skip_spaces}
use vnp_dbms_backend.Dates.Civil.{civil_of, year_zero, epoch, dated, days_before_year}
use vnp_dbms_backend.Dates.Calendar.{civil_of-IsDate, day_number-civil_of, year_of_high}
use vnp_dbms_backend.Dates.Text.{
  Text, ◌>>=◌, digit, two_digits, four_digits, date_text, digits, iso_prefix, iso_parts, one_or_two,
  slash_parts, trim_end, trim, is_nil,
}
use vnp_dbms_backend.Dates.ParserJob.{
  Value, from_number, normalize_text, normalize_parser_job_date, midnight,
}
use vnp_dbms_backend.Dates.Written.{
  FourDigits, day_text, is_digit-digit, digits-two, digits-four, date_text-day_text,
  iso_parts-day_text, is_date-civil_of, day-31, midnight-day_text,
}
use vnp_dbms_backend.Dates.Checked.{calendar_day, checked-eq}

abbrev Solid : Text → Type 0
Solid = All (λ c. is_space c ≡ false)

trim_end-Solid : (s : Text) → Solid s → trim_end s ≡ s
unfolding trim_end
trim_end-Solid [] a = refl
trim_end-Solid (c ∷ cs) a = rw (a.0, trim_end-Solid cs a.1) refl

trim-Solid : (s : Text) → Solid s → trim s ≡ s
unfolding trim skip_spaces
trim-Solid [] a = trim_end-Solid [] a
trim-Solid (c ∷ cs) a = rw a.0 (trim_end-Solid (c ∷ cs) a)

is_space-digit : (k : ℕ) → is_space (digit k) ≡ false
unfolding is_space
is_space-digit k = ground arith

-- MM/DD/YYYY or DD/MM/YYYY
abbrev pub slash_text : (first second year : ℕ) → Text
slash_text first second year =
    two_digits first ++ b'/' ∷ two_digits second ++ b'/' ∷ four_digits year

is_space-slash : is_space b'/' ≡ false
unfolding is_space
is_space-slash = refl

slash-Solid : (a b y : ℕ) → Solid (slash_text a b y)
slash-Solid a b y = search (is_space-digit, is_space-slash)

one_or_two-two : (n : ℕ) (s : Text) → n < 100 → one_or_two (two_digits n ++ s) ≡ some (n, s)
unfolding one_or_two
one_or_two-two n s h =
    ap (λ o. elim o [ none ↦ digits 1 0 (two_digits n ++ s) | some found ↦ some found ])
      (digits-two n s h)

slash_parts-text :
    (a b y : ℕ) → a < 100 → b < 100 → y < 10000 → slash_parts (slash_text a b y) ≡ some (a, b, y)
unfolding slash_parts
slash_parts-text a b y ha hb hy =
    rw (one_or_two-two a _ ha, one_or_two-two b _ hb, digits-four y [] hy) refl

iso_parts-slash : (a b y : ℕ) → iso_parts (slash_text a b y) ≡ none
unfolding iso_parts iso_prefix digits is_digit
iso_parts-slash a b y = rw (is_digit-digit (a / 10), is_digit-digit a) refl

-- A text of the form MM/DD/YYYY is the date of the calendar that it names, from the year 100 on; if
-- the first number exceeds 12, it is read as DD/MM/YYYY; and if there is no such date, the result is `undefined`.
pub normalize-slash :
    (parse_other : Text → Option ℕ) (first second year : ℕ)
    → first < 100
    → second < 100
    → year < 10000
    → normalize_parser_job_date parse_other (Value.text (slash_text first second year))
      ≡ ok (
          (if ltb 12 first then calendar_day year second first else calendar_day year first second)
          >>= date_text)
unfolding normalize_parser_job_date normalize_text
normalize-slash parse_other first second year ha hb hy =
    rw
      (
        trim-Solid (slash_text first second year) (slash-Solid first second year),
        iso_parts-slash first second year,
        slash_parts-text first second year ha hb hy,
        checked-eq year second first,
        checked-eq year first second,
      )
      refl

-- A day in each of the forms
module _ (parse_other : Text → Option ℕ) (n : ℕ) (h : FourDigits n) where
  abbrev y : ℕ
  y = (civil_of n).year - year_zero

  abbrev m : ℕ
  m = (civil_of n).month + 1

  abbrev d : ℕ
  d = (civil_of n).day

  calendar_day-civil_of : 100 ≤ y → calendar_day y m d ≡ some n
  unfolding calendar_day
  calendar_day-civil_of late =
      let year_is : year_zero + y ≡ (civil_of n).year = omega (arith, h.0) in
      let month_is : m - 1 ≡ (civil_of n).month = omega arith in
      let late_test : leb 100 y ≡ true = ground (arith, late) in
      rw (late_test, year_is, is_date-civil_of n, month_is, day_number-civil_of n) refl

  iso-Solid : Solid (day_text n)
  unfolding day_text is_space
  iso-Solid = search is_space-digit

  not_nil : is_nil (day_text n) ≡ false
  unfolding day_text
  not_nil = refl

  m-small : m < 100
  m-small = omega (arith, civil_of-IsDate n)

  d-small : d < 100
  d-small = omega (arith, day-31 _ _ _ (civil_of-IsDate n))

  y-small : y < 10000
  y-small = omega (arith, h)

  normalize-iso :
      normalize_parser_job_date parse_other (Value.text (day_text n)) ≡ ok (some (day_text n))
  unfolding normalize_parser_job_date normalize_text
  normalize-iso = rw (trim-Solid (day_text n) iso-Solid, iso_parts-day_text n h) (rw not_nil refl)

  normalize-date :
      normalize_parser_job_date parse_other (Value.date (some n)) ≡ ok (some (day_text n))
  unfolding normalize_parser_job_date
  normalize-date = rw (date_text-day_text n h) refl

  normalize-month_first :
      100 ≤ y
      → normalize_parser_job_date parse_other (Value.text (slash_text m d y))
        ≡ ok (some (day_text n))
  normalize-month_first late =
      let small : ltb 12 m ≡ false = ground (arith, (civil_of-IsDate n).0) in
      normalize-slash parse_other m d y m-small d-small y-small
      ∙ rw (small, calendar_day-civil_of late, date_text-day_text n h) refl

  normalize-day_first :
      100 ≤ y
      → 12 < d
      → normalize_parser_job_date parse_other (Value.text (slash_text d m y))
        ≡ ok (some (day_text n))
  normalize-day_first late big =
      let large : ltb 12 d ≡ true = ground (arith, big) in
      normalize-slash parse_other d m y d-small m-small y-small
      ∙ rw (large, calendar_day-civil_of late, date_text-day_text n h) refl

  normalize-excel :
      (fraction : Bool)
      → epoch - 25569 ≤ n
      → n < epoch - 25569 + 3000000
      → normalize_parser_job_date parse_other (Value.number false (n - (epoch - 25569)) fraction)
        ≡ ok (some (day_text n))
  unfolding normalize_parser_job_date from_number
  normalize-excel fraction low high =
      let serial_test : ltb (n - (epoch - 25569)) 3000000 ≡ true = ground (arith, high) in
      let day_is : epoch - 25569 + (n - (epoch - 25569)) ≡ n = omega (arith, low) in
      rw (serial_test, day_is, date_text-day_text n h) refl

  from_1899 : epoch - 25569 ≤ n → 100 ≤ y
  unfolding epoch civil_of dated year_zero days_before_year
  from_1899 low = omega (arith, low, year_of_high n)

  to_9999 : n < epoch - 25569 + 3000000
  unfolding epoch civil_of dated year_zero days_before_year
  to_9999 = omega (arith, h.1, year_of_high n)

-- Let the day be one from the 30th of December 1899 on, of a year to 9999; then the text YYYY-MM-DD, the
-- Date, the text MM/DD/YYYY and the serial number of a spreadsheet (with a time of the day or
-- without) of that day all become the text YYYY-MM-DD, from which the day is read again.
pub normalize-roundtrip :
    (parse_other : Text → Option ℕ) (n : ℕ) (fraction : Bool)
    → FourDigits n
    → epoch - 25569 ≤ n
    → (normalize_parser_job_date parse_other (Value.text (day_text n)) ≡ ok (some (day_text n)))
      × (normalize_parser_job_date parse_other (Value.date (some n)) ≡ ok (some (day_text n)))
      × (normalize_parser_job_date parse_other (
            Value.text (
              slash_text ((civil_of n).month + 1) (civil_of n).day ((civil_of n).year - year_zero)))
          ≡ ok (some (day_text n)))
      × (normalize_parser_job_date parse_other (Value.number false (n - (epoch - 25569)) fraction)
          ≡ ok (some (day_text n)))
      × (midnight parse_other (day_text n) ≡ some n)
normalize-roundtrip parse_other n fraction h low = (
  normalize-iso parse_other n h,
  normalize-date parse_other n h,
  normalize-month_first parse_other n h (from_1899 parse_other n h low),
  normalize-excel parse_other n h fraction low (to_9999 parse_other n h),
  midnight-day_text parse_other n h,
)
