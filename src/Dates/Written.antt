-- ===== src/Dates/Written.antt =====
-- A date that is written is read again.
use vnp_dbms_backend.Common.{
  ℕ, zero, suc, ◌+◌, ◌-◌, ◌/◌, ◌≤◌, ◌<◌, ◌≡◌, refl, ap, Bool, true, false, Option, some, List, [],
  ◌∷◌, ◌++◌, ltb, arith, All,
}
use vnp_dbms_backend.Common.Text.{is_digit}
use vnp_dbms_backend.Dates.Civil.{
  civil_of, is_valid, is_date, is_leap, month_lengths, nth_or_zero, year_zero, dated,
  days_before_year, epoch, reach,
}
use vnp_dbms_backend.Dates.Calendar.{
  IsDate, civil_of-IsDate, day_number-civil_of, year_of_low, year_of_high,
}
use vnp_dbms_backend.Dates.Text.{
  Text, digit, two_digits, four_digits, year_text, date_text, digits, iso_prefix, iso_parts,
}
use vnp_dbms_backend.Dates.ParserJob.{midnight}

pub is_digit-digit : (k : ℕ) → is_digit (digit k) ≡ true
unfolding is_digit
is_digit-digit k = ground arith

pub digits-two : (n : ℕ) (s : Text) → n < 100 → digits 2 0 (two_digits n ++ s) ≡ some (n, s)
unfolding digits
digits-two n s h =
    rw (is_digit-digit (n / 10), is_digit-digit n) (ap (λ m. some (m, s)) (omega arith))

pub digits-four : (n : ℕ) (s : Text) → n < 10000 → digits 4 0 (four_digits n ++ s) ≡ some (n, s)
unfolding digits
digits-four n s h =
    rw
      (
        is_digit-digit (n / 1000),
        is_digit-digit (n / 100),
        is_digit-digit (n / 10),
        is_digit-digit n,
      )
      (ap (λ m. some (m, s)) (omega arith))

-- The date with a year of four digits
abbrev pub four_digit_text : (year month1 day : ℕ) → Text
four_digit_text y m d = four_digits y ++ b'-' ∷ two_digits m ++ b'-' ∷ two_digits d

pub iso_prefix-text :
    (y m d : ℕ) (s : Text)
    → y < 10000
    → m < 100
    → d < 100
    → iso_prefix (four_digits y ++ b'-' ∷ two_digits m ++ b'-' ∷ two_digits d ++ s)
      ≡ some ((y, m, d), s)
unfolding iso_prefix
iso_prefix-text y m d s hy hm hd =
    rw (digits-four y _ hy, digits-two m _ hm, digits-two d s hd) refl

pub iso_parts-text :
    (y m d : ℕ) → y < 10000 → m < 100 → d < 100 → iso_parts (four_digit_text y m d) ≡ some (y, m, d)
unfolding iso_parts
iso_parts-text y m d hy hm hd = rw (iso_prefix-text y m d [] hy hm hd) refl

-- The year is one from 0 to 9999.
abbrev pub FourDigits : ℕ → Type 0
FourDigits n = (year_zero ≤ (civil_of n).year) × ((civil_of n).year < year_zero + 10000)

-- The text of a day, by its date
unfoldable pub day_text : ℕ → Text
day_text n =
    four_digit_text ((civil_of n).year - year_zero) ((civil_of n).month + 1) (civil_of n).day

nth_or_zero-All : (n : ℕ) (ls : List ℕ) (m : ℕ) → All (λ l. l ≤ n) ls → nth_or_zero ls m ≤ n
nth_or_zero-All n [] m a = omega arith
nth_or_zero-All n (l ∷ ls) zero a = a.0
nth_or_zero-All n (l ∷ ls) (suc m) a = nth_or_zero-All n ls m a.1

short_months : (leap : Bool) → All (λ l. l ≤ 31) (month_lengths leap)
unfolding month_lengths
short_months true = search arith
short_months false = search arith

nth_or_zero-31 : (leap : Bool) (m : ℕ) → nth_or_zero (month_lengths leap) m ≤ 31
nth_or_zero-31 leap m = nth_or_zero-All 31 (month_lengths leap) m (short_months leap)

pub day-31 : (y m d : ℕ) → IsDate y m d → d ≤ 31
day-31 y m d h = omega (arith, h.2, nth_or_zero-31 (is_leap y) m)

FourDigits-valid : (n : ℕ) → FourDigits n → is_valid n ≡ true
unfolding is_valid year_zero epoch reach civil_of dated days_before_year
FourDigits-valid n (low, high) =
    let from : epoch ≤ n + reach = omega (arith, low, year_of_low n) in
    let to : n ≤ epoch + reach = omega (arith, high, year_of_high n) in ground (arith, from, to)

pub date_text-day_text : (n : ℕ) → FourDigits n → date_text n ≡ some (day_text n)
unfolding date_text year_text day_text
date_text-day_text n h =
    let late : ltb (civil_of n).year year_zero ≡ false = ground (arith, h.0) in
    let early : ltb (civil_of n).year (year_zero + 10000) ≡ true = ground (arith, h.1) in
    rw (FourDigits-valid n h, late, early) refl

pub iso_parts-day_text :
    (n : ℕ)
    → FourDigits n
    → iso_parts (day_text n)
      ≡ some ((civil_of n).year - year_zero, (civil_of n).month + 1, (civil_of n).day)
unfolding day_text
iso_parts-day_text n h =
    let (m_lt, d_low, d_high) = civil_of-IsDate n in
    iso_parts-text _ _ _ (omega (arith, h)) (omega (arith, m_lt))
      (omega (arith, day-31 _ _ _ (m_lt, d_low, d_high)))

pub is_date-IsDate : (y m d : ℕ) → IsDate y m d → is_date y (m + 1) d ≡ true
unfolding is_date
is_date-IsDate y m d h =
    let month_is : m + 1 - 1 ≡ m = omega arith in rw month_is (ground (arith, h.0, h.1, h.2))

pub is_date-civil_of :
    (n : ℕ) → is_date (civil_of n).year ((civil_of n).month + 1) (civil_of n).day ≡ true
is_date-civil_of n = is_date-IsDate _ _ _ (civil_of-IsDate n)

-- The engine reads the text of a day as that day.
pub midnight-day_text :
    (parse_other : Text → Option ℕ) (n : ℕ)
    → FourDigits n
    → midnight parse_other (day_text n) ≡ some n
unfolding midnight
midnight-day_text parse_other n h =
    let year_is : year_zero + ((civil_of n).year - year_zero) ≡ (civil_of n).year =
      omega (arith, h.0) in
    let month_is : (civil_of n).month + 1 - 1 ≡ (civil_of n).month = omega arith in
    rw (iso_parts-day_text n h, year_is, is_date-civil_of n, month_is, day_number-civil_of n) refl
