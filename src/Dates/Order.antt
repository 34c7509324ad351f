-- ===== src/Dates/Order.antt =====
-- The order of the texts of days is that of the days: `dto.end_date < startDate` in
-- src/modules/external-api/external-recurring-jobs.service.ts compares code units.
use vnp_dbms_backend.Common.{
  ℕ, zero, suc, ◌+◌, ◌-◌, ◌/◌, ◌%◌, ◌≤◌, ◌<◌, ◌≡◌, refl, sym, ap, subst, ap₂, ◌∙◌, inl, inr, Bool,
  true, false, List, [], ◌∷◌, ◌++◌, ltb, eqb, if◌then◌else◌, arith, Bool-cases, length,
}
use vnp_dbms_backend.Dates.Civil.{
  civil_of, dated, day_number, is_leap, month_lengths, nth_or_zero, year_zero, days_before,
}
use vnp_dbms_backend.Dates.Calendar.{
  IsDate, civil_of-IsDate, day_number-civil_of, length-month_lengths,
}
use vnp_dbms_backend.Dates.Text.{Text, digit, two_digits, four_digits}
use vnp_dbms_backend.Dates.Written.{FourDigits, day_text, four_digit_text, day-31}
use vnp_dbms_backend.Dates.Ranges.{year_of_mono}

-- `a < b` if the first parts decide, and else by the rest
abbrev pub lex : ℕ → ℕ → Bool → Bool
lex a b rest = if ltb a b then true else if eqb a b then rest else false

-- `s < t` of texts
unfoldable pub text_lt : Text → Text → Bool
text_lt s [] = false
text_lt [] (d ∷ ds) = true
text_lt (c ∷ cs) (d ∷ ds) = lex c d (text_lt cs ds)

lex-digit : (a b : ℕ) (r : Bool) → lex (digit a) (digit b) r ≡ lex (a % 10) (b % 10) r
lex-digit a b r = ground arith

lex-split : (a b : ℕ) (r : Bool) → lex (a / 10) (b / 10) (lex (a % 10) (b % 10) r) ≡ lex a b r
lex-split a b r = ground arith

text_lt-digit :
    (a b : ℕ) (s t : Text)
    → text_lt (digit a ∷ s) (digit b ∷ t) ≡ lex (a % 10) (b % 10) (text_lt s t)
unfolding text_lt
text_lt-digit a b s t = lex-digit a b (text_lt s t)

text_lt-two :
    (a b : ℕ) (s t : Text)
    → a < 100
    → b < 100
    → text_lt (two_digits a ++ s) (two_digits b ++ t) ≡ lex a b (text_lt s t)
text_lt-two a b s t ha hb =
    let a_is : a / 10 % 10 ≡ a / 10 = omega arith in
    let b_is : b / 10 % 10 ≡ b / 10 = omega arith in
    text_lt-digit (a / 10) (b / 10) (digit a ∷ s) (digit b ∷ t)
    ∙ rw (text_lt-digit a b s t, a_is, b_is) (lex-split a b (text_lt s t))

lex-four :
    (a b : ℕ) (r : Bool)
    → a < 10000
    → b < 10000
    → lex (a / 1000 % 10) (b / 1000 % 10) (
        lex
          (a / 100 % 10)
          (b / 100 % 10)
          (lex (a / 10 % 10) (b / 10 % 10) (lex (a % 10) (b % 10) r)))
      ≡ lex a b r
lex-four a b r ha hb =
    let thousands_a : a / 1000 % 10 ≡ a / 100 / 10 = omega arith in
    let thousands_b : b / 1000 % 10 ≡ b / 100 / 10 = omega arith in
    let hundreds_a : a / 100 ≡ a / 10 / 10 = omega arith in
    let hundreds_b : b / 100 ≡ b / 10 / 10 = omega arith in
    rw (thousands_a, thousands_b)
      (lex-split (a / 100) (b / 100) _
        ∙ ap₂ (λ x y. lex x y (lex (a / 10 % 10) (b / 10 % 10) (lex (a % 10) (b % 10) r)))
            hundreds_a hundreds_b
        ∙ lex-split (a / 10) (b / 10) _
        ∙ lex-split a b r)

text_lt-four :
    (a b : ℕ) (s t : Text)
    → a < 10000
    → b < 10000
    → text_lt (four_digits a ++ s) (four_digits b ++ t) ≡ lex a b (text_lt s t)
text_lt-four a b s t ha hb =
    text_lt-digit (a / 1000) (b / 1000) _ _
    ∙ rw
        (text_lt-digit (a / 100) (b / 100) (digit (a / 10) ∷ digit a ∷ s)
          (digit (b / 10) ∷ digit b ∷ t))
        (rw (text_lt-digit (a / 10) (b / 10) (digit a ∷ s) (digit b ∷ t))
          (rw (text_lt-digit a b s t) (lex-four a b (text_lt s t) ha hb)))

text_lt-cons : (c : ℕ) (s t : Text) → text_lt (c ∷ s) (c ∷ t) ≡ text_lt s t
unfolding text_lt
text_lt-cons c s t = ground arith

-- The order of dates by year, month and day
abbrev civil_lt : (y y' m m' d d' : ℕ) → Bool
civil_lt y y' m m' d d' = lex y y' (lex m m' (lex d d' false))

text_lt-date :
    (y y' m m' d d' : ℕ)
    → y < 10000
    → y' < 10000
    → m < 100
    → m' < 100
    → d < 100
    → d' < 100
    → text_lt (four_digit_text y m d) (four_digit_text y' m' d') ≡ civil_lt y y' m m' d d'
unfolding text_lt
text_lt-date y y' m m' d d' hy hy' hm hm' hd hd' =
    rw
      (
        text_lt-four y y' (b'-' ∷ two_digits m ++ b'-' ∷ two_digits d)
            (b'-' ∷ two_digits m' ++ b'-' ∷ two_digits d') hy hy',
        text_lt-cons b'-' (two_digits m ++ b'-' ∷ two_digits d)
            (two_digits m' ++ b'-' ∷ two_digits d'),
        text_lt-two m m' (b'-' ∷ two_digits d) (b'-' ∷ two_digits d') hm hm',
        text_lt-cons b'-' (two_digits d) (two_digits d'),
        text_lt-two d d' [] [] hd hd',
      )
      refl

days_before_mono :
    (ls : List ℕ) (m m' : ℕ)
    → m < m'
    → m' < length ls
    → days_before ls m + nth_or_zero ls m ≤ days_before ls m'
unfolding days_before
days_before_mono [] m m' l h = absurd (omega arith)
days_before_mono (x ∷ ls) zero (suc m') l h = omega arith
days_before_mono (x ∷ ls) zero zero l h = absurd (omega arith)
days_before_mono (x ∷ ls) (suc m) zero l h = absurd (omega arith)
days_before_mono (x ∷ ls) (suc m) (suc m') l h =
    omega (arith, days_before_mono ls m m' (omega arith) (omega arith))

-- Dates of one year
day_number-lt :
    (y m m' d d' : ℕ)
    → IsDate y m d
    → IsDate y m' d'
    → lex m m' (lex d d' false) ≡ ltb (day_number y m d) (day_number y m' d')
unfolding day_number
day_number-lt y m m' d d' h h' = elim (Bool-cases (ltb m m')) [
  | inl below ↦
      let far =
        days_before_mono (month_lengths (is_leap y)) m m' (ground arith)
          (omega (arith, h', length-month_lengths (is_leap y))) in
      rw below (ground (arith, far, h.1, h.2, h'.1))
  | inr not_below ↦ elim (Bool-cases (ltb m' m)) [
    | inl above ↦
        let far =
          days_before_mono (month_lengths (is_leap y)) m' m (ground arith)
            (omega (arith, h, length-month_lengths (is_leap y))) in
        ground (arith, far, above, h.1, h'.1, h'.2)
    | inr not_above ↦ let m_is : m ≡ m' = ground arith in rw m_is (ground (arith, h.1, h'.1))
  ]
]

-- The year decides first.
year_lt : (m n : ℕ) → (civil_of m).year < (civil_of n).year → m < n
unfolding civil_of dated
year_lt m n l = elim (Bool-cases (ltb m n)) [
  | inl below ↦ ground arith
  | inr not_below ↦ absurd (omega (arith, l, year_of_mono n m (ground arith)))
]

lex_same : (a : ℕ) (r : Bool) → lex a a r ≡ r
lex_same a r = ground arith

civil_lt_shift :
    (z y y' m m' d d' : ℕ)
    → z ≤ y
    → z ≤ y'
    → civil_lt (y - z) (y' - z) (m + 1) (m' + 1) d d' ≡ civil_lt y y' m m' d d'
civil_lt_shift z y y' m m' d d' h h' = ground arith

civil_lt-day :
    (m n : ℕ)
    → civil_lt
        (civil_of m).year
        (civil_of n).year
        (civil_of m).month
        (civil_of n).month
        (civil_of m).day
        (civil_of n).day
      ≡ ltb m n
civil_lt-day m n = elim (Bool-cases (ltb (civil_of m).year (civil_of n).year)) [
  | inl below ↦ let l : m < n = year_lt m n (ground arith) in rw below (ground arith)
  | inr not_below ↦ elim (Bool-cases (ltb (civil_of n).year (civil_of m).year)) [
    | inl above ↦ let l : n < m = year_lt n m (ground arith) in ground (arith, above)
    | inr not_above ↦
        let same : (civil_of n).year ≡ (civil_of m).year = ground arith in
        rw same (
          lex_same (civil_of m).year _
          ∙ day_number-lt (civil_of m).year (civil_of m).month (civil_of n).month (civil_of m).day
              (civil_of n).day (civil_of-IsDate m)
              (subst (λ y. IsDate y (civil_of n).month (civil_of n).day) same (civil_of-IsDate n))
          ∙ ap₂ ltb (day_number-civil_of m) (
              ap (λ y. day_number y (civil_of n).month (civil_of n).day) (sym same)
              ∙ day_number-civil_of n))
  ]
]

-- Two days of years from 0 to 9999: the text of the first is before that of the second exactly when the day is.
pub text_lt-day_text :
    (m n : ℕ) → FourDigits m → FourDigits n → text_lt (day_text m) (day_text n) ≡ ltb m n
unfolding day_text
text_lt-day_text m n hm hn =
    let (mm, ml, mh) = civil_of-IsDate m in
    let (nm, nl, nh) = civil_of-IsDate n in
    text_lt-date _ _ _ _ _ _ (omega (arith, hm)) (omega (arith, hn)) (omega (arith, mm))
      (omega (arith, nm)) (omega (arith, day-31 _ _ _ (mm, ml, mh)))
      (omega (arith, day-31 _ _ _ (nm, nl, nh)))
    ∙ civil_lt_shift year_zero (civil_of m).year (civil_of n).year (civil_of m).month
        (civil_of n).month (civil_of m).day (civil_of n).day hm.0 hn.0
    ∙ civil_lt-day m n
