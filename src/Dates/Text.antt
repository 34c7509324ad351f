-- ===== src/Dates/Text.antt =====
-- Texts of dates: how the language writes a date, and the patterns that the code matches. A text is
-- the list of its code units.
use vnp_dbms_backend.Common.{
  ℕ, zero, suc, ◌+◌, ◌-◌, ◌*◌, ◌/◌, ◌%◌, Bool, true, false, ◌&&◌, ◌||◌, Option, none, some, List,
  [], ◌∷◌, ◌++◌, ltb, leb, eqb, if◌then◌else◌, take, length,
}
use vnp_dbms_backend.Common.Text.{is_digit, is_space, skip_spaces}
use vnp_dbms_backend.Dates.Civil.{Civil, civil_of, is_valid, year_zero}

abbrev pub Text : Type 0
Text = List ℕ

infixl 10 ◌>>=◌
abbrev pub ◌>>=◌ : {A B : Type 0} → Option A → (A → Option B) → Option B
none >>= f = none
some a >>= f = f a

abbrev pub digit : ℕ → ℕ
digit k = b'0' + k % 10

abbrev pub two_digits : ℕ → Text
two_digits n = digit (n / 10) ∷ digit n ∷ []

abbrev pub four_digits : ℕ → Text
four_digits n = digit (n / 1000) ∷ digit (n / 100) ∷ digit (n / 10) ∷ digit n ∷ []

abbrev pub six_digits : ℕ → Text
six_digits n = digit (n / 100000) ∷ digit (n / 10000) ∷ four_digits n

-- Years that do not fit four digits are written with a sign and six.
unfoldable pub year_text : ℕ → Text
year_text y =
    if ltb y year_zero
    then b'-' ∷ six_digits (year_zero - y)
    else if ltb y (year_zero + 10000)
    then four_digits (y - year_zero)
    else b'+' ∷ six_digits (y - year_zero)

abbrev pub civil_text : Civil → Text
civil_text c = year_text c.year ++ b'-' ∷ two_digits (c.month + 1) ++ b'-' ∷ two_digits c.day

-- `toISOString().slice(0, 10)`; `none` is the RangeError that it throws for an invalid date. A cut before the time is made in
-- any case, so the time is not written here.
unfoldable pub date_text : ℕ → Option Text
date_text n = if is_valid n then some (take 10 (civil_text (civil_of n))) else none

-- Exactly so many digits at the front of a text, after a number read so far; the number and what follows
unfoldable pub digits : (count so_far : ℕ) → Text → Option (ℕ × Text)
digits zero n s = some (n, s)
digits (suc k) n [] = none
digits (suc k) n (c ∷ cs) = if is_digit c then digits k (n * 10 + (c - b'0')) cs else none

abbrev pub skip : (ℕ → Bool) → Text → Option Text
skip p [] = none
skip p (c ∷ cs) = if p c then some cs else none

abbrev pub at_end : {A : Type 0} → A → Text → Option A
at_end a [] = some a
at_end a (c ∷ cs) = none

abbrev is_dash : ℕ → Bool
is_dash c = eqb c b'-'

-- The numbers of `/^\d{4}-\d{2}-\d{2}/`, and what follows
unfoldable pub iso_prefix : Text → Option ((ℕ × ℕ × ℕ) × Text)
iso_prefix s = do
  (y, s) ← digits 4 0 s
  s ← skip is_dash s
  (m, s) ← digits 2 0 s
  s ← skip is_dash s
  (d, s) ← digits 2 0 s
  some ((y, m, d), s)

-- `/^\d{4}-\d{2}-\d{2}$/`
unfoldable pub iso_parts : Text → Option (ℕ × ℕ × ℕ)
iso_parts s = iso_prefix s >>= λ (parts, after). at_end parts after

-- `\d{1,2}`
unfoldable pub one_or_two : Text → Option (ℕ × Text)
one_or_two s = elim (digits 2 0 s) [ none ↦ digits 1 0 s | some found ↦ some found ]

abbrev is_separator : ℕ → Bool
is_separator c = eqb c b'/' || eqb c b'-'

-- `/^(\d{1,2})[/-](\d{1,2})[/-](\d{4})$/`
unfoldable pub slash_parts : Text → Option (ℕ × ℕ × ℕ)
slash_parts s = do
  (first, s) ← one_or_two s
  s ← skip is_separator s
  (second, s) ← one_or_two s
  s ← skip is_separator s
  (y, s) ← digits 4 0 s
  at_end (first, second, y) s

abbrev is_comma : ℕ → Bool
is_comma c = eqb c b','

abbrev pub is_nil : Text → Bool
is_nil [] = true
is_nil (c ∷ cs) = false

abbrev is_letter : ℕ → Bool
is_letter c = (leb b'A' c && leb c b'Z') || (leb b'a' c && leb c b'z')

-- The letters at the front, and what follows
unfoldable pub letters : Text → Text × Text
letters [] = ([], [])
letters (c ∷ cs) =
    let (word, after) = letters cs in if is_letter c then (c ∷ word, after) else ([], c ∷ cs)

abbrev pub optional : (ℕ → Bool) → Text → Text
optional p [] = []
optional p (c ∷ cs) = if p c then cs else c ∷ cs

-- `\s+`
abbrev pub spaces : Text → Option Text
spaces s = skip is_space s >>= λ s. some (skip_spaces s)

abbrev three_to_nine : Text → Option Text
three_to_nine word = if leb 3 (length word) && leb (length word) 9 then some word else none

-- `\s*,?\s+`
unfoldable pub after_day : Text → Option Text
after_day s = elim (skip is_comma (skip_spaces s)) [ none ↦ spaces s | some after ↦ spaces after ]

-- `/^([A-Za-z]{3,9})\.?\s+(\d{1,2})\s*,?\s+(\d{4})$/`
unfoldable pub month_name_parts : Text → Option (Text × ℕ × ℕ)
month_name_parts s = do
  word ← three_to_nine (letters s).0
  s ← spaces (optional (eqb b'.') (letters s).1)
  (day, s) ← one_or_two s
  s ← after_day s
  (y, s) ← digits 4 0 s
  at_end (word, day, y) s

-- `String.prototype.trim`
unfoldable pub trim_end : Text → Text
trim_end [] = []
trim_end (c ∷ cs) = let more = trim_end cs in if is_space c && is_nil more then [] else c ∷ more

unfoldable pub trim : Text → Text
trim s = trim_end (skip_spaces s)

-- `toLowerCase`, on the letters that the pattern admits
abbrev pub lower : Text → Text
lower [] = []
lower (c ∷ cs) = (if leb b'A' c && leb c b'Z' then c + 32 else c) ∷ lower cs

-- `m.startsWith(name)`
abbrev pub starts_with : (m name : Text) → Bool
starts_with m [] = true
starts_with [] (c ∷ cs) = false
starts_with (x ∷ xs) (c ∷ cs) = eqb x c && starts_with xs cs
