-- ===== src/Common/Text.antt =====
-- `parseInt(text, 10)` of the language, over the code points of a text.
use Prim.Native.Nat.{ℕ, zero, suc, ◌+◌, ◌-◌, ◌*◌, ◌≤◌}
use Prim.Native.Char.{code}
use Prim.Native.String.{String}
use mathlib.Core.Path.{◌≡◌}
use mathlib.Core.Logic.{inl, inr}
use native.Mathlib.Omega.{arith}
use mathlib.Core.Bool.{Bool, ◌&&◌, ◌||◌}
use mathlib.Core.Option.{Option, none, some}
use mathlib.Core.List.{List, [], ◌∷◌}
use vnp_dbms_backend.Common.Cond.{Bool-cases, leb, eqb, if◌then◌else◌}

abbrev pub codes : String → List ℕ
codes String.[] = []
codes (String.◌∷◌ c s) = code c ∷ codes s

unfoldable pub is_space : ℕ → Bool
is_space c =
    (leb 9 c && leb c 13)
    || eqb c 32
    || eqb c 160
    || eqb c 0x1680
    || (leb 0x2000 c && leb c 0x200a)
    || eqb c 0x2028
    || eqb c 0x2029
    || eqb c 0x202f
    || eqb c 0x205f
    || eqb c 0x3000
    || eqb c 0xfeff

unfoldable pub is_digit : ℕ → Bool
is_digit c = leb b'0' c && leb c b'9'

unfoldable pub skip_spaces : List ℕ → List ℕ
skip_spaces [] = []
skip_spaces (c ∷ cs) = if is_space c then skip_spaces cs else c ∷ cs

-- The digits at the front of the text, after a number read so far; the rest is ignored.
digits_from : ℕ → List ℕ → ℕ
digits_from n [] = n
digits_from n (c ∷ cs) =
    let more = digits_from (n * 10 + (c - b'0')) cs in if is_digit c then more else n

-- `none` is NaN: there is no digit where the number should begin.
digits_of : List ℕ → Option ℕ
digits_of [] = none
digits_of (c ∷ cs) = if is_digit c then some (digits_from 0 (c ∷ cs)) else none

abbrev positive : Option ℕ → Option ℕ
positive none = none
positive (some zero) = none
positive (some (suc n)) = some (suc n)

after_sign : List ℕ → Option ℕ
after_sign [] = none
after_sign (c ∷ cs) =
    if eqb c b'-'
    then none
    else if eqb c b'+'
    then positive (digits_of cs)
    else positive (digits_of (c ∷ cs))

-- `parseInt(text, 10)` if that is a number above 0. Digits past the 53 bits that a JavaScript
-- number keeps are not rounded here.
unfoldable pub parse_units : List ℕ → Option ℕ
unfolding after_sign digits_of digits_from skip_spaces is_digit is_space
parse_units cs = after_sign (skip_spaces cs)

unfoldable pub parse_positive : String → Option ℕ
parse_positive s = parse_units (codes s)

positive-pos : (o : Option ℕ) {n : ℕ} → positive o ≡ some n → 1 ≤ n
positive-pos none e = cc
positive-pos (some zero) e = cc
positive-pos (some (suc k)) e = ground arith

after_sign-pos : (cs : List ℕ) {n : ℕ} → after_sign cs ≡ some n → 1 ≤ n
unfolding after_sign
after_sign-pos [] e = cc
after_sign-pos (c ∷ cs) e = elim (Bool-cases (eqb c b'-')) [
  | inl minus ↦ cc (rw minus at e)
  | inr other ↦ elim (Bool-cases (eqb c b'+')) [
    | inl plus ↦ positive-pos (digits_of cs) (rw (other, plus) at e)
    | inr digit ↦ positive-pos (digits_of (c ∷ cs)) (rw (other, digit) at e)
  ]
]

pub parse_positive-pos : (s : String) {n : ℕ} → parse_positive s ≡ some n → 1 ≤ n
unfolding parse_positive parse_units
parse_positive-pos s e = after_sign-pos (skip_spaces (codes s)) e
