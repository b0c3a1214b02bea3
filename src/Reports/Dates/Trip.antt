-- ===== src/Reports/Dates/Trip.antt =====
-- apps/reports/services.py: ISO prints, and what `parse_date` reads of them.
use Prim.Native.Char.{Char, code}
use mbarara_auction.Prelude.{
  ℕ, ◌+◌, ◌/◌, ◌%◌, ◌<◌, ◌≡◌, refl, String, Bool, true, false, some, List, [], ◌∷◌, arith, ◌==◌,
  if◌then◌else◌, strip, is_space,
}
use mbarara_auction.Reports.Dates.{code_points, number, after_year, fromisoformat, parse_date}
use mbarara_auction.Reports.Dates.Calendar.{Date, IsDate, checked, days_in_month}

-- the digit `n % 10`
unfoldable pub digit_char : ℕ → Char
digit_char n =
    let d = n % 10 in
    if d == 0
    then "0"
    else if d == 1
    then "1"
    else if d == 2
    then "2"
    else if d == 3
    then "3"
    else if d == 4
    then "4"
    else if d == 5
    then "5"
    else if d == 6
    then "6"
    else if d == 7
    then "7"
    else if d == 8
    then "8"
    else "9"

abbrev then_dash : String → String
then_dash s = String.◌∷◌ "-" s

abbrev two_digits : ℕ → String → String
two_digits n s = String.◌∷◌ (digit_char (n / 10)) (String.◌∷◌ (digit_char n) s)

-- `date.isoformat`
unfoldable pub isoformat : Date → String
unfolding digit_char
isoformat t =
    two_digits (t.year / 100)
      (two_digits t.year (then_dash (two_digits t.month (then_dash (two_digits t.day String.[])))))

code-if : (b : Bool) (c d : Char) → code (if b then c else d) ≡ (if b then code c else code d)
code-if true c d = refl
code-if false c d = refl

code-digit_char : (n : ℕ) → code (digit_char n) ≡ 48 + n % 10
unfolding digit_char
code-digit_char n = simp code-if (ground arith)

-- A digit is no space, so nothing is stripped where digits stand at both ends.
is_space-digit_char : (n : ℕ) → is_space (code (digit_char n)) ≡ false
unfolding is_space
is_space-digit_char n = rw (code-digit_char n) (ground arith)

strip-isoformat : (t : Date) → strip (isoformat t) ≡ isoformat t
unfolding strip isoformat
strip-isoformat t = simp (is_space-digit_char)

number-two : (n : ℕ) → n < 100 → number 0 ((48 + n / 10 % 10) ∷ (48 + n % 10) ∷ []) ≡ some n
unfolding number
number-two n h = ground arith

number-four :
    (n : ℕ)
    → n < 10000
    → number 0
        ((48 + n / 100 / 10 % 10) ∷ (48 + n / 100 % 10) ∷ (48 + n / 10 % 10) ∷ (48 + n % 10) ∷ [])
      ≡ some n
unfolding number
number-four n h = ground arith

checked-IsDate : (t : Date) → IsDate t → checked t ≡ some t
unfolding checked
checked-IsDate t v = ground arith

abbrev two : ℕ → List ℕ → List ℕ
two n cs = (48 + n / 10 % 10) ∷ (48 + n % 10) ∷ cs

abbrev after : Date → List ℕ
after t = 45 ∷ two t.month (45 ∷ two t.day [])

code_points-isoformat :
    (t : Date) → code_points (isoformat t) ≡ two (t.year / 100) (two t.year (after t))
unfolding isoformat
code_points-isoformat t = simp code-digit_char

days_in_month-lt : (y m : ℕ) → days_in_month y m < 100
unfolding days_in_month
days_in_month-lt y m = ground arith

-- A digit is not the sign of a week.
digit_sign : (n : ℕ) → ((48 + n / 10 % 10) == 87) ≡ false
digit_sign n = ground arith

after_year_lem : (t : Date) → IsDate t → after_year (after t) t.year ≡ some t
unfolding after_year
after_year_lem t v =
    rw
      (
        digit_sign t.month,
        number-two t.month (omega arith),
        number-two t.day (omega (arith, days_in_month-lt t.year t.month)),
      )
      (checked-IsDate t v)

fromisoformat_lem :
    (t : Date) → IsDate t → fromisoformat (two (t.year / 100) (two t.year (after t))) ≡ some t
unfolding fromisoformat
fromisoformat_lem t v = rw (number-four t.year (omega arith)) (after_year_lem t v)

-- A date that exists is read back from its ISO print by parse_date.
pub parse_date-isoformat : (t : Date) → IsDate t → parse_date (isoformat t) ≡ some t
unfolding parse_date
parse_date-isoformat t v = rw (strip-isoformat t, code_points-isoformat t) (fromisoformat_lem t v)
