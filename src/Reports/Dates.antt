-- ===== src/Reports/Dates.antt =====
-- apps/reports/services.py: `parse_date`, over the dates of Python's `datetime.date`.
pub mod Calendar
pub mod Trip
pub mod Sound
pub mod Order
use Prim.Native.Char.{code}
use mbarara_auction.Prelude.{
  ℕ, ◌+◌, ◌-◌, ◌*◌, ◌/◌, ◌%◌, String, Bool, not, ◌&&◌, Option, none, some, List, [], ◌∷◌, leb, ltb,
  ◌==◌, if◌then◌else◌, strip,
}
use Calendar.{Date, ymd, checked, of_week}

abbrev pub code_points : String → List ℕ
code_points String.[] = []
code_points (String.◌∷◌ letter text) = code letter ∷ code_points text

-- The value of ASCII digits, or none.
unfoldable pub number : ℕ → List ℕ → Option ℕ
number n [] = some n
number n (c ∷ cs) =
    let rest = number (n * 10 + (c - 48)) cs in if leb 48 c && leb c 57 then rest else none

abbrev pub is_dash : ℕ → Bool
is_dash c = c == 45

abbrev pub is_week_sign : ℕ → Bool
is_week_sign c = c == 87

abbrev pub month_day : Option ℕ → Option ℕ → ℕ → Option Date
month_day (some m) (some d) y = checked (ymd y m d)
month_day (some m) none y = none
month_day none d y = none

abbrev pub week_day : Option ℕ → Option ℕ → ℕ → Option Date
week_day (some w) (some d) y = of_week y w d
week_day (some w) none y = none
week_day none d y = none

-- What stands after the four digits of the year: `MMDD` or `-MM-DD`, or a week, `Www` or `WwwD`,
-- `-Www` or `-Www-D`.
unfoldable pub after_year : List ℕ → ℕ → Option Date
after_year (a ∷ b ∷ c ∷ []) y =
    if is_week_sign a then week_day (number 0 (b ∷ c ∷ [])) (some 1) y else none
after_year (a ∷ b ∷ c ∷ d ∷ []) y =
    if is_dash a
    then (if is_week_sign b then week_day (number 0 (c ∷ d ∷ [])) (some 1) y else none)
    else if is_week_sign a
    then week_day (number 0 (b ∷ c ∷ [])) (number 0 (d ∷ [])) y
    else month_day (number 0 (a ∷ b ∷ [])) (number 0 (c ∷ d ∷ [])) y
after_year (a ∷ b ∷ c ∷ d ∷ e ∷ f ∷ []) y =
    if not (is_dash a)
    then none
    else if is_week_sign b && is_dash e
    then week_day (number 0 (c ∷ d ∷ [])) (number 0 (f ∷ [])) y
    else if is_dash d
    then month_day (number 0 (b ∷ c ∷ [])) (number 0 (e ∷ f ∷ [])) y
    else none
after_year _ y = none

abbrev pub with_year : Option ℕ → List ℕ → Option Date
with_year none cs = none
with_year (some y) cs = after_year cs y

-- `date.fromisoformat`, with none for the ValueError
unfoldable pub fromisoformat : List ℕ → Option Date
fromisoformat (a ∷ b ∷ c ∷ d ∷ cs) = with_year (number 0 (a ∷ b ∷ c ∷ d ∷ [])) cs
fromisoformat _ = none

-- An absent value is the empty text.
unfoldable pub parse_date : String → Option Date
unfolding fromisoformat
parse_date value = fromisoformat (code_points (strip value))
