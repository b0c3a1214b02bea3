-- ===== src/Reports/Dates/Calendar.antt =====
-- The proleptic Gregorian calendar of Python's `datetime`, as far as apps/reports/services.py uses it.
use mbarara_auction.Prelude.{
  ℕ, zero, suc, ◌+◌, ◌-◌, ◌*◌, ◌/◌, ◌%◌, ◌≤◌, Bool, not, ◌&&◌, ◌||◌, Option, none, some, List, [],
  ◌∷◌, leb, ltb, ◌==◌, if◌then◌else◌,
}

-- `datetime.date`
pub record Date : Type 0 where
  pub day : ℕ
  pub month : ℕ
  pub year : ℕ

abbrev pub ymd : (year month day : ℕ) → Date
ymd year month day = record { day = day; month = month; year = year }

-- every fourth year, but of the centuries only every fourth
unfoldable pub is_leap : ℕ → Bool
is_leap year = year % 4 == 0 && (not (year % 100 == 0) || year % 400 == 0)

abbrev usual_days : ℕ → ℕ
usual_days month =
    if month == 2
    then 28
    else if month == 11 || month == 9 || month == 6 || month == 4
    then 30
    else 31

unfoldable pub days_in_month : ℕ → ℕ → ℕ
days_in_month year month = if month == 2 && is_leap year then 29 else usual_days month

-- what the constructor of `date` accepts
pub record IsDate (t : Date) : Type 0 where
  pub year_pos : 1 ≤ t.year
  pub year_max : t.year ≤ 9999
  pub month_pos : 1 ≤ t.month
  pub month_max : t.month ≤ 12
  pub day_pos : 1 ≤ t.day
  pub day_max : t.day ≤ days_in_month t.year t.month

unfoldable pub checked : Date → Option Date
checked t =
    if leb 1 t.year
      && leb t.year 9999
      && leb 1 t.month
      && leb t.month 12
      && leb 1 t.day
      && leb t.day (days_in_month t.year t.month)
    then some t
    else none

unfoldable pub days_before_year : ℕ → ℕ
days_before_year year =
    let before = year - 1 in before * 365 + before / 4 - before / 100 + before / 400

-- the days of the year before a month
unfoldable pub days_before_month : ℕ → ℕ → ℕ
days_before_month y zero = 0
days_before_month y (suc m) = days_before_month y m + (if m == 0 then 0 else days_in_month y m)

-- `toordinal`: the first day of year 1 is day 1.
unfoldable pub to_ordinal : Date → ℕ
to_ordinal t = days_before_year t.year + days_before_month t.year t.month + t.day

-- 9999-12-31
abbrev pub max_ordinal : ℕ
max_ordinal = 3652059

-- the weekday of 1 January, Monday being 0
abbrev pub first_weekday : ℕ → ℕ
first_weekday y = (days_before_year y + 7) % 7

-- the day `n` of a year, from 0, in the month `m` or a later one
unfoldable pub find_day : ℕ → List ℕ → ℕ → Option Date
find_day y [] n = none
find_day y (m ∷ ms) n =
    let rest = find_day y ms (n - days_in_month y m) in
    if ltb n (days_in_month y m) then some (ymd y m (n + 1)) else rest

abbrev pub months : List ℕ
months = 1 ∷ 2 ∷ 3 ∷ 4 ∷ 5 ∷ 6 ∷ 7 ∷ 8 ∷ 9 ∷ 10 ∷ 11 ∷ 12 ∷ []

abbrev pub days_in_year : ℕ → ℕ
days_in_year y = if is_leap y then 366 else 365

-- A day counted from the Monday on or before 1 January: it may lie in December of the year before
-- or in January of the year after.
abbrev pub from_monday : ℕ → ℕ → Option Date
from_monday y n =
    if ltb n (first_weekday y)
    then checked (ymd (y - 1) 12 (32 + n - first_weekday y))
    else if ltb (n - first_weekday y) (days_in_year y)
    then find_day y months (n - first_weekday y)
    else checked (ymd (y + 1) 1 (n - first_weekday y - days_in_year y + 1))

-- The first ISO week is the one with the first Thursday of the year.
abbrev pub first_week : ℕ → ℕ
first_week y = if ltb 3 (first_weekday y) then 7 else 0

-- A year has 53 weeks if it begins on a Thursday, or on a Wednesday and is a leap year.
abbrev pub weeks_in_year : ℕ → ℕ
weeks_in_year y = if first_weekday y == 3 || (first_weekday y == 2 && is_leap y) then 53 else 52

-- `date.fromisocalendar`, with none for the ValueError
unfoldable pub of_week : ℕ → ℕ → ℕ → Option Date
unfolding find_day checked is_leap days_in_month days_before_year
of_week y w d =
    if leb 1 y && leb y 9999 && leb 1 w && leb w (weeks_in_year y) && leb 1 d && leb d 7
    then from_monday y (first_week y + (w - 1) * 7 + (d - 1))
    else none
