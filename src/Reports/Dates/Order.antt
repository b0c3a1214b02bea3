-- ===== src/Reports/Dates/Order.antt =====
-- The ordinals of dates, against the order of the dates.
use mbarara_auction.Prelude.{
  ℕ, zero, suc, ◌+◌, ◌≤◌, ◌<◌, ◌≡◌, Bool, true, ◌&&◌, ◌||◌, arith, ltb, ◌==◌,
}
use mbarara_auction.Reports.Dates.Calendar.{
  Date, IsDate, is_leap, days_in_month, days_before_year, days_before_month, days_in_year,
  to_ordinal,
}

-- `date_from < date_to`, of two dates
unfoldable pub is_before : Date → Date → Bool
is_before a b =
    ltb a.year b.year
    || (a.year == b.year && (ltb a.month b.month || (a.month == b.month && ltb a.day b.day)))

days_before_year-next :
    (y : ℕ) → 1 ≤ y → days_before_year (y + 1) ≡ days_before_year y + days_in_year y
unfolding days_before_year is_leap
days_before_year-next y h = ground arith

days_before_year_mono : (y z : ℕ) → y ≤ z → days_before_year y ≤ days_before_year z
unfolding days_before_year
days_before_year_mono y z h = omega arith

days_before_month_mono : (y m n : ℕ) → m ≤ n → days_before_month y m ≤ days_before_month y n
unfolding days_before_month
days_before_month_mono y m zero h = ground arith
days_before_month_mono y m (suc n) h = ground (arith, days_before_month_mono y m n)

days_before_month-next :
    (y m : ℕ) → 1 ≤ m → days_before_month y m + days_in_month y m ≡ days_before_month y (suc m)
unfolding days_before_month
days_before_month-next y m h = ground arith

days_before_month-all : (y : ℕ) → days_before_month y 13 ≡ days_in_year y
unfolding days_before_month days_in_month
days_before_month-all y = ground arith

pub to_ordinal-lt :
    (a b : Date) → IsDate a → IsDate b → is_before a b ≡ true → to_ordinal a < to_ordinal b
unfolding to_ordinal is_before
to_ordinal-lt a b v w h = ground (
  arith,
  days_before_year-next a.year,
  days_before_year_mono (a.year + 1) b.year,
  days_before_month-next a.year a.month,
  days_before_month_mono a.year (suc a.month) 13,
  days_before_month_mono a.year (suc a.month) b.month,
  days_before_month-all a.year,
)
