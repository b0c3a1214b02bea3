-- ===== src/Reports/Ranges/Days.antt =====
-- apps/reports/services.py: the range of dates by the local day of a time, and when its bounds
-- cannot be computed.
use mbarara_auction.Prelude.{ℕ, ◌+◌, ◌/◌, ◌≤◌, ◌<◌, ◌≡◌, ◌↔◌, true, some, arith}
use mbarara_auction.Reports.{in_range}
use mbarara_auction.Reports.Dates.Calendar.{Date, ymd, IsDate, to_ordinal}
use mbarara_auction.Reports.Ranges.{day_length, start_of, end_of}

-- the ordinal of the local day that a time falls on
abbrev pub local_day : ℕ → ℕ → ℕ
local_day offset time = (time + offset) / day_length

abbrev pub last_date : Date
last_date = ymd 9999 12 31

to_ordinal-pos : (t : Date) → IsDate t → 0 < to_ordinal t
unfolding to_ordinal
to_ordinal-pos t v = omega arith

-- In a time zone at most a day ahead of UTC, a time is between the bounds of two dates exactly if
-- the local day that it falls on is neither before the first date, which exists, nor after the
-- second.
pub in_range-local_day :
    (offset : ℕ) (from to : Date) (time : ℕ)
    → offset ≤ day_length
    → IsDate from
    → (in_range (start_of offset (some from)) (end_of offset (some to)) time ≡ true)
      ↔ ((to_ordinal from ≤ local_day offset time) × (local_day offset time ≤ to_ordinal to))
unfolding in_range
in_range-local_day offset from to time h v =
    let pos : 0 < to_ordinal from = to_ordinal-pos from v in ground arith
