-- ===== src/Reports/Ranges.antt =====
-- apps/reports/services.py and views.py: the range of dates that a query names, and its bounds as
-- times. A time counts microseconds from the start of day 0 in UTC, day 1 being the first day of
-- year 1; the current time zone is `offset` microseconds ahead of UTC, at every time.
pub mod Days
use mbarara_auction.Prelude.{
  ℕ, ◌+◌, ◌-◌, ◌*◌, String, Bool, true, false, not, ◌&&◌, ◌||◌, Option, none, some, List, ◌==◌,
  if◌then◌else◌, is_empty, is_some, select,
}
use mbarara_auction.Models.{Db}
use mbarara_auction.Models.Auctions.{Auction}
use mbarara_auction.Models.Payments.{Payment}
use mbarara_auction.Errors.{Error}
use mbarara_auction.Exec.{Exec, pure, gets, raise_if, ◌>>=◌, ◌>>◌}
use mbarara_auction.Accounts.Permissions.{RequestUser, require_staff}
use mbarara_auction.Reports.{Summary, build_summary, in_range}
use mbarara_auction.Reports.Dates.{parse_date}
use mbarara_auction.Reports.Dates.Calendar.{Date, to_ordinal, max_ordinal}
use mbarara_auction.Reports.Dates.Order.{is_before}

-- the first and the last day of a range, either of them open, and whether the query was valid
pub record DateRange : Type 0 where
  pub date_from : Option Date
  pub date_to : Option Date
  pub ok : Bool

abbrev out_of_order : Option Date → Option Date → Bool
out_of_order none to = false
out_of_order (some from) none = false
out_of_order (some from) (some to) = is_before to from

abbrev is_unread : String → Option Date → Bool
is_unread raw value = not (is_empty raw) && not (is_some value)

-- `_RangeMixin.get_range`, of the two values of the query; an absent one is empty
unfoldable pub get_range : String → String → DateRange
unfolding is_unread out_of_order
get_range raw_from raw_to =
    let from = parse_date raw_from in
    let to = parse_date raw_to in
    if is_unread raw_from from || is_unread raw_to to || out_of_order from to
    then record { date_from = none; date_to = none; ok = false }
    else record { date_from = from; date_to = to; ok = true }

abbrev pub day_length : ℕ
day_length = 86_400_000_000

-- `make_aware(datetime.combine(…, time.min))`, of a day by its ordinal
abbrev pub midnight : ℕ → ℕ → ℕ
midnight offset ordinal = ordinal * day_length - offset

abbrev pub start_of : ℕ → Option Date → Option ℕ
start_of offset none = none
start_of offset (some from) = some (midnight offset (to_ordinal from))

-- `date_to + timedelta(days=1)` is past the last date if `date_to` is the last.
abbrev pub is_last_day : Option Date → Bool
is_last_day none = false
is_last_day (some to) = to_ordinal to == max_ordinal

abbrev pub end_of : ℕ → Option Date → Option ℕ
end_of offset none = none
end_of offset (some to) = some (midnight offset (to_ordinal to + 1))

-- `_bounds`
unfoldable pub bounds : ℕ → Option Date → Option Date → Exec (Option ℕ × Option ℕ)
bounds offset from to = do
  raise_if (is_last_day to) Error.overflow_error
  pure (start_of offset from, end_of offset to)

-- `auctions_in_range`
unfoldable pub auctions_in_range : ℕ → Option Date → Option Date → Exec (List (ℕ × Auction))
unfolding in_range bounds
auctions_in_range offset from to = do
  (start, end) ← bounds offset from to
  gets (λ db. select (λ r. in_range start end r.1.created_at) db.auctions.rows)

-- `payments_in_range`
unfoldable pub payments_in_range : ℕ → Option Date → Option Date → Exec (List (ℕ × Payment))
unfolding in_range bounds
payments_in_range offset from to = do
  (start, end) ← bounds offset from to
  gets (λ db. select (λ r. in_range start end r.1.created_at) db.payments.rows)

-- `ReportsDashboardView.get`, with whether the query was valid: if not, all is counted.
unfoldable pub show_report : ℕ → RequestUser → String → String → Exec (Bool × Summary)
unfolding bounds get_range
show_report offset user raw_from raw_to = do
  (staff, u) ← require_staff user
  let range = get_range raw_from raw_to
  (start, end) ← bounds offset range.date_from range.date_to
  gets (λ db. (range.ok, build_summary start end db))
