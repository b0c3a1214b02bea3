-- ===== src/Tests/Platform.antt =====
-- The dates of reports, new accounts, the admin site and the staff's control pages, at small inputs.
use text.Mathlib.Text.{◌==◌ as str_eq}
use mbarara_auction.Prelude.{
  String, false, List, ℕ, ◌≤◌, ◌≡◌, refl, ◌↔◌, true, some, none, [], ◌∷◌, arith, length, strip,
}
use mbarara_auction.Table.{filter, get, create, modify}
use mbarara_auction.Models.{Db}
use mbarara_auction.Models.Accounts.{Role, is_officer_or_admin}
use mbarara_auction.Exec.{returned, final}
use mbarara_auction.Core.{core}
use mbarara_auction.Accounts.Permissions.{require_staff, require_user}
use mbarara_auction.Reports.{in_range}
use mbarara_auction.Reports.Dates.{parse_date, fromisoformat, number, after_year}
use mbarara_auction.Reports.Dates.Calendar.{
  Date, ymd, IsDate, days_in_month, is_leap, checked, of_week, to_ordinal, days_before_year,
  days_before_month,
}
use mbarara_auction.Reports.Dates.Trip.{isoformat, parse_date-isoformat}
use mbarara_auction.Reports.Ranges.{start_of, end_of}
use mbarara_auction.Reports.Ranges.Days.{in_range-local_day, local_day}
use mbarara_auction.Accounts.Registration.{RegistrationForm, register}
use mbarara_auction.Accounts.Registration.Outcome.{HasOwners, Registered, register-Registered}
use mbarara_auction.Accounts.Registration.Superuser.{Environment}
use mbarara_auction.Accounts.Verification.{Profile, ProfileKind}
use mbarara_auction.Admin.{admin_mark_paid}
use mbarara_auction.Admin.Bulk.{admin_mark_paid-Steps}
use mbarara_auction.System.Step.{Steps}
use mbarara_auction.Web.Replies.{Reply}
use mbarara_auction.Web.Control.{Order}
use mbarara_auction.Web.ControlPages.{control_page, show_auction_control}
use mbarara_auction.Web.ControlPages.Buttons.{Fails, show_auction_control-Fails}
use mbarara_auction.Disputes.Access.{can_view_dispute}
use mbarara_auction.Web.Pages.{my_disputes}
use mbarara_auction.Web.Pages.Seen.{my_disputes-can_view}
use mbarara_auction.Reports.Csv.{auction_rows, payment_rows}
use mbarara_auction.Reports.Csv.Cells.{AllSafe, csv_rows-AllSafe}
use mbarara_auction.Tests.Data.{bob, disputed_sale, market, sale, goat, first_bid, due, officer}

runs : ℕ
unfolding get create modify days_in_month is_leap checked of_week to_ordinal days_before_year
    days_before_month parse_date fromisoformat number after_year strip is_officer_or_admin
    show_auction_control isoformat require_staff require_user
runs = 0

abbrev market_day : Date
market_day = ymd 2026 10 13

market_day-IsDate : IsDate market_day
unfolding runs
market_day-IsDate = record {
  year_pos = omega arith;
  year_max = omega arith;
  month_pos = omega arith;
  month_max = omega arith;
  day_pos = omega arith;
  day_max = omega arith;
}

parse_date-isoformat_example : parse_date (isoformat market_day) ≡ some market_day
parse_date-isoformat_example = parse_date-isoformat market_day market_day-IsDate

isoformat-market_day : isoformat market_day ≡ "2026-10-13"
unfolding runs
isoformat-market_day = refl

plain_date_is_read : parse_date "20261013" ≡ some market_day
unfolding runs
plain_date_is_read = refl

other_date_is_not_read : parse_date "13/10/2026" ≡ none
unfolding runs
other_date_is_not_read = refl

first_week_of_2021 : parse_date "2020W537" ≡ some (ymd 2021 1 3)
unfolding runs
first_week_of_2021 = refl

-- Kampala is three hours ahead of UTC.
abbrev kampala : ℕ
kampala = 10_800_000_000

in_range-local_day_example :
    (in_range (start_of kampala (some market_day)) (end_of kampala (some market_day)) 0 ≡ true) ↔ (
      (to_ordinal market_day ≤ local_day kampala 0) × (local_day kampala 0 ≤ to_ordinal market_day))
in_range-local_day_example =
    in_range-local_day kampala market_day market_day 0 (omega arith) market_day-IsDate

abbrev carol : RegistrationForm
carol = record {
  username = "carol";
  email = "carol@example.com";
  phone_number = "0700000099";
  role = some Role.seller;
}

market-HasOwners : HasOwners market
market-HasOwners = record { sellers_known = omega arith; bidders_known = omega arith }

register-Registered_example :
    (reply : Reply) × (after : Db) × (register str_eq (λ f db. true) carol market
      ≡ returned reply after)
    × Registered str_eq carol market reply after
register-Registered_example =
    register-Registered str_eq (λ f db. true) carol market market-HasOwners

abbrev admin_environment : Environment
admin_environment = record {
  superuser_email = some "admin@example.com";
  superuser_password = some "secret";
  superuser_username = none;
}

bid_is_fresh : get 0 market.bids ≡ some first_bid
unfolding runs
bid_is_fresh = refl

due_is_fresh : get 0 sale.payments ≡ some due
unfolding runs
due_is_fresh = refl

admin_mark_paid-Steps_example :
    Steps (core sale) (core (final (admin_mark_paid 3 ((0, due) ∷ []) sale)))
admin_mark_paid-Steps_example =
    admin_mark_paid-Steps 3 ((0, due) ∷ []) sale (due_is_fresh, refl, tt)

abbrev seller_profile : Profile
seller_profile = record { kind = ProfileKind.seller_kind; key = 0; user = 0 }

page_is_shown :
    show_auction_control (some (3, officer)) 1 market ≡ returned (control_page 1 goat market) market
unfolding runs
page_is_shown = refl

show_auction_control-Fails_example : Fails (Order.pause_it "Rain") 1 3 market
show_auction_control-Fails_example =
    show_auction_control-Fails 1 3 officer (Order.pause_it "Rain") market page_is_shown refl

bob_is_not_staff : is_officer_or_admin bob ≡ false
unfolding runs
bob_is_not_staff = refl

my_disputes-can_view_example :
    my_disputes 2 disputed_sale
    ≡ filter (λ d. can_view_dispute (some (2, bob)) d disputed_sale) disputed_sale.disputes
my_disputes-can_view_example = my_disputes-can_view 2 bob disputed_sale bob_is_not_staff

abbrev auction_file : List (List String)
auction_file = auction_rows (λ t. "") (λ c. "Livestock") market.auctions.rows market

abbrev payment_file : List (List String)
payment_file = payment_rows (λ t. "") (λ c. "Livestock") sale.payments.rows market

csv_rows-AllSafe_example :
    (length auction_file ≡ length market.auctions.rows)
    × (length payment_file ≡ length sale.payments.rows)
    × AllSafe auction_file
    × AllSafe payment_file
csv_rows-AllSafe_example =
    csv_rows-AllSafe (λ t. "") (λ c. "Livestock") market.auctions.rows sale.payments.rows market
