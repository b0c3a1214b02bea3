-- ===== src/Reports/Csv.antt =====
-- apps/reports/services.py: the rows of the two CSV files. A row is the list of its cells, before
-- Python's `csv` quotes and joins them. Category names and the texts of times are arguments, `Decimal`s
-- are printed with two places.
pub mod Cells
use mbarara_auction.Prelude.{
  ℕ, ◌/◌, ◌%◌, String, ◌++◌, Bool, true, false, ◌&&◌, Option, none, some, List, [], ◌∷◌, ◌==◌, ltb,
  if◌then◌else◌, decimal, length, select, order_by, map,
}
use mathlib.Core.Option
use mbarara_auction.Table.{get}
use mbarara_auction.Models.{Db}
use mbarara_auction.Models.Accounts.{User}
use mbarara_auction.Models.Auctions.{Auction}
use mbarara_auction.Models.Payments.{Payment, PaymentStatus}
use mbarara_auction.Exec.{Exec, pure, gets, ◌>>=◌}
use mbarara_auction.Accounts.Permissions.{RequestUser, require_staff}
use mbarara_auction.Notifications.Notify.{seller_user}
use mbarara_auction.Reports.{csv_safe}
use mbarara_auction.Reports.Ranges.{get_range, auctions_in_range, payments_in_range}
use mbarara_auction.Web.Pages.{status_value}
use mbarara_auction.Web.ControlPages.{bid_total}

-- `str(Decimal)` of a number of cents
abbrev two_places : ℕ → String
two_places cents =
    decimal (cents / 100) ++ ("." ++ (decimal (cents / 10 % 10) ++ decimal (cents % 10)))

-- `str(bool)`
abbrev bool_text : Bool → String
bool_text true = "True"
bool_text false = "False"

abbrev payment_status_value : PaymentStatus → String
payment_status_value PaymentStatus.pending = "PENDING"
payment_status_value PaymentStatus.paid = "PAID"
payment_status_value PaymentStatus.failed = "FAILED"
payment_status_value PaymentStatus.refunded = "REFUNDED"

abbrev username_of : Option ℕ → Db → Option String
username_of none db = none
username_of (some user) db = Option.map (λ u. u.username) (get user db.users)

-- `a.winner.username if a.winner else ""`
abbrev username_or_blank : Option ℕ → Db → Option String
username_or_blank none db = some ""
username_or_blank (some user) db = username_of (some user) db

abbrev by_id : {A : Type 0} → ℕ × A → ℕ × A → Bool
by_id (j, a) (k, b) = ltb j k

-- `time_text` is `isoformat` of an aware time, `category_name` the name of a category.
module _ (time_text : ℕ → String) (category_name : ℕ → String) where
  unfoldable pub auction_cells : Db → ℕ × Auction → List (Option String)
  auction_cells db (k, a) =
      some (decimal k)
      ∷ some a.title
      ∷ username_of (seller_user db a) db
      ∷ some (category_name a.category)
      ∷ some (status_value a.status)
      ∷ some (two_places a.starting_price)
      ∷ Option.map two_places a.reserve_price
      ∷ Option.map two_places a.final_price
      ∷ username_or_blank a.winner db
      ∷ Option.map bool_text a.reserve_met
      ∷ some (decimal (bid_total k db))
      ∷ some (time_text a.start_time)
      ∷ some (time_text a.end_time)
      ∷ []

  -- the rows that write_auctions_csv writes under its header
  unfoldable pub auction_rows : List (ℕ × Auction) → Db → List (List String)
  unfolding auction_cells order_by
  auction_rows auctions db = map (λ r. map csv_safe (auction_cells db r)) (order_by by_id auctions)

  abbrev paid_at_text : Option ℕ → String
  paid_at_text none = ""
  paid_at_text (some t) = time_text t

  unfoldable pub payment_cells : Db → ℕ × Payment → List (Option String)
  payment_cells db (k, p) =
      let a = get p.auction db.auctions in
      some (decimal k)
      ∷ some (decimal p.auction)
      ∷ Option.map (λ (a : Auction). a.title) a
      ∷ elim a [ none ↦ none | some a ↦ username_or_blank a.winner db ]
      ∷ elim a [ none ↦ none | some a ↦ username_of (seller_user db a) db ]
      ∷ some (two_places p.amount)
      ∷ some (payment_status_value p.status)
      ∷ some p.method
      ∷ some p.reference
      ∷ some (paid_at_text p.paid_at)
      ∷ []

  -- the rows that write_payments_csv writes under its header
  unfoldable pub payment_rows : List (ℕ × Payment) → Db → List (List String)
  unfolding payment_cells order_by
  payment_rows payments db = map (λ r. map csv_safe (payment_cells db r)) (order_by by_id payments)

  -- AuctionsCsvView.get: whether the query was valid does not matter here
  unfoldable pub auctions_csv : ℕ → RequestUser → String → String → Exec (List (List String))
  unfolding auction_rows
  auctions_csv offset user raw_from raw_to = do
    (staff, u) ← require_staff user
    let range = get_range raw_from raw_to
    auctions ← auctions_in_range offset range.date_from range.date_to
    gets (auction_rows auctions)

  -- PaymentsCsvView.get
  unfoldable pub payments_csv : ℕ → RequestUser → String → String → Exec (List (List String))
  unfolding payment_rows
  payments_csv offset user raw_from raw_to = do
    (staff, u) ← require_staff user
    let range = get_range raw_from raw_to
    payments ← payments_in_range offset range.date_from range.date_to
    gets (payment_rows payments)
