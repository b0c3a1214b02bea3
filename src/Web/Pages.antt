-- ===== src/Web/Pages.antt =====
-- The pages that list rows: apps/auctions/views.py (browse), apps/core/views.py (home), and those of
-- apps/payments, apps/disputes, apps/bidding, apps/listings and apps/notifications. A page is the
-- rows that its template is given.
pub mod Seen
use Prim.Native.Nat.{Ordering}
use Prim.Native.String.{compare}
use text.Mathlib.Text.{◌==◌ as str_eq}
use mbarara_auction.Prelude.{
  ℕ, zero, suc, String, Bool, true, false, not, ◌&&◌, ◌||◌, Option, none, some, List, [], ◌∷◌, ◌==◌,
  ltb, if◌then◌else◌, is_empty, strip, select, order_by,
}
use mbarara_auction.Table.{get, filter}
use mbarara_auction.Models.{Db}
use mbarara_auction.Models.Accounts.{BidderProfile}
use mbarara_auction.Models.Auctions.{
  AuctionStatus, Auction, is_publicly_visible, is_live, is_scheduled, same_status,
}
use mbarara_auction.Models.Bidding.{Bid}
use mbarara_auction.Models.Payments.{Payment}
use mbarara_auction.Models.Disputes.{Dispute}
use mbarara_auction.Models.Records.{Notification}
use mbarara_auction.Exec.{Exec, gets, ◌>>=◌}
use mbarara_auction.Accounts.Permissions.{
  RequestUser, require_seller, require_bidder, require_staff,
}
use mbarara_auction.Notifications.Notify.{seller_user}
use mbarara_auction.Bidding.Queries.{bidder_profile}
use mbarara_auction.Payments.{pending_payments}
use mbarara_auction.Disputes.Access.{names}
use mbarara_auction.Web.Listings.{find_seller}

abbrev pub first_rows : {A : Type 0} → ℕ → List A → List A
first_rows zero rows = []
first_rows (suc n) [] = []
first_rows (suc n) (row ∷ rows) = row ∷ first_rows n rows

-- the texts that the database sorts statuses by
abbrev pub status_value : AuctionStatus → String
status_value AuctionStatus.draft = "DRAFT"
status_value AuctionStatus.submitted = "SUBMITTED"
status_value AuctionStatus.approved = "APPROVED"
status_value AuctionStatus.rejected = "REJECTED"
status_value AuctionStatus.scheduled = "SCHEDULED"
status_value AuctionStatus.live = "LIVE"
status_value AuctionStatus.paused = "PAUSED"
status_value AuctionStatus.closed = "CLOSED"
status_value AuctionStatus.settled = "SETTLED"
status_value AuctionStatus.completed = "COMPLETED"
status_value AuctionStatus.cancelled = "CANCELLED"
status_value AuctionStatus.disputed = "DISPUTED"

-- `order_by("-status", "end_time")`
abbrev browse_order : ℕ × Auction → ℕ × Auction → Bool
browse_order (j, a) (k, b) = elim (compare (status_value b.status) (status_value a.status)) [
  | Ordering.lt ↦ true
  | Ordering.eq ↦ ltb a.end_time b.end_time
  | Ordering.gt ↦ false
]

abbrev has_status : Option AuctionStatus → Auction → Bool
has_status none a = true
has_status (some s) a = same_status a.status s

-- `contains` is how the database finds a text in another without regard to case, `slug_of` the slug of
-- a category.
module _ (contains : String → String → Bool) (slug_of : ℕ → String) where
  abbrev has_words : String → Auction → Bool
  has_words q a = is_empty q || contains a.title q || contains a.description q

  abbrev has_category : String → Auction → Bool
  has_category slug a = is_empty slug || str_eq (slug_of a.category) slug

  -- `browse`, with the texts of the query; a status that is no choice is none
  unfoldable pub browse : String → String → Option AuctionStatus → Db → List (ℕ × Auction)
  unfolding filter strip order_by
  browse q category status db = first_rows 100 (
      order_by browse_order (
        select
          (λ r.
            has_words (strip q) r.1 && has_category (strip category) r.1 && has_status status r.1)
          (filter (λ a. is_publicly_visible a.status) db.auctions)))

abbrev starts_first : ℕ × Auction → ℕ × Auction → Bool
starts_first (j, a) (k, b) = ltb a.start_time b.start_time

abbrev ends_first : ℕ × Auction → ℕ × Auction → Bool
ends_first (j, a) (k, b) = ltb a.end_time b.end_time

-- `home`: the live auctions that end first, and the scheduled ones that start first
unfoldable pub home : Db → List (ℕ × Auction) × List (ℕ × Auction)
unfolding filter order_by
home db = (
  first_rows 3 (order_by ends_first (filter (λ a. is_live a.status) db.auctions)),
  first_rows 3 (order_by starts_first (filter (λ a. is_scheduled a.status) db.auctions)),
)

abbrev of_auction : (Auction → Bool) → ℕ → Db → Bool
of_auction p k db = elim (get k db.auctions) [ none ↦ false | some a ↦ p a ]

-- PaymentQueueView.get
unfoldable pub payment_queue : RequestUser → Exec (List (ℕ × Payment))
payment_queue user = do (staff, u) ← require_staff user; gets pending_payments

-- MyPaymentsView.get
unfoldable pub my_payments : RequestUser → Exec (List (ℕ × Payment))
my_payments user = do
  (key, u) ← require_bidder user
  gets λ db. filter (λ p. of_auction (λ a. names key a.winner) p.auction db) db.payments

abbrev payments_of : Option ℕ → Db → List (ℕ × Payment)
payments_of none db = []
payments_of (some profile) db =
    filter (λ p. of_auction (λ a. a.seller == profile) p.auction db) db.payments

-- SellerPaymentsView.get
unfoldable pub seller_payments : RequestUser → Exec (List (ℕ × Payment))
seller_payments user = do
  (key, u) ← require_seller user
  gets λ db. payments_of (find_seller key db.sellers.rows) db

abbrev is_about : ℕ → Dispute → Db → Bool
is_about user d db =
    d.raised_by == user
    || of_auction (λ a. names user (seller_user db a)) d.auction db
    || of_auction (λ a. names user a.winner) d.auction db

-- MyDisputesView.get of a user who has signed in
unfoldable pub my_disputes : ℕ → Db → List (ℕ × Dispute)
my_disputes user db = filter (λ d. is_about user d db) db.disputes

abbrev bids_of : Option (ℕ × BidderProfile) → Db → List (ℕ × Bid)
bids_of none db = []
bids_of (some (profile, p)) db = filter (λ b. b.bidder == profile) db.bids

-- MyBidsView.get: the bids of the user, and the auctions won
unfoldable pub my_bids : RequestUser → Exec (List (ℕ × Bid) × List (ℕ × Auction))
my_bids user = do
  (key, u) ← require_bidder user
  gets λ db. (bids_of (bidder_profile key db) db, filter (λ a. names key a.winner) db.auctions)

abbrev listings_of : Option ℕ → Db → List (ℕ × Auction)
listings_of none db = []
listings_of (some profile) db = filter (λ a. a.seller == profile) db.auctions

-- MyListingsView.get
unfoldable pub my_listings : RequestUser → Exec (List (ℕ × Auction))
my_listings user = do
  (key, u) ← require_seller user
  gets λ db. listings_of (find_seller key db.sellers.rows) db

-- InboxView.get of a user who has signed in
unfoldable pub inbox : ℕ → Db → List (ℕ × Notification)
inbox user db = filter (λ n. n.recipient == user) db.notifications
