-- ===== src/Web/Bids.antt =====
-- apps/bidding/views.py and apps/auctions/views.py: placing a bid, and who sees an auction.
use mbarara_auction.Prelude.{ℕ, Bool, true, false, not, ◌&&◌, ◌||◌, Option, none, some}
use mbarara_auction.Models.{Db}
use mbarara_auction.Models.Accounts.{
  User, is_officer_or_admin, is_bidder_role, is_eligible_to_bid, BidderProfile,
}
use mbarara_auction.Models.Auctions.{Auction, is_publicly_visible, is_biddable}
use mbarara_auction.Errors.{Error, BidRejection}
use mbarara_auction.Exec.{Exec, pure, ◌>>=◌}
use mbarara_auction.Accounts.Permissions.{RequestUser, require_bidder}
use mbarara_auction.Notifications.Notify.{seller_user}
use mbarara_auction.Bidding.Amount.{RawAmount}
use mbarara_auction.Bidding.Queries.{bidder_profile}
use mbarara_auction.Bidding.Place.{is_user, place_bid}
use mbarara_auction.Web.Replies.{Reply, catching, get_or_404}

abbrev pub is_bid_rejected : Error → Bool
is_bid_rejected (Error.bid_rejected _) = true
is_bid_rejected _ = false

-- PlaceBidView.post; the amount is what `Decimal(raw_amount)` gave, none if it raised.
unfoldable pub post_bid : RequestUser → ℕ → Option RawAmount → Exec Reply
post_bid user k none = do
  signed_in ← require_bidder user
  a ← get_or_404 (λ db. db.auctions) k
  pure (Reply.refused (Error.bid_rejected BidRejection.not_a_valid_amount))
post_bid user k (some amount) = do
  (key, u) ← require_bidder user
  a ← get_or_404 (λ db. db.auctions) k
  catching is_bid_rejected Reply.success (place_bid k key u amount)

abbrev is_owner : RequestUser → Auction → Db → Bool
is_owner none a db = false
is_owner (some (key, u)) a db = is_user key (seller_user db a)

abbrev is_staff : RequestUser → Bool
is_staff none = false
is_staff (some (key, u)) = is_officer_or_admin u

-- `detail`: who may see the auction's page
unfoldable pub may_see : RequestUser → Auction → Db → Bool
unfolding is_owner is_staff
may_see user a db = is_publicly_visible a.status || is_owner user a db || is_staff user

abbrev eligible_with : Option (ℕ × BidderProfile) → User → Bool
eligible_with none u = false
eligible_with (some (_, p)) u = is_eligible_to_bid p u

-- `detail`: does the page offer to bid?
unfoldable pub can_bid : RequestUser → Auction → Db → Bool
unfolding eligible_with
can_bid none a db = false
can_bid (some (key, u)) a db =
    is_bidder_role u.role
    && is_biddable a db.clock
    && eligible_with (bidder_profile key db) u
    && not (is_user key (seller_user db a))
