-- ===== src/Web/Offers.antt =====
-- apps/auctions/views.py: what the pages offer and show, against what the services allow.
use mbarara_auction.Prelude.{
  ℕ, ◌<◌, ◌≤◌, ◌≡◌, true, false, none, some, arith, Option-cases, inl, inr,
}
use mbarara_auction.Table.{get}
use mbarara_auction.Models.{Db}
use mbarara_auction.Models.Accounts.{User, BidderProfile, is_eligible_to_bid}
use mbarara_auction.Models.Auctions.{Auction, is_live, is_open_at, is_biddable, is_publicly_visible}
use mbarara_auction.Models.Bidding.{Bid}
use mbarara_auction.Exec.{returned}
use mbarara_auction.Notifications.Notify.{seller_user}
use mbarara_auction.Bidding.Amount.{pos, RawAmount, validate_amount}
use mbarara_auction.Bidding.Queries.{bidder_profile, minimum_permitted}
use mbarara_auction.Bidding.Place.{is_user, place_bid}
use mbarara_auction.Bidding.Place.Accepts.{place_bid-eq_returned}
use mbarara_auction.Web.Bids.{can_bid, may_see}

record Offered (user_key : ℕ) (u : User) (a : Auction) (db : Db) : Type 0 where
  pub live : is_live a.status ≡ true
  pub open_now : is_open_at a db.clock ≡ true
  pub bidder : ℕ
  pub profile : BidderProfile
  pub found : bidder_profile user_key db ≡ some (bidder, profile)
  pub eligible : is_eligible_to_bid profile u ≡ true
  pub not_seller : is_user user_key (seller_user db a) ≡ false

can_bid-Offered :
    (user_key : ℕ) (u : User) (a : Auction) (db : Db)
    → can_bid (some (user_key, u)) a db ≡ true
    → Offered user_key u a db
unfolding can_bid is_biddable
can_bid-Offered user_key u a db h = elim (Option-cases (bidder_profile user_key db)) [
  | inl missing ↦ absurd (ground arith)
  | inr ((b, p), e) ↦ record {
    live = ground arith;
    open_now = ground arith;
    bidder = b;
    profile = p;
    found = e;
    eligible = ground arith;
    not_seller = ground arith;
  }
]

-- Where the auction's page offers a user to bid, place_bid accepts a valid amount from that user
-- that is positive and at least the minimum.
pub can_bid-place_bid :
    (k user_key : ℕ) (u : User) (a : Auction) (raw : RawAmount) (amount : ℕ) (db : Db)
    → get k db.auctions ≡ some a
    → can_bid (some (user_key, u)) a db ≡ true
    → validate_amount raw db ≡ returned (pos amount) db
    → minimum_permitted a ≤ amount
    → 0 < amount
    → (b : Bid) × (db' : Db) × (place_bid k user_key u raw db ≡ returned (db.bids.next, b) db')
can_bid-place_bid k user_key u a raw amount db found offered valid enough positive =
    let o = can_bid-Offered user_key u a db offered in
    (
      _,
      _,
      place_bid-eq_returned k a user_key o.bidder u o.profile raw amount db valid found o.live
          o.open_now o.found o.eligible o.not_seller enough positive,
    )

-- A page that a visitor may see shows an auction that is publicly visible, and one may see whatever is.
pub may_see-visitor : (a : Auction) (db : Db) → may_see none a db ≡ is_publicly_visible a.status
unfolding may_see
may_see-visitor a db = ground arith
