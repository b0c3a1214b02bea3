-- ===== src/Bidding/Place/Accepts.antt =====
-- apps/bidding/services.py: when `place_bid` accepts a bid.
use mbarara_auction.Prelude.{ℕ, ◌≤◌, ◌<◌, ◌≡◌, refl, true, false, some, arith, any}
use mbarara_auction.Table.{get, create}
use mbarara_auction.Models.{Db}
use mbarara_auction.Models.Accounts.{User, BidderProfile, is_eligible_to_bid}
use mbarara_auction.Models.Auctions.{Auction, is_live, is_open_at}
use mbarara_auction.Models.Bidding.{Bid}
use mbarara_auction.Exec.{returned}
use mbarara_auction.Notifications.Notify.{seller_user}
use mbarara_auction.Auctions.Services.{lock}
use mbarara_auction.Bidding.Amount.{pos, RawAmount, validate_amount}
use mbarara_auction.Bidding.Queries.{bidder_profile, minimum_permitted, next_sequence, has_sequence}
use mbarara_auction.Bidding.Queries.Sequence.{next_sequence-unused}
use mbarara_auction.Bidding.Place.{is_user, new_bid, check_bid, insert_bid, after_bid, place_bid}

check_bid-eq_returned :
    (k : ℕ) (a : Auction) (user_key bidder : ℕ) (user : User) (profile : BidderProfile) (amount : ℕ)
    (db : Db)
    → is_live a.status ≡ true
    → is_open_at a db.clock ≡ true
    → bidder_profile user_key db ≡ some (bidder, profile)
    → is_eligible_to_bid profile user ≡ true
    → is_user user_key (seller_user db a) ≡ false
    → minimum_permitted a ≤ amount
    → check_bid k a user_key user (pos amount) db ≡ returned (bidder, amount) db
unfolding check_bid
check_bid-eq_returned k a user_key bidder user profile amount db live is_open found eligible other
      enough =
    ground arith

insert_bid-eq_returned :
    (b : Bid) (db : Db)
    → 0 < b.amount
    → any (has_sequence b.auction b.sequence_no) db.bids.rows ≡ false
    → insert_bid b db ≡ returned db.bids.next (record db { bids = create b db.bids })
unfolding insert_bid
insert_bid-eq_returned b db positive fresh = ground arith

-- A valid amount that is positive and at least the minimum, from an eligible bidder who is not the
-- seller, on a live auction that is open, is accepted: place_bid returns, and the bid has the next
-- sequence number.
pub place_bid-eq_returned :
    (k : ℕ) (a : Auction) (user_key bidder : ℕ) (user : User) (profile : BidderProfile)
    (raw : RawAmount) (amount : ℕ) (db : Db)
    → validate_amount raw db ≡ returned (pos amount) db
    → get k db.auctions ≡ some a
    → is_live a.status ≡ true
    → is_open_at a db.clock ≡ true
    → bidder_profile user_key db ≡ some (bidder, profile)
    → is_eligible_to_bid profile user ≡ true
    → is_user user_key (seller_user db a) ≡ false
    → minimum_permitted a ≤ amount
    → 0 < amount
    → let b = new_bid k bidder amount (next_sequence k db.bids.rows) db.clock in
      place_bid k user_key user raw db
      ≡ returned
          (db.bids.next, b)
          (after_bid k a user_key db.bids.next b (record db { bids = create b db.bids }))
unfolding place_bid lock
place_bid-eq_returned k a user_key bidder user profile raw amount db valid found live is_open
      is_bidder eligible other enough positive =
    let b = new_bid k bidder amount (next_sequence k db.bids.rows) db.clock in
    let checks =
      check_bid-eq_returned k a user_key bidder user profile amount db live is_open is_bidder
        eligible other enough in
    let inserts = insert_bid-eq_returned b db positive (next_sequence-unused k db.bids.rows) in
    rw valid (rw found (rw checks (rw inserts refl)))
