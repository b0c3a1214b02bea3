-- ===== src/Tests/Bidding.antt =====
-- Bidding on the small database.
use mbarara_auction.Prelude.{ℕ, zero, suc, ◌≡◌, refl, some, none, arith}
use mbarara_auction.Table.{get, create, modify}
use mbarara_auction.Models.{Db}
use mbarara_auction.Models.Bidding.{Bid}
use mbarara_auction.Exec.{returned, final}
use mbarara_auction.Core.{core}
use mbarara_auction.Notifications.Notify.{seller_user}
use mbarara_auction.Notifications.Events.{outbid_recipient}
use mbarara_auction.Notifications.Recipients.{bidder_user}
use mbarara_auction.Auctions.Services.{lock}
use mbarara_auction.Models.Accounts.{is_eligible_to_bid}
use mbarara_auction.Models.Auctions.{AuctionStatus}
use mbarara_auction.Bidding.Amount.{validate_amount}
use mbarara_auction.Bidding.Queries.{
  next_sequence, minimum_permitted, bidder_profile, highest_amount, highest_bid,
}
use mbarara_auction.Bidding.Place.{place_bid, check_bid, insert_bid, after_bid, new_bid}
use mbarara_auction.Bidding.Invalidate.{
  invalidate_bid, save_invalidated, recompute_highest, as_invalidated,
}
use mbarara_auction.Bidding.Close.{close_auction, decide_winner}
use mbarara_auction.Bidding.Close.Outcome.{closed_row, sold, decided, close_auction-eq_returned}
use mbarara_auction.Bidding.Highest.{IsInSync}
use mbarara_auction.Auctions.Services.Transitions.{moved}
use mbarara_auction.Bidding.Close.{with_decision}
use mbarara_auction.System.Step.{Steps}
use mbarara_auction.System.Refinement.Bids.{place_bid-Steps, close_auction-Steps}
use mbarara_auction.Tests.Data.{market, bob, bid_of_120, cow, first_bid}

runs_place_bid : ℕ
unfolding place_bid lock check_bid validate_amount bidder_profile is_eligible_to_bid seller_user
    minimum_permitted next_sequence insert_bid after_bid outbid_recipient get create modify
runs_place_bid = 0

abbrev pub after_120 : Db
after_120 = final (place_bid 0 2 bob bid_of_120 market)

abbrev pub bid_120 : Bid
bid_120 = new_bid 0 1 12000 2 3_480_000_000

pub place_bid_works : place_bid 0 2 bob bid_of_120 market ≡ returned (1, bid_120) after_120
unfolding runs_place_bid
place_bid_works = refl

pub market-IsInSync : IsInSync market.auctions market.bids
unfolding get highest_amount highest_bid
market-IsInSync zero a found = ground arith
market-IsInSync (suc zero) a found = ground arith
market-IsInSync (suc (suc k)) a found = ground arith

place_bid-Steps_example : Steps (core market) (core after_120)
place_bid-Steps_example = place_bid-Steps 0 2 bob bid_of_120 market place_bid_works

runs_invalidate_bid : ℕ
unfolding invalidate_bid lock save_invalidated recompute_highest get modify
runs_invalidate_bid = 0

abbrev after_invalidation : Db
after_invalidation = final (invalidate_bid 0 first_bid (some 3) "Shill bidding" market)

invalidate_bid_works :
    invalidate_bid 0 first_bid (some 3) "Shill bidding" market
    ≡ returned (as_invalidated (some 3) "Shill bidding" 3_480_000_000 first_bid) after_invalidation
unfolding runs_invalidate_bid
invalidate_bid_works = refl

bid_is_there : get 0 market.bids ≡ some first_bid
unfolding get
bid_is_there = refl

pub cow_is_there : get 0 market.auctions ≡ some cow
unfolding get
cow_is_there = refl

close_auction-eq_returned_example :
    let d = decide_winner cow (highest_bid 0 market.bids.rows) (bidder_user market) in
    let row = closed_row d market.clock cow in
    (db' : Db) × (close_auction 0 none "Time is up" market ≡ returned row db')
    × (core db'
        ≡ sold 0 row (
            moved 0
              (with_decision d market.clock cow)
              AuctionStatus.closed
              none
              "Time is up"
              (decided 0 d (core market))))
close_auction-eq_returned_example =
    close_auction-eq_returned 0 cow none "Time is up" market cow_is_there refl

close_auction-Steps_example : Steps (core market) (core (close_auction-eq_returned_example.0))
close_auction-Steps_example =
    close_auction-Steps 0 none "Time is up" market close_auction-eq_returned_example.1
