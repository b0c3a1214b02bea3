-- ===== src/Tests/Rules.antt =====
-- Amounts, sequence numbers, histories and inboxes at concrete inputs.
use mbarara_auction.Prelude.{
  ℕ, ◌+◌, ◌*◌, ◌^◌, ◌≤◌, ◌<◌, ◌≡◌, refl, some, none, true, false, arith, any, if◌then◌else◌, ◌==◌,
}
use mbarara_auction.Table.{get, create, modify}
use mbarara_auction.Models.{Db}
use mbarara_auction.Models.Accounts.{is_officer_or_admin, is_eligible_to_bid}
use mbarara_auction.Models.Auctions.{AuctionStatus, Auction, is_live}
use mbarara_auction.Exec.{returned, final}
use mbarara_auction.Notifications.Notify.{seller_user}
use mbarara_auction.Notifications.Recipients.{contains, update_recipients, bidder_user}
use mbarara_auction.Notifications.Recipients.Once.{is_distinct, update_recipients-is_distinct}
use mbarara_auction.Notifications.Inbox.{mark_all_read, unread_count}
use mbarara_auction.Notifications.Inbox.Reading.{mark_all_read-unread_count}
use mbarara_auction.Bidding.Amount.{pos, negsuc, decimal, validate_amount, max_bid_amount}
use mbarara_auction.Bidding.Amount.Bounds.{validate_amount-exact}
use mbarara_auction.Bidding.Queries.{
  next_sequence, has_sequence, minimum_permitted, bidder_profile, highest_bid, highest_amount,
}
use mbarara_auction.Bidding.Queries.Sequence.{next_sequence-unused}
use mbarara_auction.Bidding.Highest.{max_accepted, highest_amount-eq-max}
use mbarara_auction.Bidding.History.{get_bid_history}
use mbarara_auction.Bidding.History.Anonymity.{is_revealing, get_bid_history-is_revealing}
use mbarara_auction.Bidding.Place.{is_user, place_bid, new_bid, after_bid, window}
use mbarara_auction.Bidding.Place.Accepts.{place_bid-eq_returned}
use mbarara_auction.Bidding.Place.Extension.{place_bid-end_time}
use mbarara_auction.Bidding.Close.{close_auction, decide_winner}
use mbarara_auction.Bidding.Close.Outcome.{close_auction-eq_returned, closed_row}
use mbarara_auction.Bidding.Close.Sale.{close_auction-price}
use mbarara_auction.Tests.Data.{bidder_row, busy, busy_cow, market, bob, alice, bid_of_120, cow}
use mbarara_auction.Tests.Bidding.{after_120, place_bid_works, cow_is_there}

runs : ℕ
unfolding get create modify validate_amount minimum_permitted bidder_profile is_eligible_to_bid
    seller_user highest_bid decide_winner is_officer_or_admin
runs = 0

-- 12.5
valid_amount : validate_amount (decimal false 125 (negsuc 0)) market ≡ returned (pos 1250) market
unfolding runs
valid_amount = refl

validate_amount-exact_example :
    (0 < 2) × (1250 < max_bid_amount) × (1250 * 10 ^ 1 ≡ 125 * 10 ^ 2) × (market ≡ market)
validate_amount-exact_example = validate_amount-exact 125 0 1250 market valid_amount

next_sequence-unused_example :
    any (has_sequence 0 (next_sequence 0 market.bids.rows)) market.bids.rows ≡ false
next_sequence-unused_example = next_sequence-unused 0 market.bids.rows

highest_amount-eq-max_example : highest_amount 0 market.bids.rows ≡ some 10000
highest_amount-eq-max_example = highest_amount-eq-max 0 market.bids.rows

alice_is_not_staff : is_officer_or_admin alice ≡ false
unfolding runs
alice_is_not_staff = refl

get_bid_history-is_revealing_example :
    any is_revealing (get_bid_history 0 (some (1, alice)) market) ≡ false
get_bid_history-is_revealing_example =
    get_bid_history-is_revealing 0 (some (1, alice)) market alice_is_not_staff

seller_is_there : seller_user market cow ≡ some 0
unfolding runs
seller_is_there = refl

update_recipients-is_distinct_example :
    (is_distinct (update_recipients 0 cow market) ≡ true)
    × (contains 0 (update_recipients 0 cow market) ≡ true)
update_recipients-is_distinct_example = update_recipients-is_distinct 0 cow 0 market seller_is_there

abbrev after_reading : Db
after_reading = final (mark_all_read 1 after_120)

-- Alice was outbid, and told so.
reading_works : mark_all_read 1 after_120 ≡ returned (unread_count (some 1) after_120) after_reading
unfolding mark_all_read unread_count
reading_works = refl

mark_all_read-unread_count_example :
    (unread_count (some 1) after_120 ≡ unread_count (some 1) after_120)
    × (unread_count (some 1) after_reading ≡ 0)
    × (unread_count (some 2) after_reading
        ≡ (if 2 == 1 then 0 else unread_count (some 2) after_120))
mark_all_read-unread_count_example = mark_all_read-unread_count 1 2 after_120 reading_works

place_bid-end_time_example :
    (a' : Auction) × (get 0 after_120.auctions ≡ some a')
    × (is_live a'.status ≡ true)
    × (a'.current_highest_bid ≡ some 12000)
    × (cow.end_time ≤ a'.end_time)
    × (market.clock + window cow ≤ a'.end_time)
place_bid-end_time_example =
    place_bid-end_time 0 2 bob bid_of_120 market cow cow_is_there refl place_bid_works

amount_is_valid : validate_amount bid_of_120 market ≡ returned (pos 12000) market
unfolding runs
amount_is_valid = refl

bob_is_a_bidder : bidder_profile 2 market ≡ some (1, bidder_row 2)
unfolding runs
bob_is_a_bidder = refl

bob_may_bid : is_eligible_to_bid (bidder_row 2) bob ≡ true
unfolding runs
bob_may_bid = refl

bob_is_not_the_seller : is_user 2 (seller_user market cow) ≡ false
unfolding runs
bob_is_not_the_seller = refl

bid_is_enough : minimum_permitted cow ≤ 12000
unfolding runs
bid_is_enough = omega arith

place_bid-eq_returned_example :
    let b = new_bid 0 1 12000 (next_sequence 0 market.bids.rows) market.clock in
    place_bid 0 2 bob bid_of_120 market
    ≡ returned (1, b) (after_bid 0 cow 2 1 b (record market { bids = create b market.bids }))
place_bid-eq_returned_example =
    place_bid-eq_returned 0 cow 2 1 bob (bidder_row 2) bid_of_120 12000 market amount_is_valid
      cow_is_there refl refl bob_is_a_bidder bob_may_bid bob_is_not_the_seller bid_is_enough
      (omega arith)

busy_cow_is_there : get 0 busy.auctions ≡ some busy_cow
unfolding runs
busy_cow_is_there = refl

busy_close :
    (db' : Db) × (close_auction 0 none "Time is up" busy
      ≡ returned
          (closed_row
            (decide_winner busy_cow (highest_bid 0 busy.bids.rows) (bidder_user busy))
            busy.clock
            busy_cow)
          db')
busy_close =
    let (db', e, c) =
      close_auction-eq_returned 0 busy_cow none "Time is up" busy busy_cow_is_there refl in
    (db', e)

alice_wins :
    (decide_winner busy_cow (highest_bid 0 busy.bids.rows) (bidder_user busy)).winner ≡ some 1
unfolding runs
alice_wins = refl

close_auction-price_example :
    (price : ℕ) × ((decide_winner busy_cow
        (highest_bid 0 busy.bids.rows)
        (bidder_user busy)).final_price
      ≡ some price)
    × (max_accepted 0 busy.bids.rows ≡ some price)
    × (15000 ≤ price)
    × (AuctionStatus.closed ≡ AuctionStatus.closed)
close_auction-price_example =
    close_auction-price 0 busy_cow none "Time is up" busy 1 15000 busy_cow_is_there refl refl
      busy_close.1 alice_wins
