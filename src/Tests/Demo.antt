-- ===== src/Tests/Demo.antt =====
-- The demo data of an empty site.
use mbarara_auction.Prelude.{
  ◌⊎◌, is_blank, is_space, order_by, strip, ℕ, ◌≡◌, refl, true, false, Option, none, some, [],
}
use mbarara_auction.Table.{Table, create, get, modify}
use mbarara_auction.Models.{Db}
use mbarara_auction.Errors.{Error}
use mbarara_auction.Exec.{Result, returned, raised, final}
use mbarara_auction.Accounts.Verification.{create_role_profile}
use mbarara_auction.Auctions.Lifecycle.{audit_action, is_allowed}
use mbarara_auction.Auctions.Services.{
  approve, audit_transition, lock, log_status, notify_transition, record_transition, save_status,
  submit_for_review, transition,
}
use mbarara_auction.Audit.{audit}
use mbarara_auction.Bidding.Amount.{validate_amount}
use mbarara_auction.Bidding.Close.{
  announce, announce_to, close_auction, congratulate, decide_winner, save_decision,
}
use mbarara_auction.Bidding.Place.{
  after_bid, audit_extension, check_bid, insert_bid, new_end, place_bid, save_bid_result,
}
use mbarara_auction.Bidding.Queries.{bidder_profile, highest_bid, minimum_permitted, next_sequence}
use mbarara_auction.Demo.{advance, finish, go_live, is_listed, make_auction, move_end, place_bids}
use mbarara_auction.Demo.People.{ensure_user, make_bidder, make_officer, make_seller}
use mbarara_auction.Demo.Clear.{clear, demo_names}
use mbarara_auction.Demo.Clear.Kept.{Cleared, clear-Cleared}
use mbarara_auction.Demo.Seed.{
  make_people, create_demo, make_auctions, make_bidders, make_sellers, seed_demo,
}
use mbarara_auction.Models.Accounts.{is_eligible_to_bid}
use mbarara_auction.Notifications.Events.{
  notify_auction_closed_no_winner, notify_auction_live, notify_auction_won, notify_listing_approved,
  notify_listing_rejected, notify_outbid, notify_seller, outbid_recipient,
}
use mbarara_auction.Notifications.Notify.{notify, seller_user}
use mbarara_auction.Notifications.Recipients.{notify_auction_update, notify_each, update_recipients}
use mbarara_auction.Payments.{create_pending_payment, insert_payment, pay_or_create, payment_of}
use mbarara_auction.Scheduling.Controls.{need_reason, pause}
use mbarara_auction.Web.Listings.{insert_auction}
use mbarara_auction.Demo.Built.{Walks, make_auction-Walks}
use mbarara_auction.Demo.Catalogue.{walking_tractor_with}
use mbarara_auction.Tests.Data.{market, bob}

abbrev no_rows : {A : Type 0} → Table A
no_rows = record { rows = []; next = 0 }

-- four days after the start of time
abbrev empty_site : Db
empty_site = record {
  users = no_rows;
  sellers = no_rows;
  bidders = no_rows;
  auctions = no_rows;
  status_logs = no_rows;
  bids = no_rows;
  payments = no_rows;
  disputes = no_rows;
  notifications = no_rows;
  audit_logs = no_rows;
  deliveries = [];
  clock = 345_600_000_000;
}

abbrev result_of : Result ℕ → Option ℕ
result_of (returned n db) = some n
result_of (raised e db) = none

runs : ℕ
unfolding advance after_bid announce announce_to approve audit audit_action audit_extension
    audit_transition bidder_profile check_bid close_auction congratulate create
    create_pending_payment create_role_profile decide_winner ensure_user finish get go_live
    highest_bid insert_auction insert_bid insert_payment is_allowed is_blank is_eligible_to_bid
    is_listed is_space lock log_status make_auction make_auctions make_bidder make_bidders
    make_officer make_seller make_sellers minimum_permitted modify move_end need_reason new_end
    next_sequence notify notify_auction_closed_no_winner notify_auction_live notify_auction_update
    notify_auction_won notify_each notify_listing_approved notify_listing_rejected notify_outbid
    notify_seller notify_transition order_by outbid_recipient pause pay_or_create payment_of
    place_bid place_bids clear create_demo make_people record_transition save_bid_result
    save_decision save_status seed_demo seller_user strip submit_for_review transition
    update_recipients validate_amount
runs = 0

demo : Result ℕ
unfolding runs
demo = seed_demo true false false false (λ name. 0) empty_site

demo_creates_all : result_of demo ≡ some 18
unfolding runs demo
demo_creates_all = refl

again : Result ℕ
unfolding runs
again = seed_demo true false false false (λ name. 0) (final demo)

-- A second run skips what is there.
demo_creates_none : result_of again ≡ some 0
unfolding runs demo again
demo_creates_none = refl

-- Every bid of the demo is accepted.
demo_bids : (final demo).bids.next ≡ 31
unfolding runs demo
demo_bids = refl

-- The demo's own bids protect its auctions: --reset and --clear stop after a first run.
cannot_reset :
    seed_demo true false true false (λ name. 0) (final demo)
    ≡ raised Error.command_error (final demo)
unfolding runs demo
cannot_reset = refl

without_debug :
    seed_demo false false false false (λ name. 0) empty_site ≡ raised Error.command_error empty_site
unfolding runs
without_debug = refl

make_auction-Walks_example :
    Walks (make_auction walking_tractor_with 345_600_000_000 0 0 0 3 (λ who. (2, bob))) market
make_auction-Walks_example =
    make_auction-Walks walking_tractor_with 345_600_000_000 0 0 0 3 (λ who. (2, bob)) market
      (λ closed. closed)

people_only : Db
unfolding runs
people_only = final (make_people empty_site)

-- The accounts alone are deleted.
clears_people : Db.users (final (clear demo_names people_only)) ≡ record { rows = []; next = 11 }
unfolding runs people_only
clears_people = refl

clear-Cleared_example :
    (clear demo_names people_only ≡ raised Error.command_error people_only)
    ⊎ ((d : Db) × (clear demo_names people_only ≡ returned tt d) × Cleared demo_names people_only d)
clear-Cleared_example = clear-Cleared demo_names people_only
