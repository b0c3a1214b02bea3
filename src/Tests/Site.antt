-- ===== src/Tests/Site.antt =====
-- The site's views, the reports and the payments of the small databases.
use mbarara_auction.Prelude.{[], ℕ, ◌≤◌, ◌≡◌, refl, some, none, true, false, arith}
use mbarara_auction.Table.{get, create, modify}
use mbarara_auction.Models.{Db}
use mbarara_auction.Models.Accounts.{is_officer_or_admin, is_eligible_to_bid}
use mbarara_auction.Models.Auctions.{AuctionStatus, is_biddable, clean}
use mbarara_auction.Models.Bidding.{Bid}
use mbarara_auction.Exec.{returned, final}
use mbarara_auction.Core.{core}
use mbarara_auction.Accounts.Permissions.{require_user, require_seller, has_role, check_owner}
use mbarara_auction.Notifications.Notify.{seller_user}
use mbarara_auction.Bidding.Amount.{pos, validate_amount}
use mbarara_auction.Bidding.Queries.{bidder_profile, minimum_permitted}
use mbarara_auction.Bidding.Place.{place_bid}
use mbarara_auction.Web.Replies.{Reply}
use mbarara_auction.Web.Listings.{
  new_listing, ListingForm, is_valid_form, own_draft_or_403, seller_profile_or_403, create_listing,
  edit_listing, insert_auction, save_listing,
}
use mbarara_auction.Web.Bids.{can_bid}
use mbarara_auction.Web.Guards.{create_listing-Steps}
use mbarara_auction.Web.Offers.{can_bid-place_bid}
use mbarara_auction.Auctions.Lifecycle.{is_allowed, audit_action}
use mbarara_auction.Auctions.Services.{lock, with_status, record_transition, transition}
use mbarara_auction.System.Reachable.{empty_core, IsConsistent, Steps-IsConsistent}
use mbarara_auction.System.Refinement.Moves.{transition-Steps}
use mbarara_auction.System.Step.{Step, Steps, one, append}
use mbarara_auction.System.Refinement.Aftermath.{open_dispute-Steps}
use mbarara_auction.System.Invariants.Payments.{payment_count, Steps-payment_count}
use mbarara_auction.Models.Disputes.{Category}
use mbarara_auction.Tests.Data.{market, drafts, sale, bob, seller, bid_of_120, cow}
use mbarara_auction.Tests.Bidding.{cow_is_there}
use mbarara_auction.Tests.Services.{after_complaint, open_dispute_works}

abbrev sheep : ListingForm
sheep = record {
  category = 0;
  title = "Sheep";
  description = "";
  location = "Mbarara";
  starting_price = 5000;
  reserve_price = none;
  min_increment = 500;
  start_time = 1;
  end_time = 2;
  extension_minutes = 5;
}

runs : ℕ
unfolding get create modify require_user require_seller has_role check_owner seller_user
    is_valid_form own_draft_or_403 seller_profile_or_403 create_listing edit_listing insert_auction
    save_listing clean is_officer_or_admin can_bid is_biddable bidder_profile is_eligible_to_bid
    validate_amount minimum_permitted lock transition record_transition is_allowed audit_action
runs = 0

abbrev after_edit : Db
after_edit = final (edit_listing (some (0, seller)) 0 (some sheep) true drafts)

abbrev after_listing : Db
after_listing = final (create_listing (some (0, seller)) (some sheep) market)

listing_works :
    create_listing (some (0, seller)) (some sheep) market ≡ returned Reply.success after_listing
unfolding runs
listing_works = refl

bob_is_not_staff : is_officer_or_admin bob ≡ false
unfolding runs
bob_is_not_staff = refl

bob_is_offered : can_bid (some (2, bob)) cow market ≡ true
unfolding runs
bob_is_offered = refl

amount_is_valid : validate_amount bid_of_120 market ≡ returned (pos 12000) market
unfolding runs
amount_is_valid = refl

bid_is_enough : minimum_permitted cow ≤ 12000
unfolding runs
bid_is_enough = omega arith

can_bid-place_bid_example :
    (b : Bid) × (db' : Db) × (place_bid 0 2 bob bid_of_120 market ≡ returned (1, b) db')
can_bid-place_bid_example =
    can_bid-place_bid 0 2 bob cow bid_of_120 12000 market cow_is_there bob_is_offered
      amount_is_valid bid_is_enough (omega arith)

sale_is_paid_once : (k : ℕ) → payment_count k sale.payments.rows ≤ 1
sale_is_paid_once k = ground arith

Steps-payment_count_example : payment_count 0 after_complaint.payments.rows ≤ 1
Steps-payment_count_example =
    Steps-payment_count
      (open_dispute-Steps 0 2 (some Category.not_delivered) "No cow came" sale open_dispute_works)
      sale_is_paid_once 0

-- The people of the market, before anything is listed.
abbrev opening_day : Db
opening_day = record market {
  auctions = record { rows = []; next = 0 };
  bids = record { rows = []; next = 0 };
}

abbrev first_listing : Db
first_listing = final (create_listing (some (0, seller)) (some sheep) opening_day)

first_listing_works :
    create_listing (some (0, seller)) (some sheep) opening_day
    ≡ returned Reply.success first_listing
unfolding runs
first_listing_works = refl

abbrev first_submission : Db
first_submission = final (transition 0 AuctionStatus.submitted (some 0) "" first_listing)

first_submission_works :
    transition 0 AuctionStatus.submitted (some 0) "" first_listing
    ≡ returned
        (with_status AuctionStatus.submitted 3_480_000_000 (new_listing 0 3_480_000_000 sheep))
        first_submission
unfolding runs
first_submission_works = refl

first_day-Steps : Steps (empty_core 3_480_000_000) (core first_submission)
first_day-Steps = append (one (Step.people market.users market.sellers market.bidders)) (
    append (create_listing-Steps (some (0, seller)) (some sheep) opening_day first_listing_works) (
      transition-Steps 0 AuctionStatus.submitted (some 0) "" first_listing refl
        first_submission_works))

Steps-IsConsistent_example : IsConsistent (core first_submission)
Steps-IsConsistent_example = Steps-IsConsistent 3_480_000_000 first_day-Steps
