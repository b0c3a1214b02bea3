-- ===== src/Tests/System.antt =====
-- The invariants of the platform on the small databases.
use mbarara_auction.Prelude.{length, ℕ, zero, suc, ◌≡◌, refl, some, arith}
use mbarara_auction.Table.{get, create, modify}
use mbarara_auction.Models.{Db}
use mbarara_auction.Models.Auctions.{AuctionStatus, Auction}
use mbarara_auction.Exec.{returned, final}
use mbarara_auction.Core.{core}
use mbarara_auction.Notifications.Notify.{seller_user}
use mbarara_auction.Auctions.Lifecycle.{is_allowed, audit_action}
use mbarara_auction.Auctions.Services.{lock, with_status, record_transition, transition}
use mbarara_auction.Bidding.Highest.{IsInSync}
use mbarara_auction.Scheduling.Controls.{start_now, pull_start}
use mbarara_auction.Scheduling.Sweep.{due_to_close, close_ended_auctions}
use mbarara_auction.Scheduling.Sweep.Closing.{close_ended_auctions-closed}
use mbarara_auction.System.Step.{Steps}
use mbarara_auction.System.Refinement.Moves.{transition-Steps}
use mbarara_auction.System.Refinement.Bids.{place_bid-Steps}
use mbarara_auction.System.Refinement.Aftermath.{open_dispute-Steps}
use mbarara_auction.System.Invariants.Keys.{Steps-IsSound}
use mbarara_auction.System.Invariants.Sound.{IsSound}
use mbarara_auction.System.Invariants.Statuses.{Follows}
use mbarara_auction.System.Invariants.Lifecycle.{Steps-Follows}
use mbarara_auction.System.Invariants.Logs.{IsLogged, Steps-IsLogged}
use mbarara_auction.System.Invariants.Highest.{Steps-IsInSync}
use mbarara_auction.System.Invariants.Disputed.{IsDisputeKept}
use mbarara_auction.System.Invariants.Disputes.{Steps-IsDisputeKept}
use mbarara_auction.Models.Disputes.{Category}
use mbarara_auction.Tests.Data.{
  market, bob, bid_of_120, cow, goat, sale, drafts, draft_cow, after_review, rejected_cow,
}
use mbarara_auction.Tests.Bidding.{after_120, place_bid_works, market-IsInSync, cow_is_there}
use mbarara_auction.Tests.Services.{after_complaint, open_dispute_works}

runs : ℕ
unfolding get create modify lock transition record_transition is_allowed audit_action start_now
    pull_start seller_user
runs = 0

market-IsSound : IsSound (core market)
market-IsSound = record {
  auctions_keyed = (omega arith, (omega arith, tt));
  bids_keyed = (omega arith, tt);
  disputes_keyed = tt;
  bids_known = (omega arith, tt);
  disputes_known = tt;
  logs_known = tt;
}

bid-Steps : Steps (core market) (core after_120)
bid-Steps = place_bid-Steps 0 2 bob bid_of_120 market place_bid_works

Steps-IsSound_example : IsSound (core after_120)
Steps-IsSound_example = Steps-IsSound bid-Steps market-IsSound

Steps-IsInSync_example : IsInSync after_120.auctions after_120.bids
Steps-IsInSync_example = Steps-IsInSync bid-Steps market-IsSound market-IsInSync

Steps-Follows_example :
    (a' : Auction) × (get 0 after_120.auctions ≡ some a') × Follows AuctionStatus.live a'.status
Steps-Follows_example = Steps-Follows 0 cow bid-Steps market-IsSound cow_is_there

sale-IsSound : IsSound (core sale)
sale-IsSound = record {
  auctions_keyed = (omega arith, tt);
  bids_keyed = (omega arith, tt);
  disputes_keyed = tt;
  bids_known = (omega arith, tt);
  disputes_known = tt;
  logs_known = tt;
}

sale-IsDisputeKept : IsDisputeKept sale.auctions sale.disputes
unfolding get
sale-IsDisputeKept zero a found = ground arith
sale-IsDisputeKept (suc k) a found = ground arith

Steps-IsDisputeKept_example : IsDisputeKept after_complaint.auctions after_complaint.disputes
Steps-IsDisputeKept_example =
    Steps-IsDisputeKept
      (open_dispute-Steps 0 2 (some Category.not_delivered) "No cow came" sale open_dispute_works)
      sale-IsSound sale-IsDisputeKept

drafts-IsSound : IsSound (core drafts)
drafts-IsSound = record {
  auctions_keyed = (omega arith, tt);
  bids_keyed = (omega arith, tt);
  disputes_keyed = tt;
  bids_known = (omega arith, tt);
  disputes_known = tt;
  logs_known = tt;
}

drafts-IsLogged : IsLogged drafts.auctions drafts.status_logs
unfolding get
drafts-IsLogged zero a found = ground arith
drafts-IsLogged (suc k) a found = ground arith

abbrev after_submission : Db
after_submission = final (transition 0 AuctionStatus.submitted (some 0) "" drafts)

submission_works :
    transition 0 AuctionStatus.submitted (some 0) "" drafts
    ≡ returned (with_status AuctionStatus.submitted 3_480_000_000 draft_cow) after_submission
unfolding runs
submission_works = refl

Steps-IsLogged_example : IsLogged after_submission.auctions after_submission.status_logs
Steps-IsLogged_example =
    Steps-IsLogged
      (transition-Steps 0 AuctionStatus.submitted (some 0) "" drafts refl submission_works)
      drafts-IsSound drafts-IsLogged

after_review-IsSound : IsSound (core after_review)
after_review-IsSound = record {
  auctions_keyed = (omega arith, (omega arith, tt));
  bids_keyed = (omega arith, tt);
  disputes_keyed = tt;
  bids_known = (omega arith, tt);
  disputes_known = tt;
  logs_known = tt;
}

abbrev after_goat : Db
after_goat = final (start_now 1 (some 3) after_review)

start_goat_works :
    start_now 1 (some 3) after_review
    ≡ returned (with_status AuctionStatus.live 3_480_000_000 goat) after_goat
unfolding runs
start_goat_works = refl

rejected_is_there : get 0 after_review.auctions ≡ some rejected_cow
unfolding get
rejected_is_there = refl

-- Both auctions have ended.
abbrev late : Db
late = record market { clock = 4_000_000_000 }

late_cow_is_there : get 0 late.auctions ≡ some cow
unfolding get
late_cow_is_there = refl

close_ended_auctions-closed_example :
    (db' : Db) × (a' : Auction) × (close_ended_auctions late
      ≡ returned (length (due_to_close late)) db')
    × (get 0 db'.auctions ≡ some a')
    × (a'.status ≡ AuctionStatus.closed)
close_ended_auctions-closed_example =
    close_ended_auctions-closed late 0 cow (omega arith, (omega arith, tt)) late_cow_is_there refl
      (omega arith)
