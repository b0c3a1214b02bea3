-- ===== src/Bidding/Close/Outcome.antt =====
-- apps/bidding/services.py: what `close_auction` does, on every branch.
use mbarara_auction.Prelude.{ℕ, ◌≡◌, refl, ap, ◌∙◌, String, true, Option, none, some, arith}
use mbarara_auction.Table.{get, modify, get-modify}
use mbarara_auction.Models.{Db}
use mbarara_auction.Models.Auctions.{AuctionStatus, Auction, is_live}
use mbarara_auction.Exec.{Result}
use mbarara_auction.Core.{Core, core}
use mbarara_auction.Notifications.Events.{notify_auction_closed_no_winner}
use mbarara_auction.Notifications.Recipients.{bidder_user}
use mbarara_auction.Auctions.Lifecycle.{is_allowed}
use mbarara_auction.Auctions.Services.{lock, with_status}
use mbarara_auction.Auctions.Services.Transitions.{moved, transition-eq_returned}
use mbarara_auction.Payments.Due.{due_payments, create_pending_payment-core}
use mbarara_auction.Bidding.Queries.{highest_bid}
use mbarara_auction.Bidding.Close.{
  Decision, decide_winner, with_decision, save_decision, congratulate, announce_to, announce,
  close_auction,
}

-- What a sale, or the lack of one, adds to the payments.
abbrev pub sold : ℕ → Auction → Core → Core
sold k a c = record c { payments = due_payments k a.winner a.final_price c.clock c.payments }

core-congratulate :
    (winner k : ℕ) (a : Auction) (actor : Option ℕ) (db : Db)
    → core (congratulate winner k a actor db) ≡ core db
unfolding congratulate
core-congratulate winner k a actor db = refl

core-no_winner :
    (k : ℕ) (a : Auction) (db : Db) → core (notify_auction_closed_no_winner k a db) ≡ core db
unfolding notify_auction_closed_no_winner
core-no_winner k a db = refl

announce_to-core :
    (winner : Option ℕ) (k : ℕ) (a : Auction) (actor : Option ℕ) (db : Db)
    → a.winner ≡ winner
    → (db' : Db) × (announce_to winner k a actor db ≡ Result.returned tt db')
      × (core db' ≡ sold k a (core db))
unfolding announce_to
announce_to-core none k a actor db same = (_, refl, simp same (core-no_winner k a db))
announce_to-core (some winner) k a actor db same =
    let (r, db', e, c) = create_pending_payment-core k a (congratulate winner k a actor db) in
    (db', rw e, c ∙ ap (sold k a) (core-congratulate winner k a actor db))

-- The auction's row once it is decided and closed.
abbrev pub closed_row : Decision → ℕ → Auction → Auction
closed_row d now a = with_status AuctionStatus.closed now (with_decision d now a)

abbrev pub decided : ℕ → Decision → Core → Core
decided k d c = record c { auctions = modify k (with_decision d c.clock) c.auctions }

live_may_close : (s : AuctionStatus) → is_live s ≡ true → is_allowed s AuctionStatus.closed ≡ true
unfolding is_allowed
live_may_close s h = ground arith

pub close_auction-eq_returned :
    (k : ℕ) (a : Auction) (actor : Option ℕ) (reason : String) (db : Db)
    → get k db.auctions ≡ some a
    → is_live a.status ≡ true
    → let d = decide_winner a (highest_bid k db.bids.rows) (bidder_user db) in
      let row = closed_row d db.clock a in
      (db' : Db) × (close_auction k actor reason db ≡ Result.returned row db')
      × (core db'
          ≡ sold k row (
              moved k
                (with_decision d db.clock a)
                AuctionStatus.closed
                actor
                reason
                (decided k d (core db))))
unfolding close_auction lock announce save_decision
close_auction-eq_returned k a actor reason db found live =
    let d = decide_winner a (highest_bid k db.bids.rows) (bidder_user db) in
    let db1 = save_decision k d db in
    let a1 = with_decision d db.clock a in
    let found1 : get k db1.auctions ≡ some a1 =
      ground (arith, get-modify k k (with_decision d db.clock) db.auctions) in
    let (db2, e2, c2) =
      transition-eq_returned k a1 AuctionStatus.closed actor reason db1 found1
        (live_may_close a.status live) refl in
    let (db3, e3, c3) = announce_to-core d.winner k (closed_row d db.clock a) actor db2 refl in
    (db3, rw found (rw (live) (rw e2 (rw e3))), c3 ∙ ap (sold k (closed_row d db.clock a)) c2)
