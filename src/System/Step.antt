-- ===== src/System/Step.antt =====
-- The abstract steps: what one service may do to the tables that the services decide by.
use mbarara_auction.Prelude.{
  ℕ, ◌≤◌, ◌<◌, ◌≡◌, String, Bool, true, false, Option, none, some, is_empty, any,
}
use mbarara_auction.Table.{Table, get, modify, create, change}
use mbarara_auction.Models.Accounts.{User, SellerProfile, BidderProfile}
use mbarara_auction.Models.Auctions.{AuctionStatus, Auction, is_live, is_scheduled, is_open_at}
use mbarara_auction.Models.Bidding.{Bid}
use mbarara_auction.Models.Payments.{Payment, is_pending, is_paid}
use mbarara_auction.Models.Disputes.{Category, Outcome, Dispute, is_active, is_open}
use mbarara_auction.Core.{Core}
use mbarara_auction.Auctions.Lifecycle.{is_allowed}
use mbarara_auction.Auctions.Services.Transitions.{moved}
use mbarara_auction.Bidding.Queries.{highest_bid, highest_amount, next_sequence, minimum_permitted}
use mbarara_auction.Bidding.Place.{new_bid, with_bid, new_end}
use mbarara_auction.Bidding.Invalidate.{as_invalidated, with_highest}
use mbarara_auction.Bidding.Close.{decide_winner, with_decision}
use mbarara_auction.Bidding.Close.Outcome.{closed_row, decided, sold}
use mbarara_auction.Scheduling.Controls.{is_running}
use mbarara_auction.Scheduling.Controls.Outcome.{rescheduled}
use mbarara_auction.Payments.{as_paid, as_failed, as_refunded}
use mbarara_auction.Payments.Outcome.{repaid, Settled}
use mbarara_auction.Disputes.Access.{is_disputable, is_active_on}
use mbarara_auction.Disputes.Services.{new_dispute}
use mbarara_auction.Disputes.Services.Results.{Refunds, Restored, resolved_core}
use mbarara_auction.Disputes.Services.Opening.{disputed_core, taken}

-- The moves that are a service of their own: those to CLOSED, SETTLED and DISPUTED come only as
-- parts of other steps, and no service moves an auction to COMPLETED.
abbrev pub is_plain : AuctionStatus → Bool
is_plain AuctionStatus.submitted = true
is_plain AuctionStatus.approved = true
is_plain AuctionStatus.rejected = true
is_plain AuctionStatus.scheduled = true
is_plain AuctionStatus.live = true
is_plain AuctionStatus.paused = true
is_plain AuctionStatus.cancelled = true
is_plain _ = false

abbrev pub bid_core : ℕ → Auction → ℕ → ℕ → Core → Core
bid_core k a bidder amount c = record c {
  auctions = modify k (with_bid amount (new_end a c.clock) c.clock) c.auctions;
  bids = create (new_bid k bidder amount (next_sequence k c.bids.rows) c.clock) c.bids;
}

abbrev pub invalidated_core : ℕ → ℕ → Option ℕ → String → Core → Core
invalidated_core k key actor reason c =
    let f = as_invalidated actor reason c.clock in
    record c {
      auctions =
          modify k (with_highest (highest_amount k (change key f c.bids.rows)) c.clock) c.auctions;
      bids = modify key f c.bids;
    }

abbrev pub closed_core : ℕ → Auction → (Bid → Option ℕ) → Option ℕ → String → Core → Core
closed_core k a user_of actor reason c =
    let d = decide_winner a (highest_bid k c.bids.rows) user_of in
    sold k (closed_row d c.clock a)
      (moved k (with_decision d c.clock a) AuctionStatus.closed actor reason (decided k d c))

-- A new schedule of a scheduled, live or paused auction.
pub record MaySchedule (a : Auction) (start end now : ℕ) : Type 0 where
  pub running : is_running a.status ≡ true
  pub ordered : start < end
  pub ends_later : now < end
  pub start_kept : is_scheduled a.status ≡ false → start ≡ a.start_time
  pub only_extended : is_live a.status ≡ true → a.end_time ≤ end

-- A listing as its seller saves it: a draft without a bid or a result.
pub record IsDraft (a : Auction) : Type 0 where
  pub draft : a.status ≡ AuctionStatus.draft
  pub no_bid : a.current_highest_bid ≡ none
  pub no_winner : a.winner ≡ none
  pub no_price : a.final_price ≡ none

pub data Step (c : Core) : Core → Type 0 where
  move :
      (k : ℕ) (a : Auction) (to : AuctionStatus) (actor : Option ℕ) (reason : String)
      → get k c.auctions ≡ some a
      → is_allowed a.status to ≡ true
      → is_plain to ≡ true
      → Step c (moved k a to actor reason c)
  bid :
      (k : ℕ) (a : Auction) (bidder amount : ℕ)
      → get k c.auctions ≡ some a
      → is_live a.status ≡ true
      → is_open_at a c.clock ≡ true
      → minimum_permitted a ≤ amount
      → 0 < amount
      → Step c (bid_core k a bidder amount c)
  invalidate :
      (k : ℕ) (a : Auction) (key : ℕ) (b : Bid) (actor : Option ℕ) (reason : String)
      → get k c.auctions ≡ some a
      → get key c.bids ≡ some b
      → b.auction ≡ k
      → is_empty reason ≡ false
      → Step c (invalidated_core k key actor reason c)
  close :
      (k : ℕ) (a : Auction) (user_of : Bid → Option ℕ) (actor : Option ℕ) (reason : String)
      → get k c.auctions ≡ some a
      → is_live a.status ≡ true
      → Step c (closed_core k a user_of actor reason c)
  schedule :
      (k : ℕ) (a : Auction) (start end : ℕ)
      → get k c.auctions ≡ some a
      → MaySchedule a start end c.clock
      → Step c (rescheduled k start end c)
  pay :
      (key : ℕ) (p : Payment) (actor : Option ℕ) (method reference notes : String) {c' : Core}
      → get key c.payments ≡ some p
      → is_pending p.status ≡ true
      → Settled p.auction actor (repaid key (as_paid actor method reference notes) c) c'
      → Step c c'
  fail_payment :
      (key : ℕ) (p : Payment) (actor : Option ℕ) (reason : String)
      → get key c.payments ≡ some p
      → is_pending p.status ≡ true
      → Step c (repaid key (as_failed actor reason) c)
  refund :
      (key : ℕ) (p : Payment) (actor : Option ℕ) (notes : String)
      → get key c.payments ≡ some p
      → is_paid p.status ≡ true
      → Step c (repaid key (as_refunded actor notes) c)
  dispute :
      (k user : ℕ) (a : Auction) (category : Category) (description reason : String)
      → get k c.auctions ≡ some a
      → is_disputable a.status ≡ true
      → any (is_active_on k) c.disputes.rows ≡ false
      → Step c (
          moved k a AuctionStatus.disputed
            (some user)
            reason
            (disputed_core (new_dispute k user category description a.status c.clock) c))
  take :
      (key : ℕ) (d : Dispute) (actor : Option ℕ)
      → get key c.disputes ≡ some d
      → is_open d.status ≡ true
      → Step c (taken key actor c)
  resolve :
      (key : ℕ) (d : Dispute) (actor : Option ℕ) (outcome : Outcome) (reason notes : String)
      (refund : Bool) (refunded restored : Core)
      → get key c.disputes ≡ some d
      → is_active d.status ≡ true
      → Refunds d.auction actor reason c refunded refund
      → Restored key d refund actor refunded restored
      → Step c (resolved_core key actor outcome notes refund restored)
  list_auction : (a : Auction) → IsDraft a → Step c (record c { auctions = create a c.auctions })
  edit_listing :
      (k : ℕ) (a a' : Auction)
      → get k c.auctions ≡ some a
      → a.status ≡ AuctionStatus.draft
      → a'.status ≡ AuctionStatus.draft
      → a'.current_highest_bid ≡ a.current_highest_bid
      → Step c (record c { auctions = modify k (λ _. a') c.auctions })
  people :
      (users : Table User) (sellers : Table SellerProfile) (bidders : Table BidderProfile)
      → Step c (record c { users = users; sellers = sellers; bidders = bidders })
  pass_time : (now : ℕ) → c.clock ≤ now → Step c (record c { clock = now })

pub data Steps (c : Core) : Core → Type 0 where
  here : Steps c c
  then : {d e : Core} → Steps c d → Step d e → Steps c e

pub one : {c d : Core} → Step c d → Steps c d
one s = Steps.then Steps.here s

pub append : {c d e : Core} → Steps c d → Steps d e → Steps c e
append s Steps.here = s
append s (Steps.then t u) = Steps.then (append s t) u
