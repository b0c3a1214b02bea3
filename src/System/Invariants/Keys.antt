-- ===== src/System/Invariants/Keys.antt =====
-- The keys of the tables: fresh keys are new, and the bids, disputes and status logs refer to
-- auctions that were created.
use mbarara_auction.Prelude.{ℕ, ◌≡◌, refl, sym, subst, String, Bool, Option, some, arith}
use mbarara_auction.Table.{Table, get, modify, get-modify}
use mbarara_auction.Table.References.{below_next}
use mbarara_auction.Models.Auctions.{AuctionStatus, Auction}
use mbarara_auction.Models.Bidding.{Bid}
use mbarara_auction.Models.Disputes.{Dispute}
use mbarara_auction.Models.Payments.{Payment}
use mbarara_auction.Auctions.Services.{with_status}
use mbarara_auction.Bidding.Queries.{highest_bid}
use mbarara_auction.Bidding.Close.{decide_winner, with_decision}
use mbarara_auction.Disputes.Services.{resolved_reason}
use mbarara_auction.Core.{Core}
use mbarara_auction.Auctions.Services.Transitions.{moved, get-moved}
use mbarara_auction.Payments.Outcome.{Settled}
use mbarara_auction.Bidding.Close.Outcome.{decided}
use mbarara_auction.Disputes.Services.Results.{Refunds, Restored}
use mbarara_auction.System.Step.{Step, Steps, closed_core}
use mbarara_auction.System.Invariants.Sound.{
  IsSound, on_auctions, on_log, on_new_bid, on_bids, on_new_dispute, on_disputes, on_new_auction,
  on_rest,
}

pub moved-IsSound :
    {c : Core} (k : ℕ) (a : Auction) (to : AuctionStatus) (actor : Option ℕ) (reason : String)
    → IsSound c
    → get k c.auctions ≡ some a
    → IsSound (moved k a to actor reason c)
unfolding modify
moved-IsSound {c} k a to actor reason s found =
    on_log (on_auctions s k (with_status to c.clock)) _
      (below_next k a c.auctions s.auctions_keyed found)

Settled-IsSound :
    {k : ℕ} {actor : Option ℕ} {c c' : Core} → Settled k actor c c' → IsSound c → IsSound c'
Settled-IsSound {k} {actor} (Settled.settled a found closed e) s =
    subst IsSound (sym e) (moved-IsSound k a AuctionStatus.settled actor _ s found)
Settled-IsSound (Settled.left_alone a found other e) s = subst IsSound (sym e) s

payments-IsSound :
    {c : Core} {payments : Table Payment} → IsSound c → IsSound (record c { payments = payments })
payments-IsSound {c} s = on_rest s c.users c.sellers c.bidders _ c.clock

Refunds-IsSound :
    {k : ℕ} {actor : Option ℕ} {reason : String} {c c' : Core} {refund : Bool}
    → Refunds k actor reason c c' refund
    → IsSound c
    → IsSound c'
Refunds-IsSound (Refunds.no_refund not_asked e) s = subst IsSound (sym e) s
Refunds-IsSound (Refunds.refunds key p asked found paid e) s =
    subst IsSound (sym e) (payments-IsSound s)

Restored-IsSound :
    {key : ℕ} {d : Dispute} {refund : Bool} {actor : Option ℕ} {c c' : Core}
    → Restored key d refund actor c c'
    → IsSound c
    → IsSound c'
Restored-IsSound {key} {d} {actor = actor} (Restored.to_closed a stays found allowed e) s =
    subst IsSound (sym e) (moved-IsSound d.auction a AuctionStatus.closed actor _ s found)
Restored-IsSound {key} {d} {actor = actor} {c} (Restored.to_settled a on found allowed e) s =
    subst IsSound (sym e) (
      moved-IsSound d.auction (with_status AuctionStatus.closed c.clock a) AuctionStatus.settled
        actor _ (moved-IsSound d.auction a AuctionStatus.closed actor (resolved_reason key) s found)
        (get-moved d.auction a AuctionStatus.closed actor (resolved_reason key) c found))

closed_core-IsSound :
    {c : Core} (k : ℕ) (a : Auction) (user_of : Bid → Option ℕ) (actor : Option ℕ) (reason : String)
    → IsSound c
    → get k c.auctions ≡ some a
    → IsSound (closed_core k a user_of actor reason c)
closed_core-IsSound {c} k a user_of actor reason s found =
    let d = decide_winner a (highest_bid k c.bids.rows) user_of in
    let at_k : get k (decided k d c).auctions ≡ some (with_decision d c.clock a) =
      ground (arith, get-modify k k (with_decision d c.clock) c.auctions) in
    on_rest
      (moved-IsSound k (with_decision d c.clock a) AuctionStatus.closed actor reason
        (on_auctions s k (with_decision d c.clock)) at_k)
      c.users c.sellers c.bidders _ c.clock

-- One step keeps the tables sound.
Step-IsSound : {c d : Core} → Step c d → IsSound c → IsSound d
unfolding modify
Step-IsSound {c} (Step.move k a to actor reason found allowed plain) s =
    moved-IsSound k a to actor reason s found
Step-IsSound {c} (Step.bid k a bidder amount found live open_now enough positive) s =
    on_new_bid (on_auctions s k _) _ (below_next k a c.auctions s.auctions_keyed found)
Step-IsSound {c} (Step.invalidate k a key b actor reason found at_key its reasoned) s =
    on_bids (on_auctions s k _) key _ (λ x. refl)
Step-IsSound {c} (Step.close k a user_of actor reason found live) s =
    closed_core-IsSound k a user_of actor reason s found
Step-IsSound {c} (Step.schedule k a start end found may) s = on_auctions s k _
Step-IsSound (Step.pay key p actor method reference notes found pending w) s =
    Settled-IsSound w (payments-IsSound s)
Step-IsSound (Step.fail_payment key p actor reason found pending) s = payments-IsSound s
Step-IsSound (Step.refund key p actor notes found paid) s = payments-IsSound s
Step-IsSound {c} (Step.dispute k user a category description reason found disputable inactive) s =
    moved-IsSound k a AuctionStatus.disputed (some user) reason
      (on_new_dispute s _ (below_next k a c.auctions s.auctions_keyed found)) found
Step-IsSound (Step.take key d actor found opened) s = on_disputes s key _ (λ x. refl)
Step-IsSound
      (Step.resolve key d actor outcome reason notes refund refunded restored found active r w) s =
    on_disputes (Restored-IsSound w (Refunds-IsSound r s)) key _ (λ x. refl)
Step-IsSound (Step.list_auction a draft) s = on_new_auction s a
Step-IsSound (Step.edit_listing k a a' found draft draft' same) s = on_auctions s k _
Step-IsSound {c} (Step.people users sellers bidders) s =
    on_rest s users sellers bidders c.payments c.clock
Step-IsSound {c} (Step.pass_time now later) s = on_rest s c.users c.sellers c.bidders c.payments now

-- Keys stay fresh and references known, whatever the platform does.
pub Steps-IsSound : {c d : Core} → Steps c d → IsSound c → IsSound d
Steps-IsSound Steps.here s = s
Steps-IsSound (Steps.then t u) s = Step-IsSound u (Steps-IsSound t s)
