-- ===== src/Notifications/Events.antt =====
-- apps/notifications/services.py: the wrappers for events of auctions and payments.
use mathlib.Core.Option
use mbarara_auction.Prelude.{
  ℕ, String, Bool, not, ◌&&◌, Option, none, some, ltb, ◌==◌, if◌then◌else◌, first_by, select,
}
use mbarara_auction.Table.{get}
use mbarara_auction.Models.{Db}
use mbarara_auction.Models.Auctions.{Auction}
use mbarara_auction.Models.Bidding.{Bid, is_accepted}
use mbarara_auction.Models.Payments.{Payment}
use mbarara_auction.Models.Disputes.{Dispute}
use mbarara_auction.Models.Records.{Event, Message, Link, ObjectType, ObjectRef}
use mbarara_auction.Notifications.Notify.{notify, seller_user}

abbrev pub auction_ref : ℕ → Option ObjectRef
auction_ref k = some (record { kind = ObjectType.auction_type; key = k })

abbrev pub payment_ref : ℕ → Option ObjectRef
payment_ref k = some (record { kind = ObjectType.payment_type; key = k })

abbrev pub dispute_ref : ℕ → Option ObjectRef
dispute_ref k = some (record { kind = ObjectType.dispute_type; key = k })

-- `order_by("-amount", "-sequence_no")`
abbrev pub higher_or_later : ℕ × Bid → ℕ × Bid → Bool
higher_or_later (_, a) (_, b) =
    if a.amount == b.amount then ltb b.sequence_no a.sequence_no else ltb b.amount a.amount

-- the accepted bids of an auction but one
abbrev pub other_accepted : ℕ → ℕ → ℕ × Bid → Bool
other_accepted auction key (k, b) = b.auction == auction && is_accepted b.status && not (k == key)

-- The user to tell: the holder of the highest other bid, unless it is the same bidder.
unfoldable pub outbid_recipient : ℕ → Bid → Db → Option ℕ
outbid_recipient key bid db =
    elim (first_by higher_or_later (select (other_accepted bid.auction key) db.bids.rows)) [
      | none ↦ none
      | some (_, previous) ↦
          if previous.bidder == bid.bidder
          then none
          else Option.map (λ p. p.user) (get previous.bidder db.bidders)
    ]

unfoldable pub notify_outbid : ℕ → Bid → String → Db → Db
unfolding notify
notify_outbid key bid title db =
    notify (outbid_recipient key bid db) Event.outbid (Message.higher_bid bid.amount title)
      (auction_ref bid.auction) (Link.auction_page bid.auction) db

unfoldable pub notify_auction_won : ℕ → Auction → Db → Db
unfolding notify
notify_auction_won k a =
    notify a.winner Event.auction_won (Message.won a.title a.final_price) (auction_ref k)
      (Link.auction_page k)

-- Tells the seller about an auction.
unfoldable pub notify_seller : ℕ → Auction → Event → Message → Link → Db → Db
unfolding notify
notify_seller k a event message link db =
    notify (seller_user db a) event message (auction_ref k) link db

unfoldable pub notify_auction_closed_no_winner : ℕ → Auction → Db → Db
unfolding notify_seller
notify_auction_closed_no_winner k a =
    notify_seller k a Event.auction_closed_no_winner (Message.closed_without_winner a.title)
      (Link.auction_page k)

unfoldable pub notify_auction_live : ℕ → Auction → Db → Db
unfolding notify_seller
notify_auction_live k a =
    notify_seller k a Event.auction_live (Message.now_live a.title) (Link.auction_page k)

unfoldable pub notify_listing_approved : ℕ → Auction → Db → Db
unfolding notify_seller
notify_listing_approved k a =
    notify_seller k a Event.listing_approved (Message.approved_and_scheduled a.title)
      (Link.auction_page k)

unfoldable pub notify_listing_rejected : ℕ → Auction → String → Db → Db
unfolding notify_seller
notify_listing_rejected k a reason =
    notify_seller k a Event.listing_rejected (Message.rejected a.title reason) Link.no_link

-- `payment.buyer`, `payment.seller_user` and the title of `payment.auction`
abbrev pub buyer : Db → Payment → Option ℕ
buyer db p = elim (get p.auction db.auctions) [ none ↦ none | some a ↦ a.winner ]

abbrev pub payment_seller : Db → Payment → Option ℕ
payment_seller db p = elim (get p.auction db.auctions) [ none ↦ none | some a ↦ seller_user db a ]

abbrev pub auction_title : Db → ℕ → String
auction_title db k = elim (get k db.auctions) [ none ↦ "" | some a ↦ a.title ]

-- The buyer, then the seller.
unfoldable pub notify_payment_received : ℕ → Payment → Db → Db
unfolding notify
notify_payment_received key p db =
    let title = auction_title db p.auction in
    notify (payment_seller db p) Event.payment_received (Message.seller_payment p.amount title)
      (payment_ref key) (Link.auction_page p.auction)
      (notify (buyer db p) Event.payment_received (Message.your_payment p.amount title)
        (payment_ref key) (Link.auction_page p.auction) db)

unfoldable pub notify_payment_failed : ℕ → Payment → String → Db → Db
unfolding notify
notify_payment_failed key p reason db =
    notify (buyer db p) Event.payment_failed
      (Message.payment_issue (auction_title db p.auction) reason) (payment_ref key)
      (Link.auction_page p.auction) db

unfoldable pub notify_dispute_opened : ℕ → Dispute → ℕ → Db → Db
unfolding notify
notify_dispute_opened key d recipient db =
    notify (some recipient) Event.dispute_opened
      (Message.dispute_raised d.category (auction_title db d.auction)) (dispute_ref key)
      (Link.dispute_page key) db

unfoldable pub notify_dispute_resolved : ℕ → Dispute → ℕ → Db → Db
unfolding notify
notify_dispute_resolved key d recipient db =
    notify (some recipient) Event.dispute_resolved
      (Message.dispute_result d.outcome (auction_title db d.auction)) (dispute_ref key)
      (Link.dispute_page key) db
