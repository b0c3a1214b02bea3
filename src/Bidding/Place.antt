-- ===== src/Bidding/Place.antt =====
-- apps/bidding/services.py: `place_bid`
pub mod Effects
pub mod Extension
pub mod Accepts
use mbarara_auction.Prelude.{
  ℕ, ◌+◌, ◌-◌, ◌*◌, String, Bool, true, false, not, ◌&&◌, ◌||◌, Option, none, some, List, [], ◌∷◌,
  leb, ltb, ◌==◌, if◌then◌else◌, any, is_some,
}
use mbarara_auction.Table.{Table, get, modify, create}
use mbarara_auction.Models.{Db}
use mbarara_auction.Models.Accounts.{User, is_eligible_to_bid}
use mbarara_auction.Models.Auctions.{AuctionStatus, Auction, is_live, is_open_at}
use mbarara_auction.Models.Bidding.{BidStatus, Bid}
use mbarara_auction.Models.Records.{Action, ObjectType, ObjectRef, Value}
use mbarara_auction.Errors.{Error, BidRejection}
use mbarara_auction.Exec.{Exec, pure, gets, or_raise, raise_if, effect, atomic, ◌>>=◌, ◌>>◌}
use mbarara_auction.Audit.{audit}
use mbarara_auction.Notifications.Notify.{seller_user}
use mbarara_auction.Notifications.Events.{notify_outbid}
use mbarara_auction.Auctions.Services.{lock, auction_object}
use mbarara_auction.Bidding.Amount.{ℤ, RawAmount, validate_amount, at_least}
use mbarara_auction.Bidding.Queries.{next_sequence, has_sequence, bidder_profile, minimum_permitted}

abbrev pub bid_object : ℕ → ObjectRef
bid_object key = record { kind = ObjectType.bid_type; key = key }

abbrev pub is_user : ℕ → Option ℕ → Bool
is_user user none = false
is_user user (some other) = user == other

abbrev pub new_bid : ℕ → ℕ → ℕ → ℕ → ℕ → Bid
new_bid k bidder amount sequence now = record {
  auction = k;
  bidder = bidder;
  amount = amount;
  sequence_no = sequence;
  status = BidStatus.accepted;
  invalidated_reason = "";
  invalidated_by = none;
  invalidated_at = none;
  created_at = now;
}

-- `Bid.objects.create(…)`, with the table's two constraints
unfoldable pub insert_bid : Bid → Exec ℕ
insert_bid b = do
  rows ← gets (λ db. db.bids.rows)
  raise_if (b.amount == 0 || any (has_sequence b.auction b.sequence_no) rows) Error.integrity_error
  key ← gets (λ db. db.bids.next)
  effect (λ db. record db { bids = create b db.bids })
  pure key

abbrev pub window : Auction → ℕ
window a = a.extension_minutes * 60_000_000

-- Is the auction extended by a bid at this time? It is open, so `end_time - now` is exact.
abbrev pub is_extended : Auction → ℕ → Bool
is_extended a now = not (a.extension_minutes == 0) && leb (a.end_time - now) (window a)

unfoldable pub new_end : Auction → ℕ → ℕ
new_end a now = if is_extended a now then now + window a else a.end_time

unfoldable pub audit_extension : ℕ → Auction → ℕ → Db → Db
unfolding audit new_end
audit_extension k a user db =
    if is_extended a db.clock
    then audit (some user) Action.auction_extended (auction_object k)
        "Bid received inside anti-sniping window"
        (("new_end_time", Value.time (new_end a db.clock)) ∷ []) db
    else db

abbrev pub with_bid : ℕ → ℕ → ℕ → Auction → Auction
with_bid amount end now a = record a {
  current_highest_bid = some amount;
  end_time = end;
  updated_at = now;
}

unfoldable pub save_bid_result : ℕ → ℕ → ℕ → Db → Db
save_bid_result k amount end db = record db {
  auctions = modify k (with_bid amount end db.clock) db.auctions;
}

-- What is written once the bid is in.
unfoldable pub after_bid : ℕ → Auction → ℕ → ℕ → Bid → Db → Db
unfolding audit_extension save_bid_result new_end audit notify_outbid
after_bid k a user key b db = notify_outbid key b a.title (
    audit (some user) Action.bid_placed (bid_object key) "" (("amount", Value.money b.amount) ∷ [])
      (save_bid_result k b.amount (new_end a db.clock) (audit_extension k a user db)))

-- The checks on the locked auction, in the source's order; the bidder's profile and the amount.
unfoldable pub check_bid : ℕ → Auction → ℕ → User → ℤ → Exec (ℕ × ℕ)
check_bid k a user_key user amount = do
  now ← gets (λ db. db.clock)
  raise_if (not (is_live a.status) || not (is_open_at a now))
      (Error.bid_rejected BidRejection.not_open)
  found ← gets (bidder_profile user_key)
  (bidder, profile) ← or_raise found (Error.bid_rejected BidRejection.not_a_bidder)
  raise_if (not (is_eligible_to_bid profile user)) (Error.bid_rejected BidRejection.not_eligible)
  seller ← gets (λ db. seller_user db a)
  raise_if (is_user user_key seller) (Error.bid_rejected BidRejection.own_auction)
  let minimum = minimum_permitted a
  amount ←
      or_raise (at_least minimum amount) (Error.bid_rejected (BidRejection.below_minimum minimum))
  pure (bidder, amount)

-- The key of the new bid and the bid.
unfoldable pub place_bid : ℕ → ℕ → User → RawAmount → Exec (ℕ × Bid)
place_bid k user_key user raw = atomic do
  amount ← validate_amount raw
  a ← lock k
  (bidder, amount) ← check_bid k a user_key user amount
  now ← gets (λ db. db.clock)
  sequence ← gets (λ db. next_sequence k db.bids.rows)
  let b = new_bid k bidder amount sequence now
  key ← insert_bid b
  effect (after_bid k a user_key key b)
  pure (key, b)
