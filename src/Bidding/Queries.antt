-- ===== src/Bidding/Queries.antt =====
-- The queries of apps/bidding/services.py over the bids of an auction.
pub mod Sequence
use mathlib.Core.Option
use mbarara_auction.Prelude.{
  ℕ, ◌+◌, Bool, true, false, ◌&&◌, ◌||◌, Option, none, some, List, [], ◌∷◌, ltb, ◌==◌,
  if◌then◌else◌, any, first_by, select,
}
use mbarara_auction.Models.{Db}
use mbarara_auction.Models.Accounts.{BidderProfile}
use mbarara_auction.Models.Auctions.{Auction}
use mbarara_auction.Models.Bidding.{Bid, is_accepted}
use mbarara_auction.Notifications.Recipients.{accepted_on}

-- `locked.bids`
abbrev pub on_auction : ℕ → ℕ × Bid → Bool
on_auction k (_, b) = b.auction == k

-- `order_by("-amount", "sequence_no")`
abbrev pub beats : ℕ × Bid → ℕ × Bid → Bool
beats (_, a) (_, b) =
    if a.amount == b.amount then ltb a.sequence_no b.sequence_no else ltb b.amount a.amount

-- the highest accepted bid of an auction
unfoldable pub highest_bid : ℕ → List (ℕ × Bid) → Option (ℕ × Bid)
highest_bid k rows = first_by beats (select (accepted_on k) rows)

unfoldable pub highest_amount : ℕ → List (ℕ × Bid) → Option ℕ
highest_amount k rows = Option.map (λ r. r.1.amount) (highest_bid k rows)

-- `order_by("-sequence_no")`
abbrev pub later : ℕ × Bid → ℕ × Bid → Bool
later (_, a) (_, b) = ltb b.sequence_no a.sequence_no

abbrev pub sequence_or_zero : Option (ℕ × Bid) → ℕ
sequence_or_zero none = 0
sequence_or_zero (some (_, b)) = b.sequence_no

-- `(… .first() or 0) + 1`
unfoldable pub next_sequence : ℕ → List (ℕ × Bid) → ℕ
next_sequence k rows = sequence_or_zero (first_by later (select (on_auction k) rows)) + 1

-- the database's UniqueConstraint on (auction, sequence_no)
abbrev pub has_sequence : ℕ → ℕ → ℕ × Bid → Bool
has_sequence k n (_, b) = b.auction == k && b.sequence_no == n

abbrev find_bidder : ℕ → List (ℕ × BidderProfile) → Option (ℕ × BidderProfile)
find_bidder user [] = none
find_bidder user ((key, p) ∷ rows) = if p.user == user then some (key, p) else find_bidder user rows

-- `getattr(bidder_user, "bidder_profile", None)`
unfoldable pub bidder_profile : ℕ → Db → Option (ℕ × BidderProfile)
unfolding find_bidder
bidder_profile user db = find_bidder user db.bidders.rows

-- the smallest amount that the auction takes next
unfoldable pub minimum_permitted : Auction → ℕ
minimum_permitted a = elim (a.current_highest_bid) [
  | none ↦ a.starting_price
  | some highest ↦ highest + a.min_increment
]
