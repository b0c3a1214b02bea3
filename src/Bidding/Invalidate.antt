-- ===== src/Bidding/Invalidate.antt =====
-- apps/bidding/services.py: `invalidate_bid`. The caller passes its copy of the bid.
use mbarara_auction.Prelude.{ℕ, String, Option, some, [], is_empty}
use mbarara_auction.Table.{modify}
use mbarara_auction.Models.{Db}
use mbarara_auction.Models.Auctions.{Auction}
use mbarara_auction.Models.Bidding.{BidStatus, Bid}
use mbarara_auction.Models.Records.{Action}
use mbarara_auction.Errors.{Error, ValueError}
use mbarara_auction.Exec.{Exec, pure, gets, raise_if, effect, atomic, ◌>>=◌, ◌>>◌}
use mbarara_auction.Audit.{audit}
use mbarara_auction.Auctions.Services.{lock}
use mbarara_auction.Bidding.Queries.{highest_amount}
use mbarara_auction.Bidding.Place.{bid_object}

abbrev pub as_invalidated : Option ℕ → String → ℕ → Bid → Bid
as_invalidated actor reason now b = record b {
  status = BidStatus.invalidated;
  invalidated_reason = reason;
  invalidated_by = actor;
  invalidated_at = some now;
}

unfoldable pub save_invalidated : ℕ → Option ℕ → String → Db → Db
save_invalidated key actor reason db = record db {
  bids = modify key (as_invalidated actor reason db.clock) db.bids;
}

abbrev pub with_highest : Option ℕ → ℕ → Auction → Auction
with_highest amount now a = record a { current_highest_bid = amount; updated_at = now }

-- The highest bid is found again among those that are left.
unfoldable pub recompute_highest : ℕ → Db → Db
recompute_highest k db = record db {
  auctions = modify k (with_highest (highest_amount k db.bids.rows) db.clock) db.auctions;
}

unfoldable pub invalidate_bid : ℕ → Bid → Option ℕ → String → Exec Bid
unfolding audit
invalidate_bid key b actor reason = do
  raise_if (is_empty reason) (Error.value_error ValueError.reason_missing)
  atomic do
    a ← lock b.auction
    now ← gets (λ db. db.clock)
    effect (save_invalidated key actor reason)
    effect (recompute_highest b.auction)
    effect (audit actor Action.bid_invalidated (bid_object key) reason [])
    pure (as_invalidated actor reason now b)
