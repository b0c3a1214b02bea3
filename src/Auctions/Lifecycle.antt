-- ===== src/Auctions/Lifecycle.antt =====
-- apps/auctions/services.py: ALLOWED_TRANSITIONS and AUDIT_ACTION_FOR_TRANSITION.
use mbarara_auction.Prelude.{Bool, true, false, Option, none, some}
use mbarara_auction.Models.Auctions.{AuctionStatus}
use mbarara_auction.Models.Records.{Action}

-- `to_status in ALLOWED_TRANSITIONS[from_status]`
unfoldable pub is_allowed : AuctionStatus → AuctionStatus → Bool
is_allowed AuctionStatus.draft AuctionStatus.submitted = true
is_allowed AuctionStatus.draft AuctionStatus.cancelled = true
is_allowed AuctionStatus.submitted AuctionStatus.approved = true
is_allowed AuctionStatus.submitted AuctionStatus.rejected = true
is_allowed AuctionStatus.approved AuctionStatus.scheduled = true
is_allowed AuctionStatus.scheduled AuctionStatus.live = true
is_allowed AuctionStatus.scheduled AuctionStatus.cancelled = true
is_allowed AuctionStatus.live AuctionStatus.paused = true
is_allowed AuctionStatus.live AuctionStatus.closed = true
is_allowed AuctionStatus.live AuctionStatus.cancelled = true
is_allowed AuctionStatus.live AuctionStatus.disputed = true
is_allowed AuctionStatus.paused AuctionStatus.live = true
is_allowed AuctionStatus.paused AuctionStatus.cancelled = true
is_allowed AuctionStatus.closed AuctionStatus.settled = true
is_allowed AuctionStatus.closed AuctionStatus.disputed = true
is_allowed AuctionStatus.settled AuctionStatus.completed = true
is_allowed AuctionStatus.settled AuctionStatus.disputed = true
is_allowed AuctionStatus.disputed AuctionStatus.closed = true
is_allowed _ _ = false

unfoldable pub audit_action : AuctionStatus → Option Action
audit_action AuctionStatus.submitted = some Action.auction_created
audit_action AuctionStatus.approved = some Action.auction_approved
audit_action AuctionStatus.rejected = some Action.auction_rejected
audit_action AuctionStatus.live = some Action.auction_started
audit_action AuctionStatus.cancelled = some Action.auction_cancelled
audit_action AuctionStatus.closed = some Action.auction_closed
audit_action _ = none

abbrev pub is_rejected : AuctionStatus → Bool
is_rejected AuctionStatus.rejected = true
is_rejected _ = false
