-- ===== src/Auctions/Services.antt =====
-- apps/auctions/services.py: `transition` and the operations built on it. An auction is named by
-- its key: each operation reads the row again, under its lock.
pub mod Transitions
pub mod Operations
use mbarara_auction.Prelude.{
  ℕ, String, Bool, true, false, not, ◌&&◌, Option, none, some, List, [], ◌∷◌, leb, is_empty,
  if◌then◌else◌,
}
use mbarara_auction.Table.{Table, get, modify, create}
use mbarara_auction.Models.{Db}
use mbarara_auction.Models.Auctions.{AuctionStatus, Auction, AuctionStatusLog, is_scheduled}
use mbarara_auction.Models.Records.{Action, ObjectType, ObjectRef}
use mbarara_auction.Errors.{Error}
use mbarara_auction.Exec.{Exec, pure, gets, or_raise, raise_if, effect, atomic, ◌>>=◌, ◌>>◌}
use mbarara_auction.Audit.{audit}
use mbarara_auction.Notifications.Events.{
  notify_listing_approved, notify_listing_rejected, notify_auction_live,
}
use mbarara_auction.Auctions.Lifecycle.{is_allowed, audit_action, is_rejected}

abbrev pub auction_object : ℕ → ObjectRef
auction_object k = record { kind = ObjectType.auction_type; key = k }

-- `Auction.objects.select_for_update().get(pk=…)`
unfoldable pub lock : ℕ → Exec Auction
lock k = do a ← gets (λ db. get k db.auctions); or_raise a Error.does_not_exist

-- `auction.status = …; auction.save(update_fields=["status", "updated_at"])`
abbrev pub with_status : AuctionStatus → ℕ → Auction → Auction
with_status s now a = record a { status = s; updated_at = now }

unfoldable pub save_status : ℕ → AuctionStatus → Db → Db
save_status k s db = record db { auctions = modify k (with_status s db.clock) db.auctions }

abbrev pub status_log : ℕ → AuctionStatus → AuctionStatus → Option ℕ → String → ℕ → AuctionStatusLog
status_log k from to actor reason now = record {
  auction = k;
  from_status = from;
  to_status = to;
  changed_by = actor;
  reason = reason;
  changed_at = now;
}

unfoldable pub log_status : ℕ → AuctionStatus → AuctionStatus → Option ℕ → String → Db → Db
log_status k from to actor reason db = record db {
  status_logs = create (status_log k from to actor reason db.clock) db.status_logs;
}

unfoldable pub audit_transition : Option Action → Option ℕ → ℕ → String → Db → Db
unfolding audit
audit_transition none actor k reason db = db
audit_transition (some action) actor k reason db =
    audit actor action (auction_object k) reason [] db

unfoldable pub notify_transition : AuctionStatus → ℕ → Auction → String → Db → Db
unfolding notify_listing_approved notify_listing_rejected notify_auction_live
notify_transition AuctionStatus.approved k a reason db = notify_listing_approved k a db
notify_transition AuctionStatus.rejected k a reason db = notify_listing_rejected k a reason db
notify_transition AuctionStatus.live k a reason db = notify_auction_live k a db
notify_transition _ k a reason db = db

-- What `transition` writes once its guards have passed.
unfoldable pub record_transition : ℕ → Auction → AuctionStatus → Option ℕ → String → Db → Db
unfolding save_status log_status audit_transition notify_transition
record_transition k a to actor reason db =
    notify_transition to k (with_status to db.clock a) reason (
      audit_transition (audit_action to) actor k reason
        (log_status k a.status to actor reason (save_status k to db)))

unfoldable pub transition : ℕ → AuctionStatus → Option ℕ → String → Exec Auction
transition k to actor reason = atomic do
  a ← lock k
  raise_if (not (is_allowed a.status to)) (Error.invalid_transition a.status to)
  raise_if (is_rejected to && is_empty reason) Error.rejection_needs_reason
  effect (record_transition k a to actor reason)
  now ← gets (λ db. db.clock)
  pure (with_status to now a)

unfoldable pub submit_for_review : ℕ → Option ℕ → Exec Auction
submit_for_review k actor = transition k AuctionStatus.submitted actor ""

-- Two transitions, each with a transaction of its own.
unfoldable pub approve : ℕ → Option ℕ → String → Exec Auction
approve k actor reason = do
  approved ← transition k AuctionStatus.approved actor reason
  transition k AuctionStatus.scheduled actor "Auto-scheduled after approval"

unfoldable pub reject : ℕ → Option ℕ → String → Exec Auction
reject k actor reason = transition k AuctionStatus.rejected actor reason

unfoldable pub cancel : ℕ → Option ℕ → String → Exec Auction
cancel k actor reason = transition k AuctionStatus.cancelled actor reason

-- Here the caller's copy of the auction is tested, not the locked row.
unfoldable pub activate_if_due : ℕ → Auction → Option ℕ → Exec Auction
activate_if_due k auction actor db =
    if is_scheduled auction.status && leb auction.start_time db.clock
    then transition k AuctionStatus.live actor "Auto-activated: start_time reached" db
    else pure auction db
