-- ===== src/Auctions/Services/Transitions.antt =====
-- apps/auctions/services.py: what `transition` does, on every branch.
use mathlib.Core.Path.{ap₂}
use mbarara_auction.Prelude.{
  ℕ, some_unique, ◌≡◌, refl, ap, ◌∙◌, String, true, false, not, ◌&&◌, Option, none, some, arith,
  is_empty,
}
use mbarara_auction.Table.{get, modify, create, get-modify}
use mbarara_auction.Models.{Db}
use mbarara_auction.Models.Auctions.{AuctionStatus, Auction}
use mbarara_auction.Models.Records.{Action}
use mbarara_auction.Exec.{Result}
use mbarara_auction.Exec.Inversion.{
  roll_back-returned, or_raise-returned, raise_if-returned, returned-injective,
}
use mbarara_auction.Core.{Core, core}
use mbarara_auction.Auctions.Lifecycle.{is_allowed, is_rejected}
use mbarara_auction.Auctions.Services.{
  lock, save_status, log_status, with_status, status_log, audit_transition, notify_transition,
  record_transition, transition,
}

core-notify_transition :
    (to : AuctionStatus) (k : ℕ) (a : Auction) (reason : String) (db : Db)
    → core (notify_transition to k a reason db) ≡ core db
unfolding notify_transition
core-notify_transition AuctionStatus.approved k a reason db = refl
core-notify_transition _ k a reason db = refl

core-audit_transition :
    (action : Option Action) (actor : Option ℕ) (k : ℕ) (reason : String) (db : Db)
    → core (audit_transition action actor k reason db) ≡ core db
unfolding audit_transition
core-audit_transition none actor k reason db = refl
core-audit_transition (some action) actor k reason db = refl

-- The status of one auction, and one new row in the log of transitions.
abbrev pub moved : ℕ → Auction → AuctionStatus → Option ℕ → String → Core → Core
moved k a to actor reason c = record c {
  auctions = modify k (with_status to c.clock) c.auctions;
  status_logs = create (status_log k a.status to actor reason c.clock) c.status_logs;
}

pub core-record_transition :
    (k : ℕ) (a : Auction) (to : AuctionStatus) (actor : Option ℕ) (reason : String) (db : Db)
    → core (record_transition k a to actor reason db) ≡ moved k a to actor reason (core db)
unfolding record_transition save_status log_status
core-record_transition k a to actor reason db =
    core-notify_transition to k _ reason _ ∙ core-audit_transition _ actor k reason _

pub record Moved (k : ℕ) (to : AuctionStatus) (actor : Option ℕ) (reason : String) (db : Db)
    (a' : Auction) (db' : Db) : Type 0 where
  pub auction : Auction
  pub at_key : get k db.auctions ≡ some auction
  pub allowed : is_allowed auction.status to ≡ true
  pub reasoned : (is_rejected to && is_empty reason) ≡ false
  pub result : a' ≡ with_status to db.clock auction
  pub after : core db' ≡ moved k auction to actor reason (core db)

-- If transition returns, the auction exists, the move is in ALLOWED_TRANSITIONS, a rejection has a
-- reason, and the tables that the services decide by change in that status and one new log row
-- only.
pub transition-Moved :
    (k : ℕ) (to : AuctionStatus) (actor : Option ℕ) (reason : String) (db : Db) {a' : Auction}
    {db' : Db}
    → transition k to actor reason db ≡ Result.returned a' db'
    → Moved k to actor reason db a' db'
unfolding transition lock
transition-Moved k to actor reason db h =
    or_raise-returned _ _ (get k db.auctions) (roll_back-returned db _ h) λ a found h.
      raise_if-returned _ _ (not (is_allowed a.status to)) h λ allowed h.
        raise_if-returned _ _ (is_rejected to && is_empty reason) h λ reasoned h.
          let e = core-record_transition k a to actor reason db in
          let (result, written) = returned-injective h in
          record {
            auction = a;
            at_key = found;
            allowed = ground arith;
            reasoned = reasoned;
            result = result ∙ ap (λ (c : Core). with_status to c.clock a) e;
            after = ap core written ∙ e;
          }

pub transition-eq_returned :
    (k : ℕ) (a : Auction) (to : AuctionStatus) (actor : Option ℕ) (reason : String) (db : Db)
    → get k db.auctions ≡ some a
    → is_allowed a.status to ≡ true
    → (is_rejected to && is_empty reason) ≡ false
    → (db' : Db) × (transition k to actor reason db
        ≡ Result.returned (with_status to db.clock a) db')
      × (core db' ≡ moved k a to actor reason (core db))
unfolding transition lock
transition-eq_returned k a to actor reason db found allowed reasoned =
    let e = core-record_transition k a to actor reason db in
    (
      record_transition k a to actor reason db,
      rw (found, allowed, reasoned)
          (ap
            (λ (c : Core).
              Result.returned (with_status to c.clock a) (record_transition k a to actor reason db))
            e),
      e,
    )

-- Writes to the audit trail and the notifications may follow a move.
pub Moved-core :
    {k : ℕ} {to : AuctionStatus} {actor : Option ℕ} {reason : String} {db : Db} {a a' : Auction}
    {d db' : Db}
    → Moved k to actor reason db a d
    → a' ≡ a
    → core db' ≡ core d
    → Moved k to actor reason db a' db'
Moved-core m same e = record {
  auction = m.auction;
  at_key = m.at_key;
  allowed = m.allowed;
  reasoned = m.reasoned;
  result = same ∙ m.result;
  after = e ∙ m.after;
}

pub get-moved :
    (k : ℕ) (a : Auction) (to : AuctionStatus) (actor : Option ℕ) (reason : String) (c : Core)
    → get k c.auctions ≡ some a
    → get k (moved k a to actor reason c).auctions ≡ some (with_status to c.clock a)
get-moved k a to actor reason c found =
    ground (arith, get-modify k k (with_status to c.clock) c.auctions)

-- Two moves of one auction, one after the other.
pub Moved-Moved :
    {k : ℕ} {to to' : AuctionStatus} {actor actor' : Option ℕ} {reason reason' : String}
    {db d db' : Db} {a' a'' : Auction} (m : Moved k to actor reason db a' d)
    (n : Moved k to' actor' reason' d a'' db')
    → core db'
      ≡ moved k
          (with_status to db.clock m.auction)
          to'
          actor'
          reason'
          (moved k m.auction to actor reason (core db))
Moved-Moved {k} {to} {to'} {actor} {actor'} {reason} {reason'} {db} {d} m n =
    let found : get k d.auctions ≡ some (with_status to db.clock m.auction) =
      ap (λ (c : Core). get k c.auctions) m.after
      ∙ get-moved k m.auction to actor reason (core db) m.at_key in
    let same = some_unique n.at_key found in
    n.after ∙ ap₂ (λ x c. moved k x to' actor' reason' c) same m.after
