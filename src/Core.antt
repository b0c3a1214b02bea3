-- ===== src/Core.antt =====
-- The part of the database that the services decide by: all of it but the audit trail, the
-- notifications and their queue, which are only written.
pub mod Notices
use mbarara_auction.Prelude.{ℕ, ◌≡◌, refl, ap, Option, List, String}
use mbarara_auction.Table.{Table}
use mbarara_auction.Models.{Db}
use mbarara_auction.Models.Accounts.{User, SellerProfile, BidderProfile}
use mbarara_auction.Models.Auctions.{Auction, AuctionStatusLog}
use mbarara_auction.Models.Bidding.{Bid}
use mbarara_auction.Models.Payments.{Payment}
use mbarara_auction.Models.Disputes.{Dispute}
use mbarara_auction.Models.Records.{Action, ObjectRef, Value, Event, Message, Link}
use mbarara_auction.Audit.{audit}
use mbarara_auction.Notifications.Notify.{notify}

pub record Core : Type 0 where
  pub users : Table User
  pub sellers : Table SellerProfile
  pub bidders : Table BidderProfile
  pub auctions : Table Auction
  pub status_logs : Table AuctionStatusLog
  pub bids : Table Bid
  pub payments : Table Payment
  pub disputes : Table Dispute
  pub clock : ℕ

abbrev pub core : Db → Core
core db = record {
  users = db.users;
  sellers = db.sellers;
  bidders = db.bidders;
  auctions = db.auctions;
  status_logs = db.status_logs;
  bids = db.bids;
  payments = db.payments;
  disputes = db.disputes;
  clock = db.clock;
}

pub core-audit :
    (actor : Option ℕ) (action : Action) (object : ObjectRef) (reason : String)
    (metadata : List (String × Value)) (db : Db)
    → core (audit actor action object reason metadata db) ≡ core db
unfolding audit
core-audit actor action object reason metadata db = refl

pub core-notify :
    (recipient : Option ℕ) (event : Event) (message : Message) (object : Option ObjectRef)
    (link : Link) (db : Db)
    → core (notify recipient event message object link db) ≡ core db
unfolding notify
core-notify recipient event message object link db = refl
