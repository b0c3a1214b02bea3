-- ===== src/Models.antt =====
-- The rows of the database, by app, and the database itself.
pub mod Accounts
pub mod Auctions
pub mod Bidding
pub mod Payments
pub mod Disputes
pub mod Records
use mbarara_auction.Prelude.{ℕ, List}
use mbarara_auction.Table.{Table}
use Accounts.{User, SellerProfile, BidderProfile}
use Auctions.{Auction, AuctionStatusLog}
use Bidding.{Bid}
use Payments.{Payment}
use Disputes.{Dispute}
use Records.{AuditLog, Notification}

-- `deliveries` is the Celery queue of `deliver_notification`; `clock` is what `timezone.now()`
-- returns. No operation moves it: time passes between operations.
pub record Db : Type 0 where
  pub users : Table User
  pub sellers : Table SellerProfile
  pub bidders : Table BidderProfile
  pub auctions : Table Auction
  pub status_logs : Table AuctionStatusLog
  pub bids : Table Bid
  pub payments : Table Payment
  pub disputes : Table Dispute
  pub notifications : Table Notification
  pub audit_logs : Table AuditLog
  pub deliveries : List ℕ
  pub clock : ℕ
