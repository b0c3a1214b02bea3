-- ===== src/Models/Disputes.antt =====
-- apps/disputes/models.py
use mbarara_auction.Prelude.{ℕ, String, Bool, true, false, Option}
use mbarara_auction.Models.Auctions.{AuctionStatus}

pub data Category : Type 0 where
  non_payment not_as_described not_delivered bid_irregularity other : Category

pub data DisputeStatus : Type 0 where
  open_status under_review resolved : DisputeStatus

pub data Outcome : Type 0 where
  upheld dismissed : Outcome

-- `status in ACTIVE_STATUSES`
abbrev pub is_active : DisputeStatus → Bool
is_active DisputeStatus.open_status = true
is_active DisputeStatus.under_review = true
is_active DisputeStatus.resolved = false

abbrev pub is_open : DisputeStatus → Bool
is_open DisputeStatus.open_status = true
is_open _ = false

pub record Dispute : Type 0 where
  pub auction : ℕ
  pub raised_by : ℕ
  pub category : Category
  pub description : String
  pub status : DisputeStatus
  pub auction_status_before : AuctionStatus
  pub assigned_to : Option ℕ
  pub outcome : Option Outcome
  pub resolution_notes : String
  pub refunded : Bool
  pub resolved_by : Option ℕ
  pub resolved_at : Option ℕ
  pub created_at : ℕ
  pub updated_at : ℕ
