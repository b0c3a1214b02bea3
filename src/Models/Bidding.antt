-- ===== src/Models/Bidding.antt =====
-- apps/bidding/models.py
use mbarara_auction.Prelude.{ℕ, String, Bool, true, false, Option}

pub data BidStatus : Type 0 where
  accepted invalidated : BidStatus

abbrev pub is_accepted : BidStatus → Bool
is_accepted BidStatus.accepted = true
is_accepted BidStatus.invalidated = false

pub record Bid : Type 0 where
  pub auction : ℕ
  pub bidder : ℕ
  pub amount : ℕ
  pub sequence_no : ℕ
  pub status : BidStatus
  pub invalidated_reason : String
  pub invalidated_by : Option ℕ
  pub invalidated_at : Option ℕ
  pub created_at : ℕ

abbrev pub is_valid : Bid → Bool
is_valid b = is_accepted b.status
