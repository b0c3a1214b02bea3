-- ===== src/Models/Records.antt =====
-- apps/audit/models.py and apps/notifications/models.py: what the services write beside their own
-- rows. A message is its template with the values filled in; the wording is left out.
use mbarara_auction.Prelude.{ℕ, String, Bool, true, false, Option, none, some, List}
use mbarara_auction.Models.Accounts.{VerificationStatus}
use mbarara_auction.Models.Disputes.{Category, Outcome}

pub data Action : Type 0 where
  user_registered user_verified user_suspended : Action
  auction_created auction_approved auction_rejected auction_started : Action
  bid_placed bid_rejected bid_invalidated : Action
  auction_extended auction_closed winner_determined auction_cancelled : Action
  auction_rescheduled auction_paused auction_resumed : Action
  dispute_created dispute_resolved : Action
  payment_pending payment_received payment_failed payment_refunded : Action

-- `obj.__class__.__name__`
pub data ObjectType : Type 0 where
  auction_type bid_type payment_type dispute_type seller_type bidder_type : ObjectType

-- `object_type` and `object_id`
pub record ObjectRef : Type 0 where
  pub kind : ObjectType
  pub key : ℕ

-- a value of the `metadata` dictionary
pub data Value : Type 0 where
  money time key_of : ℕ → Value
  text : String → Value
  flag : Bool → Value
  verification : VerificationStatus → Value
  category_of : Category → Value
  outcome_of : Outcome → Value

pub record AuditLog : Type 0 where
  pub actor : Option ℕ
  pub action : Action
  pub object : ObjectRef
  pub reason : String
  pub metadata : List (String × Value)
  pub created_at : ℕ

pub data Event : Type 0 where
  outbid auction_won auction_live auction_closed_no_winner : Event
  listing_approved listing_rejected : Event
  account_verified account_rejected account_suspended account_reactivated : Event
  payment_received payment_failed : Event
  auction_rescheduled auction_paused auction_resumed auction_cancelled : Event
  dispute_opened dispute_resolved : Event

pub data Channel : Type 0 where
  in_app email sms : Channel

pub data Message : Type 0 where
  higher_bid : ℕ → String → Message
  won : String → Option ℕ → Message
  closed_without_winner now_live approved_and_scheduled : String → Message
  rejected : String → String → Message
  verified : Message
  verification_rejected suspended : String → Message
  reactivated : Message
  your_payment seller_payment : ℕ → String → Message
  payment_issue : String → String → Message
  dispute_raised : Category → String → Message
  dispute_result : Option Outcome → String → Message
  runs_from_to : String → ℕ → ℕ → String → Message
  bidding_paused cancelled : String → String → Message
  bidding_resumed : String → ℕ → Message

-- Where the notification points: no link, `/auctions/<pk>/` or `/disputes/<pk>/`.
pub data Link : Type 0 where
  no_link : Link
  auction_page dispute_page : ℕ → Link

pub record Notification : Type 0 where
  pub recipient : ℕ
  pub event : Event
  pub channel : Channel
  pub message : Message
  pub related_object : Option ObjectRef
  pub link : Link
  pub read_at : Option ℕ
  pub created_at : ℕ

unfoldable pub is_read : Notification → Bool
is_read n = elim (n.read_at) [ none ↦ false | some _ ↦ true ]
