-- ===== src/Errors.antt =====
-- The exceptions that the services raise, each message as a constructor with its values.
use mbarara_auction.Prelude.{ℕ, Bool, true, false}
use mbarara_auction.Models.Auctions.{AuctionStatus, CleanError}

-- apps/bidding/services.py: BidRejected
pub data BidRejection : Type 0 where
  not_a_valid_amount too_many_decimals too_large : BidRejection
  not_open not_a_bidder not_eligible own_auction : BidRejection
  below_minimum : ℕ → BidRejection

-- apps/auctions/scheduling.py: SchedulingError
pub data SchedulingError : Type 0 where
  reason_required end_time_passed nothing_to_change start_is_fixed : SchedulingError
  start_not_before_end end_not_in_future start_not_in_future only_extend : SchedulingError
  end_passed_while_paused invalid_form : SchedulingError
  not_scheduled not_reschedulable not_paused not_cancellable not_live :
      AuctionStatus → SchedulingError

pub data ValueError : Type 0 where
  reason_missing auction_not_live : ValueError
  payment_not_pending payment_not_paid : ValueError
  description_missing unknown_category not_disputable already_disputed : ValueError
  dispute_not_open unknown_outcome notes_missing already_resolved nothing_to_refund : ValueError

pub data Error : Type 0 where
  does_not_exist integrity_error overflow_error command_error : Error
  bid_rejected : BidRejection → Error
  invalid_transition : AuctionStatus → AuctionStatus → Error
  rejection_needs_reason : Error
  validation_error : CleanError → Error
  scheduling_error : SchedulingError → Error
  value_error : ValueError → Error
  permission_error permission_denied not_found : Error

-- InvalidTransition is a ValidationError.
abbrev pub is_validation_error : Error → Bool
is_validation_error (Error.invalid_transition _ _) = true
is_validation_error Error.rejection_needs_reason = true
is_validation_error (Error.validation_error _) = true
is_validation_error _ = false

abbrev pub is_invalid_transition : Error → Bool
is_invalid_transition (Error.invalid_transition _ _) = true
is_invalid_transition Error.rejection_needs_reason = true
is_invalid_transition _ = false

-- SchedulingError is a ValueError.
abbrev pub is_value_error : Error → Bool
is_value_error (Error.value_error _) = true
is_value_error (Error.scheduling_error _) = true
is_value_error _ = false
