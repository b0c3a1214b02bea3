-- ===== src/Web/Control.antt =====
-- apps/auctions/control.py: the staff's control of scheduled and running auctions.
use mbarara_auction.Prelude.{ℕ, String, ◌||◌, Option, none, some}
use mbarara_auction.Models.Auctions.{Auction}
use mbarara_auction.Errors.{Error, SchedulingError, is_validation_error, is_value_error}
use mbarara_auction.Exec.{Exec, pure, raise, ◌>>=◌}
use mbarara_auction.Accounts.Permissions.{RequestUser, require_staff}
use mbarara_auction.Scheduling.Controls.{
  start_now, reschedule, pause, resume, cancel_auction, end_now,
}
use mbarara_auction.Scheduling.Sweep.{sweep_due}
use mbarara_auction.Web.Replies.{Reply, catching, get_or_404}

-- What a button of the auction's control page asks for, with the values of its form; a new schedule is
-- none if its form is not valid.
pub data Order : Type 0 where
  start_it resume_it : Order
  pause_it cancel_it end_it : String → Order
  reschedule_it : Option (String × Option ℕ × Option ℕ) → Order

-- the `run` of each action view
unfoldable pub run : Order → ℕ → ℕ → Exec Auction
run Order.start_it k staff = start_now k (some staff)
run Order.resume_it k staff = resume k (some staff)
run (Order.pause_it reason) k staff = pause k (some staff) reason
run (Order.cancel_it reason) k staff = cancel_auction k (some staff) reason
run (Order.end_it reason) k staff = end_now k (some staff) reason
run (Order.reschedule_it none) k staff = raise (Error.scheduling_error SchedulingError.invalid_form)
run (Order.reschedule_it (some (reason, start, end))) k staff =
    reschedule k (some staff) reason start end

-- `_ActionView.post`
unfoldable pub post_action : RequestUser → ℕ → Order → Exec Reply
post_action user k order = do
  (staff, u) ← require_staff user
  a ← get_or_404 (λ db. db.auctions) k
  catching (λ e. is_validation_error e || is_value_error e) Reply.success (run order k staff)

-- SweepView.post
unfoldable pub post_sweep : RequestUser → Exec Reply
post_sweep user = do
  (staff, u) ← require_staff user
  counts ← sweep_due (some staff)
  pure Reply.success
