-- ===== src/Scheduling/Controls.antt =====
-- apps/auctions/scheduling.py: what staff may do to a scheduled or running auction.
pub mod Outcome
use mbarara_auction.Prelude.{
  ℕ, String, ◌++◌, Bool, true, false, not, ◌&&◌, ◌||◌, Option, none, some, List, [], ◌∷◌, leb, ltb,
  if◌then◌else◌, is_some, strip, is_empty, is_blank,
}
use mbarara_auction.Table.{Table, get, modify}
use mbarara_auction.Models.{Db}
use mbarara_auction.Models.Auctions.{AuctionStatus, Auction, is_live, is_scheduled, is_paused}
use mbarara_auction.Models.Records.{Action, Event, Message, Value}
use mbarara_auction.Errors.{Error, SchedulingError}
use mbarara_auction.Exec.{Exec, pure, gets, raise_if, effect, atomic, ◌>>=◌, ◌>>◌}
use mbarara_auction.Audit.{audit}
use mbarara_auction.Notifications.Recipients.{notify_auction_update}
use mbarara_auction.Auctions.Services.{auction_object, lock, transition, cancel}
use mbarara_auction.Bidding.Close.{close_auction}

-- `_need_reason`
unfoldable pub need_reason : String → Exec String
need_reason reason = do
  raise_if (is_empty reason || is_blank reason)
      (Error.scheduling_error SchedulingError.reason_required)
  pure (strip reason)

abbrev pub with_schedule : ℕ → ℕ → ℕ → Auction → Auction
with_schedule start end now a = record a { start_time = start; end_time = end; updated_at = now }

unfoldable pub save_schedule : ℕ → ℕ → ℕ → Db → Db
save_schedule k start end db = record db {
  auctions = modify k (with_schedule start end db.clock) db.auctions;
}

-- An early start moves the start time to now.
unfoldable pub pull_start : ℕ → Auction → Option ℕ → Db → Db
unfolding save_schedule audit
pull_start k a actor db =
    if ltb db.clock a.start_time
    then audit actor Action.auction_rescheduled (auction_object k) "Started early by staff"
        (("old_start", Value.time a.start_time) ∷ ("new_start", Value.time db.clock) ∷ [])
        (save_schedule k db.clock a.end_time db)
    else db

unfoldable pub start_now : ℕ → Option ℕ → Exec Auction
start_now k actor = atomic do
  a ← lock k
  raise_if (not (is_scheduled a.status))
      (Error.scheduling_error (SchedulingError.not_scheduled a.status))
  now ← gets (λ db. db.clock)
  raise_if (leb a.end_time now) (Error.scheduling_error SchedulingError.end_time_passed)
  effect (pull_start k a actor)
  transition k AuctionStatus.live actor "Started manually by staff"

-- SCHEDULED, LIVE or PAUSED
abbrev pub is_running : AuctionStatus → Bool
is_running s = is_scheduled s || is_live s || is_paused s

abbrev pub or_else : Option ℕ → ℕ → ℕ
or_else none old = old
or_else (some new) old = new

-- Was an end given that is not later than the old one?
abbrev pub is_no_later : Option ℕ → ℕ → Bool
is_no_later none old = false
is_no_later (some new) old = leb new old

unfoldable pub check_schedule : Auction → Option ℕ → Option ℕ → Exec (ℕ × ℕ)
check_schedule a start_time end_time = do
  now ← gets (λ db. db.clock)
  raise_if (not (is_running a.status))
      (Error.scheduling_error (SchedulingError.not_reschedulable a.status))
  raise_if (not (is_some start_time) && not (is_some end_time))
      (Error.scheduling_error SchedulingError.nothing_to_change)
  raise_if (is_some start_time && not (is_scheduled a.status))
      (Error.scheduling_error SchedulingError.start_is_fixed)
  let new_start = or_else start_time a.start_time
  let new_end = or_else end_time a.end_time
  raise_if (leb new_end new_start) (Error.scheduling_error SchedulingError.start_not_before_end)
  raise_if (leb new_end now) (Error.scheduling_error SchedulingError.end_not_in_future)
  raise_if (is_scheduled a.status && is_some start_time && leb new_start now)
      (Error.scheduling_error SchedulingError.start_not_in_future)
  raise_if (is_live a.status && is_no_later end_time a.end_time)
      (Error.scheduling_error SchedulingError.only_extend)
  pure (new_start, new_end)

unfoldable pub record_schedule : ℕ → Auction → Option ℕ → String → ℕ → ℕ → Db → Db
unfolding save_schedule audit
record_schedule k a actor reason new_start new_end db =
    notify_auction_update k (with_schedule new_start new_end db.clock a) Event.auction_rescheduled
      (Message.runs_from_to a.title new_start new_end reason)
      (audit actor Action.auction_rescheduled (auction_object k) reason
        (("old_start", Value.time a.start_time)
          ∷ ("new_start", Value.time new_start)
          ∷ ("old_end", Value.time a.end_time)
          ∷ ("new_end", Value.time new_end)
          ∷ [])
        (save_schedule k new_start new_end db))

unfoldable pub reschedule : ℕ → Option ℕ → String → Option ℕ → Option ℕ → Exec Auction
reschedule k actor reason start_time end_time = atomic do
  reason ← need_reason reason
  a ← lock k
  (new_start, new_end) ← check_schedule a start_time end_time
  effect (record_schedule k a actor reason new_start new_end)
  now ← gets (λ db. db.clock)
  pure (with_schedule new_start new_end now a)

unfoldable pub pause : ℕ → Option ℕ → String → Exec Auction
unfolding audit
pause k actor reason = atomic do
  reason ← need_reason reason
  locked ← lock k
  paused ← transition k AuctionStatus.paused actor reason
  effect (audit actor Action.auction_paused (auction_object k) reason [])
  effect (
      notify_auction_update k paused Event.auction_paused
        (Message.bidding_paused paused.title reason))
  pure paused

unfoldable pub resume : ℕ → Option ℕ → Exec Auction
unfolding audit
resume k actor = atomic do
  a ← lock k
  raise_if (not (is_paused a.status)) (Error.scheduling_error (SchedulingError.not_paused a.status))
  now ← gets (λ db. db.clock)
  raise_if (leb a.end_time now) (Error.scheduling_error SchedulingError.end_passed_while_paused)
  live ← transition k AuctionStatus.live actor "Resumed by staff"
  effect (audit actor Action.auction_resumed (auction_object k) "" [])
  effect (
      notify_auction_update k live Event.auction_resumed
        (Message.bidding_resumed live.title live.end_time))
  pure live

unfoldable pub cancel_auction : ℕ → Option ℕ → String → Exec Auction
cancel_auction k actor reason = atomic do
  reason ← need_reason reason
  a ← lock k
  raise_if (not (is_running a.status))
      (Error.scheduling_error (SchedulingError.not_cancellable a.status))
  cancelled ← cancel k actor reason
  effect (
      notify_auction_update k cancelled Event.auction_cancelled
        (Message.cancelled cancelled.title reason))
  pure cancelled

unfoldable pub end_now : ℕ → Option ℕ → String → Exec Auction
end_now k actor reason = do
  reason ← need_reason reason
  atomic do
    a ← lock k
    raise_if (not (is_live a.status)) (Error.scheduling_error (SchedulingError.not_live a.status))
    close_auction k actor ("Ended early by staff: " ++ reason)
