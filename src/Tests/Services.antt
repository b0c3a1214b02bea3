-- ===== src/Tests/Services.antt =====
-- Transitions, controls, payments and disputes on the small databases.
use mbarara_auction.Prelude.{
  ℕ, ◌≡◌, refl, some, none, false, strip, is_blank, decimal, take, order_by,
}
use mbarara_auction.Table.{get, create, modify}
use mbarara_auction.Models.{Db}
use mbarara_auction.Models.Auctions.{AuctionStatus}
use mbarara_auction.Models.Disputes.{Category, Outcome}
use mbarara_auction.Exec.{returned, final}
use mbarara_auction.Core.{core}
use mbarara_auction.Notifications.Notify.{seller_user}
use mbarara_auction.Notifications.Recipients.{notify_auction_update, notify_each, update_recipients}
use mbarara_auction.Auctions.Lifecycle.{is_allowed, audit_action}
use mbarara_auction.Auctions.Services.{lock, with_status, record_transition, transition}
use mbarara_auction.Payments.{as_paid, mark_paid, settle_if_closed, payment_of}
use mbarara_auction.Scheduling.Controls.{
  need_reason, start_now, pull_start, with_schedule, check_schedule, record_schedule, reschedule,
}
use mbarara_auction.Scheduling.Sweep.{sweep_due}
use mbarara_auction.Disputes.Access.{auction_participants, has_active_dispute}
use mbarara_auction.Disputes.Services.{
  lock_dispute, insert_dispute, new_dispute, as_resolved, open_dispute, announce_opened,
  refund_payment, restore_auction, save_resolved, announce_resolved, resolve_dispute,
}
use mbarara_auction.System.Step.{Steps}
use mbarara_auction.System.Refinement.Sweeping.{sweep_due-Steps}
use mbarara_auction.Tests.Data.{
  market, cow, goat, sale, due, complaint, disputed_sale, submitted_cow, review,
}

runs : ℕ
unfolding get create modify lock transition record_transition is_allowed strip is_blank decimal take
    order_by need_reason start_now pull_start check_schedule record_schedule reschedule mark_paid
    settle_if_closed payment_of auction_participants has_active_dispute lock_dispute insert_dispute
    open_dispute announce_opened refund_payment restore_auction save_resolved announce_resolved
    resolve_dispute seller_user audit_action notify_auction_update notify_each update_recipients
runs = 0

goat_is_there : get 1 market.auctions ≡ some goat
unfolding runs
goat_is_there = refl

abbrev pub after_rejection : Db
after_rejection = final (transition 0 AuctionStatus.rejected (some 3) "No photographs" review)

pub rejection_works :
    transition 0 AuctionStatus.rejected (some 3) "No photographs" review
    ≡ returned (with_status AuctionStatus.rejected 3_480_000_000 submitted_cow) after_rejection
unfolding runs
rejection_works = refl

abbrev after_start : Db
after_start = final (start_now 1 (some 3) market)

start_now_works :
    start_now 1 (some 3) market
    ≡ returned (with_status AuctionStatus.live 3_480_000_000 goat) after_start
unfolding runs
start_now_works = refl

abbrev after_reschedule : Db
after_reschedule = final (reschedule 0 (some 3) "More time" none (some 7_200_000_000) market)

reschedule_works :
    reschedule 0 (some 3) "More time" none (some 7_200_000_000) market
    ≡ returned (with_schedule 60_000_000 7_200_000_000 3_480_000_000 cow) after_reschedule
unfolding runs
reschedule_works = refl

abbrev after_payment : Db
after_payment = final (mark_paid 0 due (some 3) "cash" "R1" "" sale)

mark_paid_works :
    mark_paid 0 due (some 3) "cash" "R1" "" sale
    ≡ returned (as_paid (some 3) "cash" "R1" "" 3_480_000_000 due) after_payment
unfolding runs
mark_paid_works = refl

due_is_there : get 0 sale.payments ≡ some due
unfolding runs
due_is_there = refl

abbrev pub after_complaint : Db
after_complaint = final (open_dispute 0 2 (some Category.not_delivered) "No cow came" sale)

pub open_dispute_works :
    open_dispute 0 2 (some Category.not_delivered) "No cow came" sale
    ≡ returned
        (0, new_dispute 0 2 Category.not_delivered "No cow came" AuctionStatus.closed 3_480_000_000)
        after_complaint
unfolding runs
open_dispute_works = refl

abbrev pub after_resolution : Db
after_resolution =
    final (resolve_dispute 0 (some 3) (some Outcome.dismissed) "It came" false disputed_sale)

pub resolve_dispute_works :
    resolve_dispute 0 (some 3) (some Outcome.dismissed) "It came" false disputed_sale
    ≡ returned
        (as_resolved (some 3) Outcome.dismissed "It came" false 3_480_000_000 complaint)
        after_resolution
unfolding runs
resolve_dispute_works = refl

sweep_due-Steps_example : Steps (core market) (core (final (sweep_due (some 3) market)))
sweep_due-Steps_example = sweep_due-Steps (some 3) market
