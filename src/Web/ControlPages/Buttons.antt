-- ===== src/Web/ControlPages/Buttons.antt =====
-- apps/auctions/control.py against apps/auctions/scheduling.py: the buttons that the page of an
-- auction does not offer, and the numbers of overdue auctions.
use mbarara_auction.Prelude.{
  ℕ, ◌≡◌, refl, String, Bool, true, false, ◌&&◌, ◌||◌, Option, some, none, arith, is_empty,
  is_blank, Bool-cases, inl, inr, List, [], ◌∷◌, leb, length, select,
}
use mbarara_auction.Table.{get, filter}
use mbarara_auction.Models.{Db}
use mbarara_auction.Models.Accounts.{User, is_officer_or_admin}
use mbarara_auction.Models.Auctions.{AuctionStatus, Auction, is_live, is_scheduled, is_paused}
use mbarara_auction.Errors.{Error, SchedulingError}
use mbarara_auction.Exec.{returned, raised}
use mbarara_auction.Exec.Inversion.{or_raise-returned, returned-injective}
use mbarara_auction.Accounts.Permissions.{require_staff, require_user}
use mbarara_auction.Auctions.Lifecycle.{is_allowed}
use mbarara_auction.Auctions.Services.{lock, transition}
use mbarara_auction.Scheduling.Controls.{
  start_now, reschedule, pause, resume, cancel_auction, end_now, need_reason, is_running,
  check_schedule,
}
use mbarara_auction.Scheduling.Sweep.{due_to_start, due_to_close}
use mbarara_auction.Web.Control.{Order, run}
use mbarara_auction.Web.ControlPages.{
  ControlDashboard, ControlPage, control_page, dashboard, show_control, show_auction_control,
}

abbrev pub offers : ControlPage → Order → Bool
offers page Order.start_it = page.can_start
offers page Order.resume_it = page.can_resume
offers page (Order.pause_it reason) = page.can_pause
offers page (Order.cancel_it reason) = page.can_cancel
offers page (Order.end_it reason) = page.can_end
offers page (Order.reschedule_it form) = page.can_reschedule

-- The service raises an error and leaves the database as it was.
abbrev pub Fails : Order → ℕ → ℕ → Db → Type 0
Fails order k staff db = (e : Error) × (run order k staff db ≡ raised e db)

abbrev refusal : SchedulingError → Error
refusal e = Error.scheduling_error e

is_allowed-paused :
    (s : AuctionStatus) → is_live s ≡ false → is_allowed s AuctionStatus.paused ≡ false
unfolding is_allowed
is_allowed-paused AuctionStatus.live h = cc
is_allowed-paused _ h = refl

module _ (k staff : ℕ) (a : Auction) (db : Db) (found : get k db.auctions ≡ some a) where
  start_it-Fails : is_scheduled a.status ≡ false → Fails Order.start_it k staff db
  unfolding run start_now lock
  start_it-Fails h = (refusal (SchedulingError.not_scheduled a.status), rw (found, h) refl)

  resume_it-Fails : is_paused a.status ≡ false → Fails Order.resume_it k staff db
  unfolding run resume lock
  resume_it-Fails h = (refusal (SchedulingError.not_paused a.status), rw (found, h) refl)

  pause_it-Fails :
      (reason : String) → is_live a.status ≡ false → Fails (Order.pause_it reason) k staff db
  unfolding run pause lock transition need_reason
  pause_it-Fails reason h = elim (Bool-cases (is_empty reason || is_blank reason)) [
    | inl blank ↦ (refusal SchedulingError.reason_required, rw blank refl)
    | inr given ↦ (
      Error.invalid_transition a.status AuctionStatus.paused,
      rw (given, found, found, is_allowed-paused a.status h) refl,
    )
  ]

  end_it-Fails :
      (reason : String) → is_live a.status ≡ false → Fails (Order.end_it reason) k staff db
  unfolding run end_now lock need_reason
  end_it-Fails reason h = elim (Bool-cases (is_empty reason || is_blank reason)) [
    | inl blank ↦ (refusal SchedulingError.reason_required, rw blank refl)
    | inr given ↦ (refusal (SchedulingError.not_live a.status), rw (given, found, h) refl)
  ]

  cancel_it-Fails :
      (reason : String) → is_running a.status ≡ false → Fails (Order.cancel_it reason) k staff db
  unfolding run cancel_auction lock need_reason
  cancel_it-Fails reason h = elim (Bool-cases (is_empty reason || is_blank reason)) [
    | inl blank ↦ (refusal SchedulingError.reason_required, rw blank refl)
    | inr given ↦ (refusal (SchedulingError.not_cancellable a.status), rw (given, found, h) refl)
  ]

  reschedule_it-Fails :
      (form : Option (String × Option ℕ × Option ℕ))
      → is_running a.status ≡ false
      → Fails (Order.reschedule_it form) k staff db
  unfolding run reschedule lock need_reason check_schedule
  reschedule_it-Fails none h = (refusal SchedulingError.invalid_form, refl)
  reschedule_it-Fails (some (reason, start, end)) h =
      elim (Bool-cases (is_empty reason || is_blank reason)) [
        | inl blank ↦ (refusal SchedulingError.reason_required, rw blank refl)
        | inr given ↦
            (refusal (SchedulingError.not_reschedulable a.status), rw (given, found, h) refl)
      ]

  hidden-Fails :
      (order : Order) → offers (control_page k a db) order ≡ false → Fails order k staff db
  unfolding is_running
  hidden-Fails Order.start_it h = start_it-Fails h
  hidden-Fails Order.resume_it h = resume_it-Fails h
  hidden-Fails (Order.pause_it reason) h = pause_it-Fails reason h
  hidden-Fails (Order.cancel_it reason) h = cancel_it-Fails reason h
  hidden-Fails (Order.end_it reason) h = end_it-Fails reason h
  hidden-Fails (Order.reschedule_it form) h = reschedule_it-Fails form h

-- If an auction's control page is shown and does not offer a button, what the button would do
-- fails with an error at that time and leaves the database as it was.
pub show_auction_control-Fails :
    (k staff : ℕ) (u : User) (order : Order) (db : Db) {page : ControlPage} {d : Db}
    → show_auction_control (some (staff, u)) k db ≡ returned page d
    → offers page order ≡ false
    → Fails order k staff db
unfolding show_auction_control require_staff require_user
show_auction_control-Fails k staff u order db {page = page} {d = d} h hidden =
    elim (Bool-cases (is_officer_or_admin u)) [
      | inl staffed ↦
          or_raise-returned _ _ (get k db.auctions) (rw staffed at h) λ a found h.
            hidden-Fails k staff a db found order (rw (returned-injective h).0 at hidden)
      | inr other ↦ let never : raised _ db ≡ returned page d = rw other at h in cc
    ]

length-select :
    {A : Type 0} (p q : ℕ × A → Bool) (rows : List (ℕ × A))
    → length (select q (select p rows)) ≡ length (select (λ r. p r && q r) rows)
length-select p q [] = refl
length-select p q (row ∷ rows) = ground (arith, length-select p q rows)

-- A staff member is shown the control dashboard, and its numbers of overdue auctions are the
-- numbers of auctions that a sweep would try to start and to close at that time.
pub show_control-due :
    (staff : ℕ) (u : User) (db : Db)
    → is_officer_or_admin u ≡ true
    → (page : ControlDashboard) × (show_control (some (staff, u)) db ≡ returned page db)
      × (page.overdue_start ≡ length (due_to_start db))
      × (page.overdue_close ≡ length (due_to_close db))
unfolding show_control require_staff require_user due_to_start due_to_close filter dashboard
show_control-due staff u db h = (
  dashboard db,
  rw h refl,
  length-select (λ r. is_scheduled r.1.status) (λ r. leb r.1.start_time db.clock) db.auctions.rows,
  length-select (λ r. is_live r.1.status) (λ r. leb r.1.end_time db.clock) db.auctions.rows,
)
