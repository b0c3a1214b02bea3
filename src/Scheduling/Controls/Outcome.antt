-- ===== src/Scheduling/Controls/Outcome.antt =====
-- apps/auctions/scheduling.py: what each control has done when it returns.
use mbarara_auction.Prelude.{
  ℕ, ◌≤◌, ◌<◌, ◌≡◌, ap, ◌∙◌, String, ◌++◌, true, false, not, ◌||◌, Option, none, some, arith,
  if◌then◌else◌, leb, ltb, is_some, is_empty, is_blank, strip, inl, inr, Bool-cases,
}
use mbarara_auction.Table.{get, modify}
use mbarara_auction.Models.{Db}
use mbarara_auction.Models.Auctions.{AuctionStatus, Auction, is_live, is_scheduled, is_paused}
use mbarara_auction.Exec.{Exec, Result, continue}
use mbarara_auction.Exec.Inversion.{
  roll_back-returned, continue-returned, continue-reads, or_raise-returned, raise_if-returned,
  returned-injective,
}
use mbarara_auction.Core.{Core, core}
use mbarara_auction.Core.Notices.{core-notify_auction_update}
use mbarara_auction.Auctions.Services.{lock, transition, cancel}
use mbarara_auction.Auctions.Services.Transitions.{Moved-core, Moved, transition-Moved}
use mbarara_auction.Bidding.Close.{close_auction}
use mbarara_auction.Scheduling.Controls.{
  need_reason, with_schedule, pull_start, start_now, is_running, or_else, check_schedule,
  record_schedule, reschedule, pause, resume, cancel_auction, end_now,
}

need_reason-returned :
    {B C : Type 0} (f : String → Exec B) (reason : String) {db db' : Db} {b : B}
    → continue f (need_reason reason db) ≡ Result.returned b db'
    → ((is_empty reason || is_blank reason) ≡ false
        → f (strip reason) db ≡ Result.returned b db'
        → C)
    → C
unfolding need_reason
need_reason-returned f reason h go = go (ground arith) (ground arith)

-- A pause is a move to PAUSED, with a reason that is not blank.
pub pause-Moved :
    (k : ℕ) (actor : Option ℕ) (reason : String) (db : Db) {a' : Auction} {db' : Db}
    → pause k actor reason db ≡ Result.returned a' db'
    → ((is_empty reason || is_blank reason) ≡ false)
      × Moved k AuctionStatus.paused actor (strip reason) db a' db'
unfolding pause lock
pause-Moved k actor reason db h =
    need_reason-returned _ reason (roll_back-returned db _ h) λ reasoned h.
      or_raise-returned _ _ (get k db.auctions) h λ a found h.
        continue-returned _ (transition k AuctionStatus.paused actor (strip reason) db) h
          λ a2 d moved h.
            let (same, written) = returned-injective h in
            (
              reasoned,
              Moved-core (transition-Moved k _ actor _ db moved) same
                  (ap core written ∙ core-notify_auction_update k a2 _ _ _),
            )

-- A paused auction goes back to LIVE, if its end has not passed.
pub resume-Moved :
    (k : ℕ) (actor : Option ℕ) (db : Db) {a' : Auction} {db' : Db}
    → resume k actor db ≡ Result.returned a' db'
    → (a : Auction) × (get k db.auctions ≡ some a)
      × (is_paused a.status ≡ true)
      × (db.clock < a.end_time)
      × Moved k AuctionStatus.live actor "Resumed by staff" db a' db'
unfolding resume lock
resume-Moved k actor db h =
    or_raise-returned _ _ (get k db.auctions) (roll_back-returned db _ h) λ a found h.
      raise_if-returned _ _ (not (is_paused a.status)) h λ paused h.
        raise_if-returned _ _ (leb a.end_time db.clock) h λ future h.
          continue-returned _ (transition k AuctionStatus.live actor "Resumed by staff" db) h
            λ a2 d moved h.
              let (same, written) = returned-injective h in
              (
                a,
                found,
                ground arith,
                ground arith,
                Moved-core (transition-Moved k _ actor _ db moved) same
                    (ap core written ∙ core-notify_auction_update k a2 _ _ _),
              )

-- A scheduled, live or paused auction goes to CANCELLED.
pub cancel_auction-Moved :
    (k : ℕ) (actor : Option ℕ) (reason : String) (db : Db) {a' : Auction} {db' : Db}
    → cancel_auction k actor reason db ≡ Result.returned a' db'
    → (a : Auction) × (get k db.auctions ≡ some a)
      × (is_running a.status ≡ true)
      × ((is_empty reason || is_blank reason) ≡ false)
      × Moved k AuctionStatus.cancelled actor (strip reason) db a' db'
unfolding cancel_auction lock cancel
cancel_auction-Moved k actor reason db h =
    need_reason-returned _ reason (roll_back-returned db _ h) λ reasoned h.
      or_raise-returned _ _ (get k db.auctions) h λ a found h.
        raise_if-returned _ _ (not (is_running a.status)) h λ running h.
          continue-returned _ (transition k AuctionStatus.cancelled actor (strip reason) db) h
            λ a2 d moved h.
              let (same, written) = returned-injective h in
              (
                a,
                found,
                ground arith,
                reasoned,
                Moved-core (transition-Moved k _ actor _ db moved) same
                    (ap core written ∙ core-notify_auction_update k a2 _ _ _),
              )

-- The conditions on a new schedule.
pub record Rescheduled (a : Auction) (start_time end_time : Option ℕ) (new_start new_end : ℕ)
    (now : ℕ) : Type 0 where
  pub running : is_running a.status ≡ true
  pub start_is : new_start ≡ or_else start_time a.start_time
  pub end_is : new_end ≡ or_else end_time a.end_time
  pub ordered : new_start < new_end
  pub ends_later : now < new_end
  pub starts_later : is_scheduled a.status ≡ true → is_some start_time ≡ true → now < new_start
  pub start_kept : is_scheduled a.status ≡ false → new_start ≡ a.start_time
  pub only_extended : is_live a.status ≡ true → a.end_time ≤ new_end

check_schedule-Rescheduled :
    (a : Auction) (start_time end_time : Option ℕ) (db : Db) {s e : ℕ} {d : Db}
    → check_schedule a start_time end_time db ≡ Result.returned (s, e) d
    → Rescheduled a start_time end_time s e db.clock × (d ≡ db)
unfolding check_schedule
check_schedule-Rescheduled a none none db h = ground arith
check_schedule-Rescheduled a none (some e) db h = ground arith
check_schedule-Rescheduled a (some s) none db h = ground arith
check_schedule-Rescheduled a (some s) (some e) db h = ground arith

abbrev pub rescheduled : ℕ → ℕ → ℕ → Core → Core
rescheduled k start end c = record c {
  auctions = modify k (with_schedule start end c.clock) c.auctions;
}

core-record_schedule :
    (k : ℕ) (a : Auction) (actor : Option ℕ) (reason : String) (s e : ℕ) (db : Db)
    → core (record_schedule k a actor reason s e db) ≡ rescheduled k s e (core db)
unfolding record_schedule
core-record_schedule k a actor reason s e db = core-notify_auction_update k _ _ _ _

-- A new schedule that passes the checks is written.
pub reschedule-Rescheduled :
    (k : ℕ) (actor : Option ℕ) (reason : String) (start_time end_time : Option ℕ) (db : Db)
    {a' : Auction} {db' : Db}
    → reschedule k actor reason start_time end_time db ≡ Result.returned a' db'
    → (a : Auction) × (s : ℕ) × (e : ℕ) × (get k db.auctions ≡ some a)
      × ((is_empty reason || is_blank reason) ≡ false)
      × Rescheduled a start_time end_time s e db.clock
      × (core db' ≡ rescheduled k s e (core db))
unfolding reschedule lock
reschedule-Rescheduled k actor reason start_time end_time db h =
    need_reason-returned _ reason (roll_back-returned db _ h) λ reasoned h.
      or_raise-returned _ _ (get k db.auctions) h λ a found h.
        continue-reads _ (check_schedule a start_time end_time db)
          (λ r d q. (check_schedule-Rescheduled a start_time end_time db q).1) h
          λ r checks h.
            let (same, written) = returned-injective h in
            (
              a,
              r.0,
              r.1,
              found,
              reasoned,
              (check_schedule-Rescheduled a start_time end_time db checks).0,
              ap core written ∙ core-record_schedule k a actor (strip reason) r.0 r.1 db,
            )

-- An early start moves the start time to now.
abbrev pub pulled : ℕ → Auction → Core → Core
pulled k a c = if ltb c.clock a.start_time then rescheduled k c.clock a.end_time c else c

core-pull_start :
    (k : ℕ) (a : Auction) (actor : Option ℕ) (db : Db)
    → core (pull_start k a actor db) ≡ pulled k a (core db)
unfolding pull_start
core-pull_start k a actor db = elim (Bool-cases (ltb db.clock a.start_time)) [
  | inl e ↦ rw e
  | inr e ↦ rw e
]

pub start_now-Moved :
    (k : ℕ) (actor : Option ℕ) (db : Db) {a' : Auction} {db' : Db}
    → start_now k actor db ≡ Result.returned a' db'
    → (a : Auction) × (d : Db) × (get k db.auctions ≡ some a)
      × (is_scheduled a.status ≡ true)
      × (db.clock < a.end_time)
      × (core d ≡ pulled k a (core db))
      × Moved k AuctionStatus.live actor "Started manually by staff" d a' db'
unfolding start_now lock
start_now-Moved k actor db h =
    or_raise-returned _ _ (get k db.auctions) (roll_back-returned db _ h) λ a found h.
      raise_if-returned _ _ (not (is_scheduled a.status)) h λ scheduled h.
        raise_if-returned _ _ (leb a.end_time db.clock) h λ future h. (
          a,
          pull_start k a actor db,
          found,
          ground arith,
          ground arith,
          core-pull_start k a actor db,
          transition-Moved k _ actor _ (pull_start k a actor db) h,
        )

-- An early end closes a live auction as the automatic close does, with the reason given.
pub end_now-close_auction :
    (k : ℕ) (actor : Option ℕ) (reason : String) (db : Db) {a' : Auction} {db' : Db}
    → end_now k actor reason db ≡ Result.returned a' db'
    → (a : Auction) × (get k db.auctions ≡ some a)
      × (is_live a.status ≡ true)
      × ((is_empty reason || is_blank reason) ≡ false)
      × (close_auction k actor ("Ended early by staff: " ++ strip reason) db
          ≡ Result.returned a' db')
unfolding end_now lock
end_now-close_auction k actor reason db h = need_reason-returned _ reason h λ reasoned h.
    or_raise-returned _ _ (get k db.auctions) (roll_back-returned db _ h) λ a found h.
      raise_if-returned _ _ (not (is_live a.status)) h
        λ live h. (a, found, ground arith, reasoned, h)
