-- ===== src/System/Refinement/Moves.antt =====
-- apps/auctions/services.py and apps/auctions/scheduling.py: their operations as abstract steps.
use mbarara_auction.Prelude.{
  ℕ, ◌<◌, ◌≡◌, refl, sym, ap, subst, String, true, Option, some, arith, ltb, inl, inr, Bool-cases,
}
use mbarara_auction.Table.{get}
use mbarara_auction.Models.{Db}
use mbarara_auction.Models.Auctions.{AuctionStatus, Auction, is_scheduled}
use mbarara_auction.Exec.{Result}
use mbarara_auction.Core.{Core, core}
use mbarara_auction.Auctions.Services.{transition, approve, activate_if_due}
use mbarara_auction.Auctions.Services.Transitions.{Moved, transition-Moved}
use mbarara_auction.Auctions.Services.Operations.{approve-Moved, activate_if_due-Moved}
use mbarara_auction.Scheduling.Controls.{start_now, reschedule, pause, resume, cancel_auction}
use mbarara_auction.Scheduling.Controls.Outcome.{
  pause-Moved, resume-Moved, cancel_auction-Moved, Rescheduled, reschedule-Rescheduled, pulled,
  start_now-Moved,
}
use mbarara_auction.System.Step.{Step, Steps, MaySchedule, is_plain, one, append}

pub Moved-Steps :
    {k : ℕ} {to : AuctionStatus} {actor : Option ℕ} {reason : String} {db : Db} {a' : Auction}
    {db' : Db}
    → Moved k to actor reason db a' db'
    → is_plain to ≡ true
    → Steps (core db) (core db')
Moved-Steps {k} {to} {actor} {reason} {db} m plain =
    subst (Steps (core db)) (sym m.after)
      (one (Step.move k m.auction to actor reason m.at_key m.allowed plain))

-- A transition to a status other than CLOSED, SETTLED, DISPUTED and COMPLETED is one step.
pub transition-Steps :
    (k : ℕ) (to : AuctionStatus) (actor : Option ℕ) (reason : String) (db : Db) {a' : Auction}
    {db' : Db}
    → is_plain to ≡ true
    → transition k to actor reason db ≡ Result.returned a' db'
    → Steps (core db) (core db')
transition-Steps k to actor reason db plain h =
    Moved-Steps (transition-Moved k to actor reason db h) plain

pub approve-Steps :
    (k : ℕ) (actor : Option ℕ) (reason : String) (db : Db) {a' : Auction} {db' : Db}
    → approve k actor reason db ≡ Result.returned a' db'
    → Steps (core db) (core db')
approve-Steps k actor reason db h =
    let (a1, d, m, n) = approve-Moved k actor reason db h in
    append (Moved-Steps m refl) (Moved-Steps n refl)

pub activate_if_due-Steps :
    (k : ℕ) (a : Auction) (actor : Option ℕ) (db : Db) {a' : Auction} {db' : Db}
    → activate_if_due k a actor db ≡ Result.returned a' db'
    → Steps (core db) (core db')
activate_if_due-Steps k a actor db h = elim (activate_if_due-Moved k a actor db h) [
  | inl (m, due, late) ↦ Moved-Steps m refl
  | inr (same, unchanged) ↦ subst (Steps (core db)) (sym (ap core same)) Steps.here
]

pub pause-Steps :
    (k : ℕ) (actor : Option ℕ) (reason : String) (db : Db) {a' : Auction} {db' : Db}
    → pause k actor reason db ≡ Result.returned a' db'
    → Steps (core db) (core db')
pause-Steps k actor reason db h = Moved-Steps (pause-Moved k actor reason db h).1 refl

pub resume-Steps :
    (k : ℕ) (actor : Option ℕ) (db : Db) {a' : Auction} {db' : Db}
    → resume k actor db ≡ Result.returned a' db'
    → Steps (core db) (core db')
resume-Steps k actor db h =
    let (a, found, paused, future, m) = resume-Moved k actor db h in Moved-Steps m refl

pub cancel_auction-Steps :
    (k : ℕ) (actor : Option ℕ) (reason : String) (db : Db) {a' : Auction} {db' : Db}
    → cancel_auction k actor reason db ≡ Result.returned a' db'
    → Steps (core db) (core db')
cancel_auction-Steps k actor reason db h =
    let (a, found, running, reasoned, m) = cancel_auction-Moved k actor reason db h in
    Moved-Steps m refl

may_reschedule :
    {a : Auction} {start_time end_time : Option ℕ} {s e now : ℕ}
    → Rescheduled a start_time end_time s e now
    → MaySchedule a s e now
may_reschedule r = record {
  running = r.running;
  ordered = r.ordered;
  ends_later = r.ends_later;
  start_kept = r.start_kept;
  only_extended = r.only_extended;
}

-- If reschedule returns, what it did to the tables that the services decide by is a sequence of
-- abstract steps; the step for a schedule asks that a start is kept once the auction has started,
-- that the end is in the future, and that the end of a live auction is not earlier.
pub reschedule-Steps :
    (k : ℕ) (actor : Option ℕ) (reason : String) (start_time end_time : Option ℕ) (db : Db)
    {a' : Auction} {db' : Db}
    → reschedule k actor reason start_time end_time db ≡ Result.returned a' db'
    → Steps (core db) (core db')
reschedule-Steps k actor reason start_time end_time db h =
    let (a, s, e, found, reasoned, ok, after) =
      reschedule-Rescheduled k actor reason start_time end_time db h in
    subst (Steps (core db)) (sym after) (one (Step.schedule k a s e found (may_reschedule ok)))

may_start :
    (a : Auction) (now : ℕ)
    → is_scheduled a.status ≡ true
    → now < a.end_time
    → MaySchedule a now a.end_time now
may_start a now scheduled future = record {
  running = ground arith;
  ordered = future;
  ends_later = future;
  start_kept = λ p. ground arith;
  only_extended = λ p. ground arith;
}

pulled-Steps :
    (k : ℕ) (a : Auction) (c : Core)
    → get k c.auctions ≡ some a
    → is_scheduled a.status ≡ true
    → c.clock < a.end_time
    → Steps c (pulled k a c)
pulled-Steps k a c found scheduled future = elim (Bool-cases (ltb c.clock a.start_time)) [
  | inl early ↦
      rw early
        (one (Step.schedule k a c.clock a.end_time found (may_start a c.clock scheduled future)))
  | inr late ↦ rw late Steps.here
]

-- If start_now returns, what it did to the tables that the services decide by is a sequence of
-- abstract steps.
pub start_now-Steps :
    (k : ℕ) (actor : Option ℕ) (db : Db) {a' : Auction} {db' : Db}
    → start_now k actor db ≡ Result.returned a' db'
    → Steps (core db) (core db')
start_now-Steps k actor db h =
    let (a, d, found, scheduled, future, pulls, m) = start_now-Moved k actor db h in
    append (subst (Steps (core db)) (sym pulls) (pulled-Steps k a (core db) found scheduled future))
      (Moved-Steps m refl)
