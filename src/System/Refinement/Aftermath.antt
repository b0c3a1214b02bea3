-- ===== src/System/Refinement/Aftermath.antt =====
-- apps/payments/services.py and apps/disputes/services.py: their operations as abstract steps.
use mbarara_auction.Prelude.{ℕ, ◌≡◌, sym, subst, String, Bool, Option, some}
use mbarara_auction.Table.{get}
use mbarara_auction.Models.{Db}
use mbarara_auction.Models.Payments.{Payment}
use mbarara_auction.Models.Disputes.{Category, Outcome, Dispute}
use mbarara_auction.Exec.{Result}
use mbarara_auction.Core.{core}
use mbarara_auction.Payments.{refund_notes, mark_paid, mark_failed, mark_refunded}
use mbarara_auction.Payments.Outcome.{mark_paid-Settled, mark_failed-core, mark_refunded-core}
use mbarara_auction.Disputes.Services.{
  open_dispute, take_for_review, resolve_dispute, refund_reason, raised_reason,
}
use mbarara_auction.Disputes.Services.Results.{resolve_dispute-Resolves}
use mbarara_auction.Disputes.Services.Opening.{open_dispute-Opened, take_for_review-core}
use mbarara_auction.Prelude.{strip}
use mbarara_auction.Disputes.Access.{has_active_dispute}
use mbarara_auction.System.Step.{Step, Steps, one}

-- If mark_paid returns and the caller's copy of the payment is what the table holds, what it did
-- to the tables that the services decide by is a sequence of abstract steps.
pub mark_paid-Steps :
    (key : ℕ) (p : Payment) (actor : Option ℕ) (method reference notes : String) (db : Db)
    {p' : Payment} {db' : Db}
    → get key db.payments ≡ some p
    → mark_paid key p actor method reference notes db ≡ Result.returned p' db'
    → Steps (core db) (core db')
mark_paid-Steps key p actor method reference notes db found h =
    let (pending, s) = mark_paid-Settled key p actor method reference notes db h in
    one (Step.pay key p actor method reference notes found pending s)

pub mark_failed-Steps :
    (key : ℕ) (p : Payment) (actor : Option ℕ) (reason : String) (db : Db) {p' : Payment} {db' : Db}
    → get key db.payments ≡ some p
    → mark_failed key p actor reason db ≡ Result.returned p' db'
    → Steps (core db) (core db')
mark_failed-Steps key p actor reason db found h =
    let (reasoned, pending, after) = mark_failed-core key p actor reason db h in
    subst (Steps (core db)) (sym after) (one (Step.fail_payment key p actor reason found pending))

pub mark_refunded-Steps :
    (key : ℕ) (p : Payment) (actor : Option ℕ) (reason : String) (db : Db) {p' : Payment} {db' : Db}
    → get key db.payments ≡ some p
    → mark_refunded key p actor reason db ≡ Result.returned p' db'
    → Steps (core db) (core db')
mark_refunded-Steps key p actor reason db found h =
    let (reasoned, paid, after) = mark_refunded-core key p actor reason db h in
    subst (Steps (core db)) (sym after)
      (one (Step.refund key p actor (refund_notes p reason) found paid))

-- If open_dispute returns, what it did to the tables that the services decide by is a sequence of
-- abstract steps.
pub open_dispute-Steps :
    (k user : ℕ) (category : Option Category) (description : String) (db : Db) {key : ℕ}
    {d : Dispute} {db' : Db}
    → open_dispute k user category description db ≡ Result.returned (key, d) db'
    → Steps (core db) (core db')
unfolding has_active_dispute
open_dispute-Steps k user category description db h =
    let o = open_dispute-Opened k user category description db h in
    subst (Steps (core db)) (sym o.after) (
      one (
        Step.dispute k user o.auction o.its_category (strip description)
          (raised_reason db.disputes.next) o.at_key o.disputable o.none_active))

pub take_for_review-Steps :
    (key : ℕ) (actor : Option ℕ) (db : Db) {d' : Dispute} {db' : Db}
    → take_for_review key actor db ≡ Result.returned d' db'
    → Steps (core db) (core db')
take_for_review-Steps key actor db h =
    let (d, found, opened, after) = take_for_review-core key actor db h in
    subst (Steps (core db)) (sym after) (one (Step.take key d actor found opened))

-- If resolve_dispute returns, what it did to the tables that the services decide by is a sequence
-- of abstract steps.
pub resolve_dispute-Steps :
    (key : ℕ) (actor : Option ℕ) (outcome : Option Outcome) (notes : String) (refund : Bool)
    (db : Db) {d' : Dispute} {db' : Db}
    → resolve_dispute key actor outcome notes refund db ≡ Result.returned d' db'
    → Steps (core db) (core db')
resolve_dispute-Steps key actor outcome notes refund db h =
    let r = resolve_dispute-Resolves key actor outcome notes refund db h in
    subst (Steps (core db)) (sym r.after) (
      one (
        Step.resolve key r.dispute actor r.its_outcome (refund_reason key notes) (strip notes)
          refund r.refunded r.restored r.at_key r.active r.refund_step r.restore_step))
