-- ===== src/Payments/Outcome.antt =====
-- apps/payments/services.py: what each recorded payment event has done when it returns.
use mbarara_auction.Prelude.{
  ℕ, ◌≡◌, sym, ap, subst, ◌∙◌, String, true, false, not, Option, some, arith, is_empty, inl, inr,
  some_unique, Bool-cases,
}
use mbarara_auction.Table.{get, modify}
use mbarara_auction.Models.{Db}
use mbarara_auction.Models.Auctions.{AuctionStatus, Auction, is_closed}
use mbarara_auction.Models.Payments.{Payment, is_pending, is_paid}
use mbarara_auction.Exec.{Result}
use mbarara_auction.Exec.Inversion.{
  roll_back-returned, continue-returned, or_raise-returned, raise_if-returned, returned-injective,
}
use mbarara_auction.Core.{Core, core}
use mbarara_auction.Auctions.Services.{transition}
use mbarara_auction.Auctions.Services.Transitions.{moved, transition-Moved}
use mbarara_auction.Payments.{
  as_paid, as_failed, as_refunded, refund_notes, settle_if_closed, mark_paid, mark_failed,
  mark_refunded,
}

abbrev pub repaid : ℕ → (ℕ → Payment → Payment) → Core → Core
repaid key f c = record c { payments = modify key (f c.clock) c.payments }

abbrev settled_reason : String
settled_reason = "Payment recorded as received"

-- A closed auction is settled; another is left alone.
pub data Settled (k : ℕ) (actor : Option ℕ) (c c' : Core) : Type 0 where
  settled :
      (a : Auction)
      → get k c.auctions ≡ some a
      → is_closed a.status ≡ true
      → c' ≡ moved k a AuctionStatus.settled actor settled_reason c
      → Settled k actor c c'
  left_alone :
      (a : Auction)
      → get k c.auctions ≡ some a
      → is_closed a.status ≡ false
      → c' ≡ c
      → Settled k actor c c'

settle_if_closed-Settled :
    (k : ℕ) (actor : Option ℕ) (db : Db) {u : Unit {0}} {db' : Db}
    → settle_if_closed k actor db ≡ Result.returned u db'
    → Settled k actor (core db) (core db')
unfolding settle_if_closed
settle_if_closed-Settled k actor db h = or_raise-returned _ _ (get k db.auctions) h λ a found h.
    elim (Bool-cases (is_closed a.status)) [
      | inl closed ↦
          continue-returned _ (transition k AuctionStatus.settled actor settled_reason db)
            (rw closed at h)
            λ a2 d q h.
              let m = transition-Moved k _ actor _ db q in
              let same : m.auction ≡ a = some_unique m.at_key found in
              Settled.settled m.auction m.at_key (rw same closed)
                (ap core (returned-injective h).1 ∙ m.after)
      | inr other ↦
          Settled.left_alone a found other (ap core (returned-injective (rw other at h)).1)
    ]

-- The payment is marked as paid, and then the auction is settled if it is closed.
pub mark_paid-Settled :
    (key : ℕ) (p : Payment) (actor : Option ℕ) (method reference notes : String) (db : Db)
    {p' : Payment} {db' : Db}
    → mark_paid key p actor method reference notes db ≡ Result.returned p' db'
    → (is_pending p.status ≡ true)
      × Settled p.auction actor
          (repaid key (as_paid actor method reference notes) (core db))
          (core db')
unfolding mark_paid
mark_paid-Settled key p actor method reference notes db h =
    raise_if-returned _ _ (not (is_pending p.status)) (roll_back-returned db _ h) λ pending h.
      continue-returned _ (settle_if_closed p.auction actor _) h λ u d q h. (
        ground arith,
        subst (Settled p.auction actor _) (sym (ap core (returned-injective h).1))
            (settle_if_closed-Settled p.auction actor _ q),
      )

pub mark_failed-core :
    (key : ℕ) (p : Payment) (actor : Option ℕ) (reason : String) (db : Db) {p' : Payment} {db' : Db}
    → mark_failed key p actor reason db ≡ Result.returned p' db'
    → (is_empty reason ≡ false)
      × (is_pending p.status ≡ true)
      × (core db' ≡ repaid key (as_failed actor reason) (core db))
unfolding mark_failed
mark_failed-core key p actor reason db h = raise_if-returned _ _ (is_empty reason) h λ reasoned h.
    raise_if-returned _ _ (not (is_pending p.status)) h
      λ pending h. (reasoned, ground arith, ap core (returned-injective h).1)

pub mark_refunded-core :
    (key : ℕ) (p : Payment) (actor : Option ℕ) (reason : String) (db : Db) {p' : Payment} {db' : Db}
    → mark_refunded key p actor reason db ≡ Result.returned p' db'
    → (is_empty reason ≡ false)
      × (is_paid p.status ≡ true)
      × (core db' ≡ repaid key (as_refunded actor (refund_notes p reason)) (core db))
unfolding mark_refunded
mark_refunded-core key p actor reason db h = raise_if-returned _ _ (is_empty reason) h λ reasoned h.
    raise_if-returned _ _ (not (is_paid p.status)) h
      λ paid h. (reasoned, ground arith, ap core (returned-injective h).1)
