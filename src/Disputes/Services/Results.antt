-- ===== src/Disputes/Services/Results.antt =====
-- apps/disputes/services.py: what each step of a dispute has done when it returns.
use mbarara_auction.Prelude.{
  ℕ, ◌≡◌, refl, ap, ◌∙◌, String, Bool, true, false, not, ◌&&◌, ◌||◌, Option, none, some, arith,
  is_empty, is_blank, strip, inl, inr, Bool-cases,
}
use mbarara_auction.Table.{get, modify}
use mbarara_auction.Models.{Db}
use mbarara_auction.Models.Auctions.{AuctionStatus, Auction, is_settled}
use mbarara_auction.Models.Payments.{Payment, is_paid}
use mbarara_auction.Models.Disputes.{Outcome, Dispute, is_active}
use mbarara_auction.Exec.{Result}
use mbarara_auction.Exec.Inversion.{
  roll_back-returned, continue-returned, or_raise-returned, raise_if-returned, returned-injective,
}
use mbarara_auction.Core.{Core, core}
use mbarara_auction.Auctions.Lifecycle.{is_allowed}
use mbarara_auction.Auctions.Services.{with_status, transition}
use mbarara_auction.Auctions.Services.Transitions.{moved, transition-Moved, Moved-Moved}
use mbarara_auction.Payments.{find_payment, as_refunded, refund_notes, payment_of, mark_refunded}
use mbarara_auction.Payments.Outcome.{repaid, mark_refunded-core}
use mbarara_auction.Disputes.Services.{
  lock_dispute, resolved_reason, restored_reason, refund_reason, as_resolved, save_resolved,
  paid_payment, refund_payment, restore_auction, announce_resolved, resolve_dispute,
}
use mbarara_auction.Disputes.Services.Opening.{core-notify_resolved_each}

-- The refund that a resolution may make.
pub data Refunds (k : ℕ) (actor : Option ℕ) (reason : String) (c c' : Core) : Bool → Type 0 where
  no_refund : {refund : Bool} → refund ≡ false → c' ≡ c → Refunds k actor reason c c' refund
  refunds :
      {refund : Bool} (key : ℕ) (p : Payment)
      → refund ≡ true
      → find_payment k c.payments.rows ≡ some (key, p)
      → is_paid p.status ≡ true
      → c' ≡ repaid key (as_refunded actor (refund_notes p reason)) c
      → Refunds k actor reason c c' refund

paid_payment_lem :
    (o : Option (ℕ × Payment)) (key : ℕ) (p : Payment)
    → paid_payment o ≡ some (key, p)
    → (o ≡ some (key, p)) × (is_paid p.status ≡ true)
paid_payment_lem none key p h = cc
paid_payment_lem (some (key', p')) key p h = ground arith

refund_payment-Refunds :
    (refund : Bool) (key k : ℕ) (actor : Option ℕ) (notes : String) (db : Db) {u : Unit {0}}
    {db' : Db}
    → refund_payment refund key k actor notes db ≡ Result.returned u db'
    → Refunds k actor (refund_reason key notes) (core db) (core db') refund
unfolding refund_payment payment_of
refund_payment-Refunds false key k actor notes db h =
    Refunds.no_refund refl (ap core (returned-injective h).1)
refund_payment-Refunds true key k actor notes db h =
    or_raise-returned _ _ (paid_payment (find_payment k db.payments.rows)) h λ r found h.
      continue-returned _ (mark_refunded r.0 r.1 actor (refund_reason key notes) db) h λ p2 d q h.
        let (found', paid) = paid_payment_lem _ r.0 r.1 found in
        Refunds.refunds r.0 r.1 refl found' paid
          (ap core (returned-injective h).1 ∙ (mark_refunded-core r.0 r.1 actor _ db q).2)

-- The auction returns to CLOSED, and goes on to SETTLED if it was settled and nothing is refunded.
pub data Restored (key : ℕ) (d : Dispute) (refund : Bool) (actor : Option ℕ) (c c' : Core)
    : Type 0 where
  to_closed :
      (a : Auction)
      → (is_settled d.auction_status_before && not refund) ≡ false
      → get d.auction c.auctions ≡ some a
      → is_allowed a.status AuctionStatus.closed ≡ true
      → c' ≡ moved d.auction a AuctionStatus.closed actor (resolved_reason key) c
      → Restored key d refund actor c c'
  to_settled :
      (a : Auction)
      → (is_settled d.auction_status_before && not refund) ≡ true
      → get d.auction c.auctions ≡ some a
      → is_allowed a.status AuctionStatus.closed ≡ true
      → c'
        ≡ moved d.auction
            (with_status AuctionStatus.closed c.clock a)
            AuctionStatus.settled
            actor
            (restored_reason key)
            (moved d.auction a AuctionStatus.closed actor (resolved_reason key) c)
      → Restored key d refund actor c c'

restore_auction-Restored :
    (key : ℕ) (d : Dispute) (refund : Bool) (actor : Option ℕ) (db : Db) {u : Unit {0}} {db' : Db}
    → restore_auction key d refund actor db ≡ Result.returned u db'
    → Restored key d refund actor (core db) (core db')
unfolding restore_auction
restore_auction-Restored key d refund actor db h =
    continue-returned _ (transition d.auction AuctionStatus.closed actor (resolved_reason key) db) h
      λ a2 db2 q h.
        let m = transition-Moved d.auction _ actor _ db q in
        elim (Bool-cases (is_settled d.auction_status_before && not refund)) [
          | inr stays ↦
              Restored.to_closed m.auction stays m.at_key m.allowed
                (ap core (returned-injective (rw stays at h)).1 ∙ m.after)
          | inl on ↦
              continue-returned _
                (transition d.auction AuctionStatus.settled actor (restored_reason key) db2)
                (rw on at h)
                λ a3 db3 q3 h3. Restored.to_settled m.auction on m.at_key m.allowed (
                  ap core (returned-injective h3).1
                  ∙ Moved-Moved m (transition-Moved d.auction _ actor _ db2 q3))
        ]

abbrev pub resolved_core : ℕ → Option ℕ → Outcome → String → Bool → Core → Core
resolved_core key actor outcome notes refund c = record c {
  disputes = modify key (as_resolved actor outcome notes refund c.clock) c.disputes;
}

-- A resolution: a refund or none, the auction restored, and the dispute's row written.
pub record Resolves (key : ℕ) (actor : Option ℕ) (outcome : Option Outcome) (notes : String)
    (refund : Bool) (db db' : Db) : Type 0 where
  pub dispute : Dispute
  pub its_outcome : Outcome
  pub refunded : Core
  pub restored : Core
  pub outcome_is : outcome ≡ some its_outcome
  pub noted : (is_empty notes || is_blank notes) ≡ false
  pub at_key : get key db.disputes ≡ some dispute
  pub active : is_active dispute.status ≡ true
  pub refund_step :
      Refunds dispute.auction actor (refund_reason key notes) (core db) refunded refund
  pub restore_step : Restored key dispute refund actor refunded restored
  pub after : core db' ≡ resolved_core key actor its_outcome (strip notes) refund restored

pub resolve_dispute-Resolves :
    (key : ℕ) (actor : Option ℕ) (outcome : Option Outcome) (notes : String) (refund : Bool)
    (db : Db) {d' : Dispute} {db' : Db}
    → resolve_dispute key actor outcome notes refund db ≡ Result.returned d' db'
    → Resolves key actor outcome notes refund db db'
unfolding resolve_dispute lock_dispute save_resolved announce_resolved
resolve_dispute-Resolves key actor outcome notes refund db h =
    or_raise-returned _ _ outcome (roll_back-returned db _ h) λ o is_o h.
      raise_if-returned _ _ (is_empty notes || is_blank notes) h λ noted h.
        or_raise-returned _ _ (get key db.disputes) h λ d found h.
          raise_if-returned _ _ (not (is_active d.status)) h λ active h.
            continue-returned _ (refund_payment refund key d.auction actor notes db) h
              λ u1 db1 q1 h.
                continue-returned _ (restore_auction key d refund actor db1) h λ u2 db2 q2 h.
                  record {
                    dispute = d;
                    its_outcome = o;
                    refunded = core db1;
                    restored = core db2;
                    outcome_is = is_o;
                    noted = noted;
                    at_key = found;
                    active = ground arith;
                    refund_step = refund_payment-Refunds refund key d.auction actor notes db q1;
                    restore_step = restore_auction-Restored key d refund actor db1 q2;
                    after = ap core (returned-injective h).1 ∙ core-notify_resolved_each key _ _ _;
                  }
