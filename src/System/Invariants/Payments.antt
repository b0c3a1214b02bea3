-- ===== src/System/Invariants/Payments.antt =====
-- The payments of an auction over any sequence of steps, against the OneToOneField of
-- apps/payments/models.py.
use mbarara_auction.Prelude.{
  String, ℕ, ◌+◌, ◌≤◌, ◌≡◌, refl, sym, ap, subst, Bool, Option, none, some, List, [], ◌∷◌, arith,
  ◌==◌, if◌then◌else◌, Option-cases, inl, inr,
}
use mbarara_auction.Table.{Table, modify, create, change}
use mbarara_auction.Models.Payments.{Payment}
use mbarara_auction.Models.Disputes.{Dispute}
use mbarara_auction.Core.{Core}
use mbarara_auction.Payments.{find_payment, new_payment}
use mbarara_auction.Payments.Due.{due_payments}
use mbarara_auction.Payments.Outcome.{Settled}
use mbarara_auction.Disputes.Services.Results.{Refunds, Restored}
use mbarara_auction.System.Step.{Step, Steps}

abbrev pub payment_count : ℕ → List (ℕ × Payment) → ℕ
payment_count k [] = 0
payment_count k ((_, p) ∷ rows) = (if p.auction == k then 1 else 0) + payment_count k rows

record PaidOnce (t : Table Payment) : Type 0 where
  pub once : (k : ℕ) → payment_count k t.rows ≤ 1

payment_count-change :
    (k key : ℕ) (f : Payment → Payment) (rows : List (ℕ × Payment))
    → ((p : Payment) → (f p).auction ≡ p.auction)
    → payment_count k (change key f rows) ≡ payment_count k rows
payment_count-change k key f [] same = refl
payment_count-change k key f ((i, p) ∷ rows) same =
    ground (arith, same p, payment_count-change k key f rows same)

modify-PaidOnce :
    (key : ℕ) (f : Payment → Payment) (t : Table Payment)
    → ((p : Payment) → (f p).auction ≡ p.auction)
    → PaidOnce t
    → PaidOnce (modify key f t)
unfolding modify
modify-PaidOnce key f t same s = record {
  once = λ k. rw (payment_count-change k key f t.rows same) (s.once k);
}

payment_count-none :
    (k : ℕ) (rows : List (ℕ × Payment)) → find_payment k rows ≡ none → payment_count k rows ≡ 0
payment_count-none k [] h = refl
payment_count-none k ((i, p) ∷ rows) h = ground (arith, payment_count-none k rows)

create-PaidOnce :
    (k amount now : ℕ) (t : Table Payment)
    → find_payment k t.rows ≡ none
    → PaidOnce t
    → PaidOnce (create (new_payment k amount now) t)
unfolding create
create-PaidOnce k amount now t unpaid s = record {
  once = λ j. ground (arith, payment_count-none k t.rows unpaid, s.once j);
}

due_payments-PaidOnce :
    (k : ℕ) (winner price : Option ℕ) (now : ℕ) (t : Table Payment)
    → PaidOnce t
    → PaidOnce (due_payments k winner price now t)
due_payments-PaidOnce k none price now t s = s
due_payments-PaidOnce k (some w) none now t s = s
due_payments-PaidOnce k (some w) (some amount) now t s =
    elim (Option-cases (find_payment k t.rows)) [
      | inl unpaid ↦ rw unpaid (create-PaidOnce k amount now t unpaid s)
      | inr (p, e) ↦ rw e s
    ]

Settled-payments :
    {k : ℕ} {actor : Option ℕ} {c c' : Core} → Settled k actor c c' → c'.payments ≡ c.payments
Settled-payments (Settled.settled a found closed e) = ap (λ (x : Core). x.payments) e
Settled-payments (Settled.left_alone a found other e) = ap (λ (x : Core). x.payments) e

Restored-payments :
    {key : ℕ} {d : Dispute} {refund : Bool} {actor : Option ℕ} {c c' : Core}
    → Restored key d refund actor c c'
    → c'.payments ≡ c.payments
Restored-payments (Restored.to_closed a stays found allowed e) = ap (λ (x : Core). x.payments) e
Restored-payments (Restored.to_settled a on found allowed e) = ap (λ (x : Core). x.payments) e

Refunds-PaidOnce :
    {k : ℕ} {actor : Option ℕ} {reason : String} {c c' : Core} {refund : Bool}
    → Refunds k actor reason c c' refund
    → PaidOnce c.payments
    → PaidOnce c'.payments
Refunds-PaidOnce (Refunds.no_refund not_asked e) s =
    subst (λ (x : Core). PaidOnce x.payments) (sym e) s
Refunds-PaidOnce {actor = actor} {c = c} (Refunds.refunds key p asked found paid e) s =
    subst (λ (x : Core). PaidOnce x.payments) (sym e)
      (modify-PaidOnce key _ c.payments (λ x. refl) s)

Step-PaidOnce : {c d : Core} → Step c d → PaidOnce c.payments → PaidOnce d.payments
Step-PaidOnce (Step.move k a to actor reason found allowed plain) s = s
Step-PaidOnce (Step.bid k a bidder amount found live open_now enough positive) s = s
Step-PaidOnce (Step.invalidate k a key b actor reason found at_key its reasoned) s = s
Step-PaidOnce {c} (Step.close k a user_of actor reason found live) s =
    due_payments-PaidOnce k _ _ c.clock c.payments s
Step-PaidOnce (Step.schedule k a start end found may) s = s
Step-PaidOnce {c} (Step.pay key p actor method reference notes found pending w) s =
    subst PaidOnce (sym (Settled-payments w)) (modify-PaidOnce key _ c.payments (λ x. refl) s)
Step-PaidOnce {c} (Step.fail_payment key p actor reason found pending) s =
    modify-PaidOnce key _ c.payments (λ x. refl) s
Step-PaidOnce {c} (Step.refund key p actor notes found paid) s =
    modify-PaidOnce key _ c.payments (λ x. refl) s
Step-PaidOnce (Step.dispute k user a category description reason found disputable inactive) s = s
Step-PaidOnce (Step.take key d actor found opened) s = s
Step-PaidOnce
      (Step.resolve key d actor outcome reason notes refund refunded restored found active r w) s =
    subst PaidOnce (sym (Restored-payments w)) (Refunds-PaidOnce r s)
Step-PaidOnce (Step.list_auction a draft) s = s
Step-PaidOnce (Step.edit_listing k a a' found draft draft' same) s = s
Step-PaidOnce (Step.people users sellers bidders) s = s
Step-PaidOnce (Step.pass_time now later) s = s

Steps-PaidOnce : {c d : Core} → Steps c d → PaidOnce c.payments → PaidOnce d.payments
Steps-PaidOnce Steps.here s = s
Steps-PaidOnce (Steps.then t u) s = Step-PaidOnce u (Steps-PaidOnce t s)

-- If there is at most one payment for every auction, there is at most one after any sequence of
-- steps of the platform.
pub Steps-payment_count :
    {c d : Core}
    → Steps c d
    → ((k : ℕ) → payment_count k c.payments.rows ≤ 1)
    → (k : ℕ) → payment_count k d.payments.rows ≤ 1
Steps-payment_count steps h = (Steps-PaidOnce steps (record { once = h })).once
