-- ===== src/Payments.antt =====
-- apps/payments/services.py: the payment that a sale is owed, and what staff record about it. There
-- is one row for an auction. The caller passes its own copy of the row: the status is tested on
-- that copy, and the columns named in `update_fields` are written to the row.
pub mod Due
pub mod Outcome
use mbarara_auction.Prelude.{
  ℕ, String, Bool, true, false, not, ◌++◌, Option, none, some, List, [], ◌∷◌, ◌==◌, if◌then◌else◌,
  is_empty, strip,
}
use mbarara_auction.Table.{Table, get, modify, create, filter}
use mbarara_auction.Models.{Db}
use mbarara_auction.Models.Auctions.{AuctionStatus, Auction, is_closed}
use mbarara_auction.Models.Payments.{PaymentStatus, Payment, is_pending, is_paid}
use mbarara_auction.Models.Records.{Action, ObjectType, ObjectRef, Value}
use mbarara_auction.Errors.{Error, ValueError}
use mbarara_auction.Exec.{Exec, pure, gets, or_raise, raise_if, effect, atomic, ◌>>=◌, ◌>>◌}
use mbarara_auction.Audit.{audit}
use mbarara_auction.Notifications.Events.{notify_payment_received, notify_payment_failed}
use mbarara_auction.Auctions.Services.{transition}

abbrev pub payment_object : ℕ → ObjectRef
payment_object key = record { kind = ObjectType.payment_type; key = key }

abbrev pub find_payment : ℕ → List (ℕ × Payment) → Option (ℕ × Payment)
find_payment k [] = none
find_payment k ((key, p) ∷ rows) = if p.auction == k then some (key, p) else find_payment k rows

-- `getattr(auction, "payment", None)`
unfoldable pub payment_of : ℕ → Db → Option (ℕ × Payment)
unfolding find_payment
payment_of k db = find_payment k db.payments.rows

abbrev pub new_payment : ℕ → ℕ → ℕ → Payment
new_payment k amount now = record {
  auction = k;
  amount = amount;
  status = PaymentStatus.pending;
  method = "";
  reference = "";
  notes = "";
  recorded_by = none;
  paid_at = none;
  created_at = now;
  updated_at = now;
}

unfoldable pub insert_payment : ℕ → ℕ → Db → Db
unfolding audit
insert_payment k amount db =
    audit none Action.payment_pending (payment_object db.payments.next) ""
      (("auction_id", Value.key_of k) ∷ [])
      (record db { payments = create (new_payment k amount db.clock) db.payments })

-- The existing payment; or a new one, if there is a winner and a price; or none.
unfoldable pub pay_or_create : ℕ → Option (ℕ × Payment) → Option ℕ → Option ℕ → Exec (Option ℕ)
pay_or_create k (some (key, _)) winner price = pure (some key)
pay_or_create k none none price = pure none
pay_or_create k none (some _) none = pure none
pay_or_create k none (some _) (some price) = do
  key ← gets (λ db. db.payments.next)
  effect (insert_payment k price)
  pure (some key)

-- The key of the auction's payment, old or new; none if nothing was sold.
unfoldable pub create_pending_payment : ℕ → Auction → Exec (Option ℕ)
create_pending_payment k a = do
  existing ← gets (payment_of k)
  pay_or_create k existing a.winner a.final_price

abbrev pub as_paid : Option ℕ → String → String → String → ℕ → Payment → Payment
as_paid actor method reference notes now p = record p {
  status = PaymentStatus.paid;
  method = method;
  reference = reference;
  notes = notes;
  recorded_by = actor;
  paid_at = some now;
  updated_at = now;
}

abbrev pub save_payment : ℕ → (ℕ → Payment → Payment) → Db → Db
save_payment key f db = record db { payments = modify key (f db.clock) db.payments }

-- CLOSED becomes SETTLED; an auction in any other status stays as it is.
unfoldable pub settle_if_closed : ℕ → Option ℕ → Exec (Unit {0})
settle_if_closed k actor = do
  a ← gets (λ db. get k db.auctions)
  a ← or_raise a Error.does_not_exist
  if is_closed a.status
      then (do
        settled ← transition k AuctionStatus.settled actor "Payment recorded as received"
        pure tt)
      else pure tt

unfoldable pub mark_paid : ℕ → Payment → Option ℕ → String → String → String → Exec Payment
unfolding audit notify_payment_received
mark_paid key p actor method reference notes = atomic do
  raise_if (not (is_pending p.status)) (Error.value_error ValueError.payment_not_pending)
  now ← gets (λ db. db.clock)
  let paid = as_paid actor method reference notes now p
  effect (save_payment key (as_paid actor method reference notes))
  effect (
      audit actor Action.payment_received (payment_object key) ""
        (("method", Value.text method) ∷ ("reference", Value.text reference) ∷ []))
  settle_if_closed p.auction actor
  effect (notify_payment_received key paid)
  pure paid

abbrev pub as_failed : Option ℕ → String → ℕ → Payment → Payment
as_failed actor reason now p = record p {
  status = PaymentStatus.failed;
  notes = reason;
  recorded_by = actor;
  updated_at = now;
}

unfoldable pub mark_failed : ℕ → Payment → Option ℕ → String → Exec Payment
unfolding audit notify_payment_failed
mark_failed key p actor reason = do
  raise_if (is_empty reason) (Error.value_error ValueError.reason_missing)
  raise_if (not (is_pending p.status)) (Error.value_error ValueError.payment_not_pending)
  now ← gets (λ db. db.clock)
  let failed = as_failed actor reason now p
  effect (save_payment key (as_failed actor reason))
  effect (audit actor Action.payment_failed (payment_object key) reason [])
  effect (notify_payment_failed key failed reason)
  pure failed

-- The notes are those of the caller's copy.
abbrev pub as_refunded : Option ℕ → String → ℕ → Payment → Payment
as_refunded actor notes now p = record p {
  status = PaymentStatus.refunded;
  notes = notes;
  recorded_by = actor;
  updated_at = now;
}

abbrev pub refund_notes : Payment → String → String
refund_notes p reason = strip (p.notes ++ "\nRefunded: " ++ reason)

unfoldable pub mark_refunded : ℕ → Payment → Option ℕ → String → Exec Payment
unfolding audit
mark_refunded key p actor reason = do
  raise_if (is_empty reason) (Error.value_error ValueError.reason_missing)
  raise_if (not (is_paid p.status)) (Error.value_error ValueError.payment_not_paid)
  now ← gets (λ db. db.clock)
  let notes = refund_notes p reason
  effect (save_payment key (as_refunded actor notes))
  effect (audit actor Action.payment_refunded (payment_object key) reason [])
  pure (as_refunded actor notes now p)

unfoldable pub pending_payments : Db → List (ℕ × Payment)
pending_payments db = filter (λ p. is_pending p.status) db.payments
