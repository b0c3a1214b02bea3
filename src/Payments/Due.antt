-- ===== src/Payments/Due.antt =====
-- apps/payments/services.py: what `create_pending_payment` leaves.
use mbarara_auction.Prelude.{ℕ, ◌≡◌, refl, Option, none, some}
use mbarara_auction.Table.{Table, create}
use mbarara_auction.Models.{Db}
use mbarara_auction.Models.Auctions.{Auction}
use mbarara_auction.Models.Payments.{Payment}
use mbarara_auction.Exec.{Result}
use mbarara_auction.Core.{core}
use mbarara_auction.Payments.{
  find_payment, payment_of, new_payment, insert_payment, pay_or_create, create_pending_payment,
}

abbrev due_from : Option ℕ → Option ℕ → Option (ℕ × Payment) → ℕ → ℕ → Table Payment → Table Payment
due_from none price existing k now t = t
due_from (some _) none existing k now t = t
due_from (some _) (some amount) (some _) k now t = t
due_from (some _) (some amount) none k now t = create (new_payment k amount now) t

-- The payments once an auction has been sold for a price, or not sold.
abbrev pub due_payments : ℕ → Option ℕ → Option ℕ → ℕ → Table Payment → Table Payment
due_payments k winner price now t = due_from winner price (find_payment k t.rows) k now t

pay_or_create-core :
    (k : ℕ) (existing : Option (ℕ × Payment)) (winner price : Option ℕ) (db : Db)
    → (r : Option ℕ) × (db' : Db) × (pay_or_create k existing winner price db
        ≡ Result.returned r db')
      × (core db'
          ≡ record (core db) { payments = due_from winner price existing k db.clock db.payments })
unfolding pay_or_create insert_payment
pay_or_create-core k (some (key, _)) none price db = (some key, db, refl, refl)
pay_or_create-core k (some (key, _)) (some _) none db = (some key, db, refl, refl)
pay_or_create-core k (some (key, _)) (some _) (some _) db = (some key, db, refl, refl)
pay_or_create-core k none none price db = (none, db, refl, refl)
pay_or_create-core k none (some _) none db = (none, db, refl, refl)
pay_or_create-core k none (some _) (some amount) db =
    (some db.payments.next, insert_payment k amount db, refl, refl)

-- It always returns.
pub create_pending_payment-core :
    (k : ℕ) (a : Auction) (db : Db)
    → (r : Option ℕ) × (db' : Db) × (create_pending_payment k a db ≡ Result.returned r db')
      × (core db' ≡ record (core db) {
        payments = due_payments k a.winner a.final_price db.clock db.payments;
      })
unfolding create_pending_payment payment_of
create_pending_payment-core k a db =
    pay_or_create-core k (find_payment k db.payments.rows) a.winner a.final_price db
