-- ===== src/Bidding/Amount/Bounds.antt =====
-- apps/bidding/services.py: what `_validate_amount` lets through.
use mbarara_auction.Prelude.{ℕ, zero, suc, ◌*◌, ◌^◌, ◌<◌, ◌≡◌, refl, Bool, false, arith, leb}
use mbarara_auction.Models.{Db}
use mbarara_auction.Exec.{returned}
use mbarara_auction.Exec.Inversion.{raise_if-returned, returned-injective}
use mbarara_auction.Bidding.Amount.{
  ℤ, pos, negsuc, decimal, cents, negate_if, is_too_fine, is_too_large, max_bid_amount,
  validate_amount,
}

validate_decimal-returned :
    (negative : Bool) (c : ℕ) (e : ℤ) (db : Db) {x : ℤ} {db' : Db}
    → validate_amount (decimal negative c e) db ≡ returned x db'
    → (is_too_fine e ≡ false)
      × (x ≡ negate_if negative (cents c e))
      × (is_too_large x ≡ false)
      × (db' ≡ db)
unfolding validate_amount
validate_decimal-returned negative c e db h = raise_if-returned _ _ (is_too_fine e) h λ fine h.
    raise_if-returned _ _ (is_too_large (negate_if negative (cents c e))) h
      λ small h. let (same, written) = returned-injective h in (fine, same, rw same small, written)

cents_of_places : (c n : ℕ) → leb 2 n ≡ false → cents c (negsuc n) * 10 ^ suc n ≡ c * 10 ^ 2
cents_of_places c zero fine = omega arith
cents_of_places c (suc zero) fine = omega arith
cents_of_places c (suc (suc n)) fine = absurd (ground arith)

pub small_pos : (x : ℤ) (n : ℕ) → x ≡ pos n → is_too_large x ≡ false → n < max_bid_amount
small_pos x n same small = ground arith

pos_injective : (m n : ℕ) → pos m ≡ pos n → m ≡ n
pos_injective m n h = cc

-- A positive or zero Decimal with decimal places that _validate_amount lets through has at most
-- two places, is below 10 ^ 12, and comes out as exactly that many cents, with the database
-- unchanged.
pub validate_amount-exact :
    (c n m : ℕ) (db : Db) {db' : Db}
    → validate_amount (decimal false c (negsuc n)) db ≡ returned (pos m) db'
    → (n < 2) × (m < max_bid_amount) × (m * 10 ^ suc n ≡ c * 10 ^ 2) × (db' ≡ db)
validate_amount-exact c n m db h =
    let (fine, same, small, written) = validate_decimal-returned false c (negsuc n) db h in
    let m_is : m ≡ cents c (negsuc n) = pos_injective m _ same in
    (ground arith, small_pos (pos m) m refl small, rw m_is (cents_of_places c n fine), written)
