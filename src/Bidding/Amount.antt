-- ===== src/Bidding/Amount.antt =====
-- apps/bidding/services.py: `_validate_amount`. An amount is what Python may hand over: a Decimal
-- has a sign, a coefficient and an exponent. Validated amounts are signed cents.
pub mod Bounds
use mbarara_auction.Prelude.{
  ℕ, zero, suc, ◌+◌, ◌-◌, ◌*◌, ◌^◌, Bool, true, false, Option, none, some, leb, ltb, if◌then◌else◌,
}
use mbarara_auction.Errors.{Error, BidRejection}
use mbarara_auction.Exec.{Exec, pure, raise, raise_if, ◌>>=◌, ◌>>◌}

-- `negsuc n` is -(n + 1).
pub data ℤ : Type 0 where
  pos : ℕ → ℤ
  negsuc : ℕ → ℤ

pub data RawAmount : Type 0 where
  int : ℤ → RawAmount
  bool : Bool → RawAmount
  decimal : Bool → ℕ → ℤ → RawAmount
  nan infinity : RawAmount
  other : RawAmount

abbrev pub negate_if : Bool → ℕ → ℤ
negate_if false n = pos n
negate_if true zero = pos 0
negate_if true (suc n) = negsuc n

-- coefficient · 10 ^ exponent, in cents, for an exponent of -2 or more
abbrev pub cents : ℕ → ℤ → ℕ
cents c (pos e) = c * 10 ^ (e + 2)
cents c (negsuc n) = if leb 1 n then c else c * 10

-- `exponent < -2`
abbrev pub is_too_fine : ℤ → Bool
is_too_fine (pos e) = false
is_too_fine (negsuc n) = leb 2 n

-- MAX_BID_AMOUNT, 10 ^ 12, in cents
abbrev pub max_bid_amount : ℕ
max_bid_amount = 100_000_000_000_000

abbrev pub is_too_large : ℤ → Bool
is_too_large (pos n) = leb max_bid_amount n
is_too_large (negsuc n) = false

abbrev pub validate_decimal : Bool → ℕ → ℤ → Exec ℤ
validate_decimal negative c e = do
  raise_if (is_too_fine e) (Error.bid_rejected BidRejection.too_many_decimals)
  let amount = negate_if negative (cents c e)
  raise_if (is_too_large amount) (Error.bid_rejected BidRejection.too_large)
  pure amount

unfoldable pub validate_amount : RawAmount → Exec ℤ
validate_amount (int (pos n)) = validate_decimal false n (pos 0)
validate_amount (int (negsuc n)) = validate_decimal true (suc n) (pos 0)
validate_amount (bool _) = raise (Error.bid_rejected BidRejection.not_a_valid_amount)
validate_amount (decimal negative c e) = validate_decimal negative c e
validate_amount nan = raise (Error.bid_rejected BidRejection.not_a_valid_amount)
validate_amount infinity = raise (Error.bid_rejected BidRejection.not_a_valid_amount)
validate_amount other = raise (Error.bid_rejected BidRejection.not_a_valid_amount)

-- `not (amount < minimum)`, with the amount as the number that it then is
abbrev pub at_least : ℕ → ℤ → Option ℕ
at_least minimum (negsuc n) = none
at_least minimum (pos n) = if ltb n minimum then none else some n
