-- ===== src/Bidding/Close/Sale.antt =====
-- apps/bidding/services.py: to whom `close_auction` sells, and for what.
use mathlib.Core.Option
use mbarara_auction.Prelude.{
  ℕ, ◌≤◌, ◌≡◌, sym, ap, ◌∙◌, String, true, Option, some, List, arith, Option-cases, inl, inr,
}
use mbarara_auction.Table.{get}
use mbarara_auction.Models.{Db}
use mbarara_auction.Models.Auctions.{AuctionStatus, Auction, is_live}
use mbarara_auction.Models.Bidding.{Bid}
use mbarara_auction.Exec.{Result}
use mbarara_auction.Exec.Inversion.{returned-injective}
use mbarara_auction.Notifications.Recipients.{bidder_user}
use mbarara_auction.Bidding.Queries.{highest_bid, highest_amount}
use mbarara_auction.Bidding.Highest.{max_accepted, highest_amount-eq-max}
use mbarara_auction.Bidding.Close.{decide_winner, close_auction}
use mbarara_auction.Bidding.Close.Outcome.{close_auction-eq_returned}

-- A sale is for the largest accepted amount, which reaches the reserve price if there is one.
record IsSale (rows : List (ℕ × Bid)) (k : ℕ) (a : Auction) (price : Option ℕ) : Type 0 where
  pub amount : ℕ
  pub price_is : price ≡ some amount
  pub highest : max_accepted k rows ≡ some amount
  pub reserve : (r : ℕ) → a.reserve_price ≡ some r → r ≤ amount

decide_winner-IsSale :
    (k : ℕ) (a : Auction) (rows : List (ℕ × Bid)) (user_of : Bid → Option ℕ) (winner : ℕ)
    → (decide_winner a (highest_bid k rows) user_of).winner ≡ some winner
    → IsSale rows k a (decide_winner a (highest_bid k rows) user_of).final_price
unfolding decide_winner highest_amount
decide_winner-IsSale k a rows user_of winner h = elim (Option-cases (highest_bid k rows)) [
  | inl e ↦ absurd (ground arith)
  | inr ((key, b), e) ↦ record {
    amount = b.amount;
    price_is = ground arith;
    highest = sym (highest_amount-eq-max k rows) ∙ ap (Option.map (λ r. r.1.amount)) e;
    reserve = λ r q. ground arith;
  }
]

-- If close_auction on a live auction with a reserve price returns a row with a winner, the final
-- price is the largest accepted amount, it reaches the reserve price, and the status is CLOSED.
pub close_auction-price :
    (k : ℕ) (a : Auction) (actor : Option ℕ) (reason : String) (db : Db) (winner reserve : ℕ)
    {a' : Auction} {db' : Db}
    → get k db.auctions ≡ some a
    → is_live a.status ≡ true
    → a.reserve_price ≡ some reserve
    → close_auction k actor reason db ≡ Result.returned a' db'
    → a'.winner ≡ some winner
    → (price : ℕ) × (a'.final_price ≡ some price)
      × (max_accepted k db.bids.rows ≡ some price)
      × (reserve ≤ price)
      × (a'.status ≡ AuctionStatus.closed)
close_auction-price k a actor reason db winner reserve found live has_reserve h wins =
    let (d, e, c) = close_auction-eq_returned k a actor reason db found live in
    let same = (returned-injective (sym e ∙ h)).0 in
    let sale =
      decide_winner-IsSale k a db.bids.rows (bidder_user db) winner
        (sym (ap (λ (x : Auction). x.winner) same) ∙ wins) in
    (
      sale.amount,
      ap (λ (x : Auction). x.final_price) same ∙ sale.price_is,
      sale.highest,
      sale.reserve reserve has_reserve,
      ap (λ (x : Auction). x.status) same,
    )
