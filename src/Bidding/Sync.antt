-- ===== src/Bidding/Sync.antt =====
-- apps/bidding/services.py: `current_highest_bid` after each of the two writers of bids.
use mbarara_auction.Prelude.{
  ℕ, ◌≡◌, refl, sym, ap, String, true, false, Option, some, arith, is_empty,
}
use mbarara_auction.Table.{get, modify, change}
use mbarara_auction.Table.Keys.{IsKeyed}
use mbarara_auction.Models.{Db}
use mbarara_auction.Models.Accounts.{User}
use mbarara_auction.Models.Auctions.{Auction}
use mbarara_auction.Models.Bidding.{Bid, is_accepted}
use mbarara_auction.Exec.{Result}
use mbarara_auction.Exec.Inversion.{roll_back-returned, or_raise-returned, raise_if-returned}
use mbarara_auction.Auctions.Services.{lock}
use mbarara_auction.Bidding.Amount.{RawAmount}
use mbarara_auction.Bidding.Queries.{highest_amount}
use mbarara_auction.Bidding.Highest.{IsInSync, create-IsInSync, recompute-IsInSync}
use mbarara_auction.Bidding.Place.{place_bid, with_bid, new_end}
use mbarara_auction.Bidding.Place.Effects.{Placed, place_bid-Placed, auctions-Placed, bids-Placed}
use mbarara_auction.Bidding.Invalidate.{
  as_invalidated, with_highest, save_invalidated, recompute_highest, invalidate_bid,
}

new_bid-amount :
    {k user_key : ℕ} {user : User} {raw : RawAmount} {db : Db} {key : ℕ} {b : Bid} {db' : Db}
    (p : Placed k user_key user raw db key b db')
    → (b.auction ≡ k) × (is_accepted b.status ≡ true) × (b.amount ≡ p.amount)
new_bid-amount p = ground arith

-- If every stored highest bid is the highest accepted amount and place_bid returns, it is so
-- afterwards.
pub place_bid-IsInSync :
    (k user_key : ℕ) (user : User) (raw : RawAmount) (db : Db) {key : ℕ} {b : Bid} {db' : Db}
    → place_bid k user_key user raw db ≡ Result.returned (key, b) db'
    → IsInSync db.auctions db.bids
    → IsInSync db'.auctions db'.bids
place_bid-IsInSync k user_key user raw db {b = b} h sync =
    let p = place_bid-Placed k user_key user raw db h in
    let (on_k, accepted, amount) = new_bid-amount p in
    rw (auctions-Placed p, bids-Placed p)
      (create-IsInSync k b (with_bid p.amount (new_end p.auction db.clock) db.clock) db.auctions
        db.bids p.at_key on_k accepted (rw amount p.checked.enough) (λ x. ap some (sym amount))
        sync)

-- What `invalidate_bid` writes.
module _ (key : ℕ) (b : Bid) (actor : Option ℕ) (reason : String) (db : Db) where
  abbrev invalidated : Bid → Bid
  invalidated = as_invalidated actor reason db.clock

  pub record Invalidated (db' : Db) : Type 0 where
    pub reasoned : is_empty reason ≡ false
    pub auction : Auction
    pub at_key : get b.auction db.auctions ≡ some auction
    pub bids : db'.bids ≡ modify key invalidated db.bids
    pub auctions :
        db'.auctions
        ≡ modify b.auction
            (with_highest (highest_amount b.auction (change key invalidated db.bids.rows)) db.clock)
            db.auctions

  pub invalidate_bid-Invalidated :
      {b' : Bid} {db' : Db}
      → invalidate_bid key b actor reason db ≡ Result.returned b' db'
      → Invalidated db'
  unfolding invalidate_bid lock save_invalidated recompute_highest modify
  invalidate_bid-Invalidated h = raise_if-returned _ _ (is_empty reason) h λ reasoned h.
      or_raise-returned _ _ (get b.auction db.auctions) (roll_back-returned db _ h) λ a found h.
        record {
          reasoned = reasoned;
          auction = a;
          at_key = found;
          bids = ground arith;
          auctions = ground arith;
        }

  -- If every stored highest bid is the highest accepted amount, the bids' keys are sound, the bid
  -- is in the table and on the auction of the caller's copy, and invalidate_bid returns, it is so
  -- afterwards.
  pub invalidate_bid-IsInSync :
      {row b' : Bid} {db' : Db}
      → IsKeyed db.bids
      → get key db.bids ≡ some row
      → row.auction ≡ b.auction
      → invalidate_bid key b actor reason db ≡ Result.returned b' db'
      → IsInSync db.auctions db.bids
      → IsInSync db'.auctions db'.bids
  invalidate_bid-IsInSync {row = row} keyed found its h sync =
      let w = invalidate_bid-Invalidated h in
      rw (w.auctions, w.bids)
        (recompute-IsInSync b.auction key invalidated row _ db.auctions db.bids (λ x. refl) keyed
          found its (λ x. refl) sync)
