-- ===== src/Bidding/Place/Extension.antt =====
-- apps/bidding/services.py: the end of an auction after a bid.
use mbarara_auction.Prelude.{
  ℕ, ◌+◌, ◌≤◌, ◌<◌, ◌≡◌, ap, sym, subst, some_unique, ◌∙◌, true, false, ◌==◌, some, arith,
}
use mbarara_auction.Table.{get, modify, get-modify}
use mbarara_auction.Models.{Db}
use mbarara_auction.Models.Accounts.{User}
use mbarara_auction.Models.Auctions.{Auction, is_open_at, is_live}
use mbarara_auction.Models.Bidding.{Bid}
use mbarara_auction.Exec.{Result}
use mbarara_auction.Bidding.Amount.{RawAmount}
use mbarara_auction.Bidding.Place.{new_end, window, with_bid, place_bid}
use mbarara_auction.Bidding.Place.Effects.{place_bid-Placed, auctions-Placed}

new_end_lem :
    (a : Auction) (now : ℕ)
    → is_open_at a now ≡ true
    → (a.end_time ≤ new_end a now) × (now < new_end a now)
unfolding new_end
new_end_lem a now is_open = (ground arith, ground arith)

new_end-window :
    (a : Auction) (now : ℕ)
    → is_open_at a now ≡ true
    → (a.extension_minutes == 0) ≡ false
    → now + window a ≤ new_end a now
unfolding new_end
new_end-window a now is_open extends = ground arith

-- For an auction with an anti-sniping window: a bid that place_bid accepts leaves the auction live
-- and showing the bid's amount, with an end that is no earlier than before and at least a whole
-- window after the bid.
pub place_bid-end_time :
    (k user_key : ℕ) (user : User) (raw : RawAmount) (db : Db) (a : Auction) {key : ℕ} {b : Bid}
    {db' : Db}
    → get k db.auctions ≡ some a
    → (a.extension_minutes == 0) ≡ false
    → place_bid k user_key user raw db ≡ Result.returned (key, b) db'
    → (a' : Auction) × (get k db'.auctions ≡ some a')
      × (is_live a'.status ≡ true)
      × (a'.current_highest_bid ≡ some b.amount)
      × (a.end_time ≤ a'.end_time)
      × (db.clock + window a ≤ a'.end_time)
place_bid-end_time k user_key user raw db a {b = b} {db' = db'} found extends h =
    let p = place_bid-Placed k user_key user raw db h in
    let same : p.auction ≡ a = some_unique p.at_key found in
    let extends' = subst (λ (x : Auction). (x.extension_minutes == 0) ≡ false) (sym same) extends in
    let f = with_bid p.amount (new_end p.auction db.clock) db.clock in
    let at_key : get k (modify k f db.auctions) ≡ some (f p.auction) =
      ground (arith, p.at_key, get-modify k k f db.auctions) in
    subst
      (λ (x : Auction).
        (a' : Auction) × (get k db'.auctions ≡ some a')
        × (is_live a'.status ≡ true)
        × (a'.current_highest_bid ≡ some b.amount)
        × (x.end_time ≤ a'.end_time)
        × (db.clock + window x ≤ a'.end_time))
      same
      (
        f p.auction,
        ap (get k) (auctions-Placed p) ∙ at_key,
        p.checked.live,
        ground (arith, p.bid_is),
        (new_end_lem p.auction db.clock p.checked.open_now).0,
        new_end-window p.auction db.clock p.checked.open_now extends',
      )
