-- ===== src/System/Refinement/Bids.antt =====
-- apps/bidding/services.py: its operations as abstract steps.
use mbarara_auction.Prelude.{
  ℕ, ◌≡◌, refl, sym, ap, subst, ◌∙◌, String, true, not, Option, some, arith, inl, inr, Bool-cases,
}
use mbarara_auction.Table.{get, modify}
use mbarara_auction.Models.{Db}
use mbarara_auction.Models.Accounts.{User}
use mbarara_auction.Models.Auctions.{Auction, is_live}
use mbarara_auction.Models.Bidding.{Bid}
use mbarara_auction.Exec.{Result}
use mbarara_auction.Exec.Inversion.{
  roll_back-returned, or_raise-returned, raise_if-returned, returned-injective,
}
use mbarara_auction.Core.{core}
use mbarara_auction.Auctions.Services.{lock}
use mbarara_auction.Notifications.Recipients.{bidder_user}
use mbarara_auction.Bidding.Amount.{RawAmount}
use mbarara_auction.Bidding.Place.{place_bid, after_bid, is_extended}
use mbarara_auction.Bidding.Place.Effects.{Placed, place_bid-Placed}
use mbarara_auction.Bidding.Invalidate.{invalidate_bid, save_invalidated, recompute_highest}
use mbarara_auction.Bidding.Close.{close_auction}
use mbarara_auction.Bidding.Close.Outcome.{close_auction-eq_returned}
use mbarara_auction.Scheduling.Controls.{end_now}
use mbarara_auction.Scheduling.Controls.Outcome.{end_now-close_auction}
use mbarara_auction.System.Step.{Step, Steps, one, bid_core}

core-place_bid :
    {k user_key : ℕ} {user : User} {raw : RawAmount} {db : Db} {key : ℕ} {b : Bid} {db' : Db}
    (p : Placed k user_key user raw db key b db')
    → core db' ≡ bid_core k p.auction p.bidder p.amount (core db)
unfolding after_bid
core-place_bid {db = db} p = elim (Bool-cases (is_extended p.auction db.clock)) [
  | inl e ↦ ap core p.after ∙ rw (e, p.bid_is) refl
  | inr e ↦ ap core p.after ∙ rw (e, p.bid_is) refl
]

-- If place_bid returns, what it did to the tables that the services decide by is a sequence of
-- abstract steps.
pub place_bid-Steps :
    (k user_key : ℕ) (user : User) (raw : RawAmount) (db : Db) {key : ℕ} {b : Bid} {db' : Db}
    → place_bid k user_key user raw db ≡ Result.returned (key, b) db'
    → Steps (core db) (core db')
place_bid-Steps k user_key user raw db h =
    let p = place_bid-Placed k user_key user raw db h in
    subst (Steps (core db)) (sym (core-place_bid p)) (
      one (
        Step.bid k p.auction p.bidder p.amount p.at_key p.checked.live p.checked.open_now
          p.checked.enough p.positive))

-- If invalidate_bid returns and the caller's copy of the bid is what the table holds, what it did
-- to the tables that the services decide by is a sequence of abstract steps.
pub invalidate_bid-Steps :
    (key : ℕ) (b : Bid) (actor : Option ℕ) (reason : String) (db : Db) {b' : Bid} {db' : Db}
    → get key db.bids ≡ some b
    → invalidate_bid key b actor reason db ≡ Result.returned b' db'
    → Steps (core db) (core db')
unfolding invalidate_bid lock save_invalidated recompute_highest modify
invalidate_bid-Steps key b actor reason db at_key h = raise_if-returned _ _ _ h λ reasoned h.
    or_raise-returned _ _ (get b.auction db.auctions) (roll_back-returned db _ h) λ a found h.
      subst (Steps (core db)) (sym (ap core (returned-injective h).1))
        (one (Step.invalidate b.auction a key b actor reason found at_key refl reasoned))

-- If close_auction returns, what it did to the tables that the services decide by is a sequence of
-- abstract steps.
pub close_auction-Steps :
    (k : ℕ) (actor : Option ℕ) (reason : String) (db : Db) {a' : Auction} {db' : Db}
    → close_auction k actor reason db ≡ Result.returned a' db'
    → Steps (core db) (core db')
unfolding close_auction lock
close_auction-Steps k actor reason db h =
    or_raise-returned _ _ (get k db.auctions) (roll_back-returned db _ h) λ a found rest.
      raise_if-returned _ _ (not (is_live a.status)) rest λ live rest.
        let live : is_live a.status ≡ true = ground arith in
        let (d, e, c) = close_auction-eq_returned k a actor reason db found live in
        let same = (returned-injective (sym e ∙ h)).1 in
        subst (Steps (core db)) (sym (ap core same ∙ c))
          (one (Step.close k a (bidder_user db) actor reason found live))

pub end_now-Steps :
    (k : ℕ) (actor : Option ℕ) (reason : String) (db : Db) {a' : Auction} {db' : Db}
    → end_now k actor reason db ≡ Result.returned a' db'
    → Steps (core db) (core db')
end_now-Steps k actor reason db h =
    let (a, found, live, reasoned, closes) = end_now-close_auction k actor reason db h in
    close_auction-Steps k actor _ db closes
