-- ===== src/Notifications/Recipients/Once.antt =====
-- apps/notifications/services.py: whom `notify_auction_update` tells, and how often.
use mbarara_auction.Prelude.{
  ℕ, ◌≡◌, refl, Bool, true, not, ◌&&◌, ◌||◌, ◌==◌, Option, none, some, List, [], ◌∷◌, arith,
  order_by, select,
}
use mbarara_auction.Models.{Db}
use mbarara_auction.Models.Auctions.{Auction}
use mbarara_auction.Models.Bidding.{Bid}
use mbarara_auction.Notifications.Notify.{seller_user}
use mbarara_auction.Notifications.Recipients.{
  contains, add, add_if, add_bidders, bidder_user, earlier, accepted_on, update_recipients,
}

abbrev pub is_distinct : List ℕ → Bool
is_distinct [] = true
is_distinct (u ∷ us) = not (contains u us) && is_distinct us

contains-add : (u v : ℕ) (us : List ℕ) → contains u (add v us) ≡ (v == u || contains u us)
contains-add u v [] = ground arith
contains-add u v (w ∷ us) = ground (arith, contains-add u v us)

is_distinct-add : (u : ℕ) (us : List ℕ) → is_distinct us ≡ true → is_distinct (add u us) ≡ true
is_distinct-add u [] h = refl
is_distinct-add u (v ∷ us) h = ground (arith, contains-add v u us, is_distinct-add u us)

is_distinct-add_if :
    (o : Option ℕ) (us : List ℕ) → is_distinct us ≡ true → is_distinct (add_if o us) ≡ true
is_distinct-add_if none us h = h
is_distinct-add_if (some u) us h = is_distinct-add u us h

is_distinct-add_bidders :
    (db : Db) (bids : List (ℕ × Bid)) (us : List ℕ)
    → is_distinct us ≡ true
    → is_distinct (add_bidders db bids us) ≡ true
is_distinct-add_bidders db [] us h = h
is_distinct-add_bidders db (r ∷ bids) us h =
    is_distinct-add_bidders db bids _ (is_distinct-add_if (bidder_user db r.1) us h)

contains-add_if :
    (u : ℕ) (o : Option ℕ) (us : List ℕ) → contains u us ≡ true → contains u (add_if o us) ≡ true
contains-add_if u none us h = h
contains-add_if u (some v) us h = ground (arith, contains-add u v us)

contains-add_bidders :
    (u : ℕ) (db : Db) (bids : List (ℕ × Bid)) (us : List ℕ)
    → contains u us ≡ true
    → contains u (add_bidders db bids us) ≡ true
contains-add_bidders u db [] us h = h
contains-add_bidders u db (r ∷ bids) us h =
    contains-add_bidders u db bids _ (contains-add_if u (bidder_user db r.1) us h)

-- For an auction whose seller is known, the people told of a change of it are distinct, and the
-- seller is one of them.
pub update_recipients-is_distinct :
    (k : ℕ) (a : Auction) (seller : ℕ) (db : Db)
    → seller_user db a ≡ some seller
    → (is_distinct (update_recipients k a db) ≡ true)
      × (contains seller (update_recipients k a db) ≡ true)
unfolding update_recipients
update_recipients-is_distinct k a seller db h =
    let bids = order_by earlier (select (accepted_on k) db.bids.rows) in
    let sellers = add_if (seller_user db a) [] in
    let told : contains seller sellers ≡ true = rw h (ground arith) in
    (
      is_distinct-add_bidders db bids sellers (is_distinct-add_if (seller_user db a) [] refl),
      contains-add_bidders seller db bids sellers told,
    )
