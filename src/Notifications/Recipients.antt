-- ===== src/Notifications/Recipients.antt =====
-- Python dictionaries `{user.pk: user}` of people to tell: the keys, in insertion order, each once;
-- and apps/notifications/services.py: `notify_auction_update`.
pub mod Once
use mathlib.Core.Option
use mbarara_auction.Prelude.{
  ℕ, ◌≡◌, refl, String, Bool, true, false, not, ◌&&◌, ◌||◌, Option, none, some, List, [], ◌∷◌,
  arith, ◌==◌, if◌then◌else◌, any, select, order_by, ltb,
}
use mbarara_auction.Table.{get}
use mbarara_auction.Models.{Db}
use mbarara_auction.Models.Auctions.{Auction}
use mbarara_auction.Models.Bidding.{Bid, is_accepted}
use mbarara_auction.Models.Records.{Event, Message, Link}
use mbarara_auction.Notifications.Notify.{notify, seller_user}
use mbarara_auction.Notifications.Events.{auction_ref}

-- `user in users`
abbrev pub contains : ℕ → List ℕ → Bool
contains u = any (λ v. v == u)

-- `users[u] = …`: a new key goes to the end
abbrev pub add : ℕ → List ℕ → List ℕ
add u [] = u ∷ []
add u (v ∷ vs) = if v == u then v ∷ vs else v ∷ add u vs

abbrev pub add_if : Option ℕ → List ℕ → List ℕ
add_if none users = users
add_if (some u) users = add u users

abbrev pub earlier : ℕ × Bid → ℕ × Bid → Bool
earlier (_, a) (_, b) = ltb a.sequence_no b.sequence_no

-- `bid.bidder.user_id`
abbrev pub bidder_user : Db → Bid → Option ℕ
bidder_user db b = Option.map (λ p. p.user) (get b.bidder db.bidders)

abbrev pub add_bidders : Db → List (ℕ × Bid) → List ℕ → List ℕ
add_bidders db [] users = users
add_bidders db ((_, b) ∷ bids) users = add_bidders db bids (add_if (bidder_user db b) users)

abbrev pub accepted_on : ℕ → ℕ × Bid → Bool
accepted_on auction (_, b) = b.auction == auction && is_accepted b.status

-- the seller, and everyone with an accepted bid
unfoldable pub update_recipients : ℕ → Auction → Db → List ℕ
update_recipients k a db =
    add_bidders db (order_by earlier (select (accepted_on k) db.bids.rows))
      (add_if (seller_user db a) [])

unfoldable pub notify_each : Event → Message → ℕ → List ℕ → Db → Db
unfolding notify
notify_each event message k [] db = db
notify_each event message k (u ∷ users) db =
    notify_each event message k users
      (notify (some u) event message (auction_ref k) (Link.auction_page k) db)

unfoldable pub notify_auction_update : ℕ → Auction → Event → Message → Db → Db
notify_auction_update k a event message db =
    notify_each event message k (update_recipients k a db) db
