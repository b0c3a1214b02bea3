-- ===== src/Core/Notices.antt =====
-- What telling people does to the tables that the services decide by.
use mbarara_auction.Prelude.{ℕ, ◌≡◌, refl, List, [], ◌∷◌}
use mbarara_auction.Models.{Db}
use mbarara_auction.Models.Auctions.{Auction}
use mbarara_auction.Models.Records.{Event, Message}
use mbarara_auction.Core.{core}
use mbarara_auction.Notifications.Recipients.{notify_each, notify_auction_update, update_recipients}

core-notify_each :
    (event : Event) (message : Message) (k : ℕ) (users : List ℕ) (db : Db)
    → core (notify_each event message k users db) ≡ core db
unfolding notify_each
core-notify_each event message k [] db = refl
core-notify_each event message k (u ∷ users) db = core-notify_each event message k users _

pub core-notify_auction_update :
    (k : ℕ) (a : Auction) (event : Event) (message : Message) (db : Db)
    → core (notify_auction_update k a event message db) ≡ core db
unfolding notify_auction_update
core-notify_auction_update k a event message db =
    core-notify_each event message k (update_recipients k a db) db
