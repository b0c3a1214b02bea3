-- ===== src/Notifications/Notify.antt =====
-- apps/notifications/services.py: `notify`
use mathlib.Core.Option
use mbarara_auction.Prelude.{ℕ, Option, none, some, List, ◌∷◌}
use mbarara_auction.Table.{Table, get, create}
use mbarara_auction.Models.{Db}
use mbarara_auction.Models.Auctions.{Auction}
use mbarara_auction.Models.Records.{Event, Channel, Message, Link, ObjectRef, Notification}

abbrev pub notification : ℕ → Event → Message → Option ObjectRef → Link → ℕ → Notification
notification recipient event message object link now = record {
  recipient = recipient;
  event = event;
  channel = Channel.in_app;
  message = message;
  related_object = object;
  link = link;
  read_at = none;
  created_at = now;
}

abbrev pub insert_for : Option ℕ → (ℕ → Notification) → Table Notification → Table Notification
insert_for none n t = t
insert_for (some user) n t = create (n user) t

abbrev pub queue_for : Option ℕ → ℕ → List ℕ → List ℕ
queue_for none key queue = queue
queue_for (some user) key queue = key ∷ queue

-- Nothing happens for a recipient that is None; else the row is created, and its key is handed to
-- the Celery task.
unfoldable pub notify : Option ℕ → Event → Message → Option ObjectRef → Link → Db → Db
notify recipient event message object link db = record db {
  notifications =
      insert_for recipient (λ user. notification user event message object link db.clock)
        db.notifications;
  deliveries = queue_for recipient db.notifications.next db.deliveries;
}

-- `auction.seller.user`
unfoldable pub seller_user : Db → Auction → Option ℕ
seller_user db a = Option.map (λ p. p.user) (get a.seller db.sellers)
