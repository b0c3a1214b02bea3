-- ===== src/Notifications/Delivery.antt =====
-- apps/notifications/tasks.py: the Celery task of a notification; apps/notifications/
-- context_processors.py: the number that every page shows. The log lines of the task are its result.
use mbarara_auction.Prelude.{
  ℕ, ◌≡◌, refl, Option, none, some, List, [], ◌∷◌, ◌==◌, Bool-cases, inl, inr, ==_refl,
}
use mbarara_auction.Table.{Table, get, create, get-create}
use mbarara_auction.Models.{Db}
use mbarara_auction.Models.Records.{Event, Channel, Message, Link, ObjectRef, Notification}
use mbarara_auction.Exec.{Exec, gets}
use mbarara_auction.Accounts.Permissions.{RequestUser}
use mbarara_auction.Notifications.Notify.{notify, notification}
use mbarara_auction.Notifications.Inbox.{unread_count}

pub data Delivery : Type 0 where
  no_longer_exists : ℕ → Delivery
  delivered_in_app : ℕ → ℕ → Delivery
  no_gateway : ℕ → Event → Channel → ℕ → Delivery

abbrev deliver_by : Channel → ℕ → Notification → Delivery
deliver_by Channel.in_app key n = Delivery.delivered_in_app key n.recipient
deliver_by channel key n = Delivery.no_gateway key n.event channel n.recipient

abbrev deliver : ℕ → Option Notification → Delivery
deliver key none = Delivery.no_longer_exists key
deliver key (some n) = deliver_by n.channel key n

unfoldable pub deliver_notification : ℕ → Exec Delivery
deliver_notification key = gets (λ db. deliver key (get key db.notifications))

-- `notifications(request)`
unfoldable pub unread_badge : RequestUser → Exec ℕ
unread_badge none = gets (λ db. 0)
unread_badge (some (user, u)) = gets (unread_count (some user))

-- The task of every queued key finds its notification, and has nothing to send.
abbrev pub AllInApp : List ℕ → Table Notification → Type 0
AllInApp [] t = Unit {0}
AllInApp (key ∷ keys) t =
    ((user : ℕ) × (deliver key (get key t) ≡ Delivery.delivered_in_app key user)) × AllInApp keys t

AllInApp-create :
    (n : Notification) (keys : List ℕ) (t : Table Notification)
    → n.channel ≡ Channel.in_app
    → AllInApp keys t
    → AllInApp keys (create n t)
AllInApp-create n [] t h all = tt
AllInApp-create n (key ∷ keys) t h all = (
  elim (Bool-cases (t.next == key)) [
    | inl new ↦ (n.recipient, rw (get-create n key t, new, h) refl)
    | inr old ↦ (all.0.0, rw (get-create n key t, old) all.0.1)
  ],
  AllInApp-create n keys t h all.1,
)

-- `notify` only queues what the task finds and treats as delivered in-app: no delivery of its own
-- and none that was queued before is lost or is left waiting for a gateway.
pub notify-AllInApp :
    (recipient : Option ℕ) (event : Event) (message : Message) (object : Option ObjectRef)
    (link : Link) (db : Db)
    → AllInApp db.deliveries db.notifications
    → let after = notify recipient event message object link db in
      AllInApp after.deliveries after.notifications
unfolding notify
notify-AllInApp none event message object link db all = all
notify-AllInApp (some user) event message object link db all =
    let n = notification user event message object link db.clock in
    (
      (
        user,
        rw (get-create n db.notifications.next db.notifications, ==_refl db.notifications.next)
            refl,
      ),
      AllInApp-create n db.deliveries db.notifications refl all,
    )
