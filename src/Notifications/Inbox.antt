-- ===== src/Notifications/Inbox.antt =====
-- apps/notifications/services.py and views.py: reading notifications.
pub mod Reading
use mbarara_auction.Prelude.{
  ℕ, ◌+◌, Bool, not, ◌&&◌, Option, none, some, List, [], ◌∷◌, ◌==◌, if◌then◌else◌, is_some,
}
use mbarara_auction.Table.{get, modify}
use mbarara_auction.Models.{Db}
use mbarara_auction.Models.Records.{Notification}
use mbarara_auction.Errors.{Error}
use mbarara_auction.Exec.{Exec, Result, pure, gets, or_raise, raise_if, effect, ◌>>=◌, ◌>>◌}

abbrev pub unread_by : ℕ → Notification → Bool
unread_by user n = n.recipient == user && not (is_some n.read_at)

abbrev pub write_read_at : ℕ → Db → Db
write_read_at key db = record db {
  notifications = modify key (λ n. record n { read_at = some db.clock }) db.notifications;
}

-- Only the recipient may; the time of the first reading is kept.
unfoldable pub mark_read : ℕ → ℕ → Exec (Unit {0})
unfolding get modify
mark_read key user = do
  n ← gets (λ db. get key db.notifications)
  n ← or_raise n Error.does_not_exist
  raise_if (not (n.recipient == user)) Error.permission_error
  if is_some n.read_at then pure tt else effect (write_read_at key)

abbrev pub read_by : ℕ → ℕ → Notification → Notification
read_by user now n = if unread_by user n then record n { read_at = some now } else n

abbrev pub read_all : ℕ → ℕ → List (ℕ × Notification) → List (ℕ × Notification)
read_all user now [] = []
read_all user now ((k, n) ∷ rows) = (k, read_by user now n) ∷ read_all user now rows

abbrev pub count_unread : ℕ → List (ℕ × Notification) → ℕ
count_unread user [] = 0
count_unread user ((_, n) ∷ rows) = (if unread_by user n then 1 else 0) + count_unread user rows

-- the number of rows changed
unfoldable pub mark_all_read : ℕ → Exec ℕ
mark_all_read user db = Result.returned (count_unread user db.notifications.rows) (record db {
  notifications = record (db.notifications) { rows = read_all user db.clock db.notifications.rows };
})

-- An anonymous visitor has none.
unfoldable pub unread_count : Option ℕ → Db → ℕ
unread_count none db = 0
unread_count (some user) db = count_unread user db.notifications.rows
