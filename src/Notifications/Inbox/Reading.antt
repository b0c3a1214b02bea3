-- ===== src/Notifications/Inbox/Reading.antt =====
-- apps/notifications/services.py: what `mark_all_read` leaves in each inbox.
use mbarara_auction.Prelude.{ℕ, ◌≡◌, ap, ◌∙◌, ◌==◌, some, List, [], ◌∷◌, arith, if◌then◌else◌}
use mbarara_auction.Models.{Db}
use mbarara_auction.Models.Records.{Notification}
use mbarara_auction.Exec.{returned}
use mbarara_auction.Exec.Inversion.{returned-injective}
use mbarara_auction.Notifications.Inbox.{read_all, count_unread, mark_all_read, unread_count}

count_unread-read_all :
    (user other now : ℕ) (rows : List (ℕ × Notification))
    → count_unread other (read_all user now rows)
      ≡ (if other == user then 0 else count_unread other rows)
count_unread-read_all user other now [] = ground arith
count_unread-read_all user other now ((k, n) ∷ rows) =
    ground (arith, count_unread-read_all user other now rows)

-- If mark_all_read returns, it returns how many notifications of the user were unread; afterwards
-- the user has none unread, and another user has as many as before.
pub mark_all_read-unread_count :
    (user other : ℕ) (db : Db) {changed : ℕ} {db' : Db}
    → mark_all_read user db ≡ returned changed db'
    → (changed ≡ unread_count (some user) db)
      × (unread_count (some user) db' ≡ 0)
      × (unread_count (some other) db'
          ≡ (if other == user then 0 else unread_count (some other) db))
unfolding mark_all_read unread_count
mark_all_read-unread_count user other db h =
    let (same, written) = returned-injective h in
    (
      same,
      ap (λ (d : Db). count_unread user d.notifications.rows) written
          ∙ ground (arith, count_unread-read_all user user db.clock db.notifications.rows),
      ap (λ (d : Db). count_unread other d.notifications.rows) written
          ∙ count_unread-read_all user other db.clock db.notifications.rows,
    )
