-- ===== src/Notifications/Accounts.antt =====
-- apps/notifications/services.py: the wrappers for events of a user's profile.
use mbarara_auction.Prelude.{ℕ, String, some}
use mbarara_auction.Models.{Db}
use mbarara_auction.Models.Records.{Event, Message, Link, ObjectRef}
use mbarara_auction.Notifications.Notify.{notify}

unfoldable pub notify_account_verified : ObjectRef → ℕ → Db → Db
unfolding notify
notify_account_verified profile user =
    notify (some user) Event.account_verified Message.verified (some profile) Link.no_link

unfoldable pub notify_account_rejected : ObjectRef → ℕ → String → Db → Db
unfolding notify
notify_account_rejected profile user reason =
    notify (some user) Event.account_rejected (Message.verification_rejected reason) (some profile)
      Link.no_link

unfoldable pub notify_bidder_suspended : ObjectRef → ℕ → String → Db → Db
unfolding notify
notify_bidder_suspended profile user reason =
    notify (some user) Event.account_suspended (Message.suspended reason) (some profile)
      Link.no_link

unfoldable pub notify_bidder_reactivated : ObjectRef → ℕ → Db → Db
unfolding notify
notify_bidder_reactivated profile user =
    notify (some user) Event.account_reactivated Message.reactivated (some profile) Link.no_link
