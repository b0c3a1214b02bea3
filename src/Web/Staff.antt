-- ===== src/Web/Staff.antt =====
-- apps/payments/views.py, apps/accounts/views.py and apps/notifications/views.py: the POST requests.
use mbarara_auction.Prelude.{ℕ, String, not, none, some, ◌==◌, if◌then◌else◌, is_empty}
use mbarara_auction.Errors.{Error, ValueError, is_value_error}
use mbarara_auction.Exec.{Exec, pure, raise_if, ◌>>=◌, ◌>>◌}
use mbarara_auction.Accounts.Permissions.{RequestUser, require_staff}
use mbarara_auction.Accounts.Verification.{Profile, ProfileKind, verify_profile, reject_profile}
use mbarara_auction.Notifications.Inbox.{mark_read, mark_all_read}
use mbarara_auction.Payments.{mark_paid, mark_failed}
use mbarara_auction.Web.Replies.{Reply, catching, get_or_404}

abbrev reason_missing : Reply
reason_missing = Reply.refused (Error.value_error ValueError.reason_missing)

-- RecordPaymentPaidView.post
unfoldable pub record_paid : RequestUser → ℕ → String → String → String → Exec Reply
record_paid user key method reference notes = do
  (staff, u) ← require_staff user
  p ← get_or_404 (λ db. db.payments) key
  catching is_value_error Reply.success (mark_paid key p (some staff) method reference notes)

-- RecordPaymentFailedView.post
unfoldable pub record_failed : RequestUser → ℕ → String → Exec Reply
record_failed user key reason = do
  (staff, u) ← require_staff user
  p ← get_or_404 (λ db. db.payments) key
  if is_empty reason
      then pure reason_missing
      else catching is_value_error Reply.warning (mark_failed key p (some staff) reason)

pub data VerifyChoice : Type 0 where
  approve reject neither : VerifyChoice

abbrev decide_profile : VerifyChoice → Profile → ℕ → String → Exec Reply
decide_profile VerifyChoice.approve p staff reason = do
  verify_profile p (some staff) reason
  pure Reply.success
decide_profile VerifyChoice.reject p staff reason =
    if is_empty reason
    then pure reason_missing
    else (do reject_profile p (some staff) reason; pure Reply.warning)
decide_profile VerifyChoice.neither p staff reason = pure Reply.redirected

-- VerifySellerView.post
unfoldable pub verify_seller : RequestUser → ℕ → VerifyChoice → String → Exec Reply
unfolding decide_profile
verify_seller user key choice reason = do
  (staff, u) ← require_staff user
  s ← get_or_404 (λ db. db.sellers) key
  decide_profile choice (record { kind = ProfileKind.seller_kind; key = key; user = s.user }) staff
      reason

-- VerifyBidderView.post
unfoldable pub verify_bidder : RequestUser → ℕ → VerifyChoice → String → Exec Reply
unfolding decide_profile
verify_bidder user key choice reason = do
  (staff, u) ← require_staff user
  b ← get_or_404 (λ db. db.bidders) key
  decide_profile choice (record { kind = ProfileKind.bidder_kind; key = key; user = b.user }) staff
      reason

-- MarkReadView.post: someone else's notification is not found.
unfoldable pub post_read : RequestUser → ℕ → Exec Reply
post_read none key = pure Reply.log_in
post_read (some (reader, u)) key = do
  n ← get_or_404 (λ db. db.notifications) key
  raise_if (not (n.recipient == reader)) Error.not_found
  mark_read key reader
  pure Reply.redirected

-- MarkAllReadView.post
unfoldable pub post_all_read : RequestUser → Exec Reply
post_all_read none = pure Reply.log_in
post_all_read (some (reader, u)) = do changed ← mark_all_read reader; pure Reply.redirected
