-- ===== src/Web/Disputes.antt =====
-- apps/disputes/views.py: raising, taking up and resolving a dispute from the site.
use mbarara_auction.Prelude.{ℕ, String, Bool, not, Option, none, some, List}
use mbarara_auction.Table.{filter}
use mbarara_auction.Models.{Db}
use mbarara_auction.Models.Disputes.{Category, Outcome, Dispute, is_active}
use mbarara_auction.Errors.{Error, is_value_error}
use mbarara_auction.Exec.{Exec, Result, pure, gets, raise_if, ◌>>=◌, ◌>>◌}
use mbarara_auction.Accounts.Permissions.{RequestUser, require_staff}
use mbarara_auction.Disputes.Access.{can_raise_dispute, can_view_dispute}
use mbarara_auction.Disputes.Services.{open_dispute, take_for_review, resolve_dispute}
use mbarara_auction.Web.Replies.{Reply, catching, get_or_404}

-- `except PermissionError as exc: raise PermissionDenied(str(exc))`
abbrev pub as_denied : {A : Type 0} → Result A → Result A
as_denied (Result.raised Error.permission_error db) = Result.raised Error.permission_denied db
as_denied r = r

-- DisputeCreateView.post; the form is none if its category or its description could not be read.
-- Where the service refuses, the form is shown again with the message.
unfoldable pub post_dispute : RequestUser → ℕ → Option (Category × String) → Exec Reply
post_dispute none k form = pure Reply.log_in
post_dispute (some (user, u)) k none = do
  a ← get_or_404 (λ db. db.auctions) k
  allowed ← gets (can_raise_dispute (some user) k a)
  raise_if (not allowed) Error.permission_denied
  pure Reply.form_again
post_dispute (some (user, u)) k (some (category, description)) = do
  a ← get_or_404 (λ db. db.auctions) k
  allowed ← gets (can_raise_dispute (some user) k a)
  raise_if (not allowed) Error.permission_denied
  catching is_value_error Reply.success
      (λ db. as_denied (open_dispute k user (some category) description db))

-- DisputeDetailView.get
unfoldable pub see_dispute : RequestUser → ℕ → Exec Reply
see_dispute none key = pure Reply.log_in
see_dispute (some (user, u)) key = do
  d ← get_or_404 (λ db. db.disputes) key
  allowed ← gets (can_view_dispute (some (user, u)) d)
  raise_if (not allowed) Error.permission_denied
  pure Reply.shown

-- TakeDisputeView.post
unfoldable pub post_take : RequestUser → ℕ → Exec Reply
post_take user key = do
  (staff, u) ← require_staff user
  d ← get_or_404 (λ db. db.disputes) key
  catching is_value_error Reply.success (take_for_review key (some staff))

-- ResolveDisputeView.post; the outcome is none if it is not one of the choices.
unfoldable pub post_resolve : RequestUser → ℕ → Option Outcome → String → Bool → Exec Reply
post_resolve user key outcome notes refund = do
  (staff, u) ← require_staff user
  d ← get_or_404 (λ db. db.disputes) key
  catching is_value_error Reply.success (resolve_dispute key (some staff) outcome notes refund)

-- `active_disputes`
unfoldable pub active_disputes : Db → List (ℕ × Dispute)
active_disputes db = filter (λ d. is_active d.status) db.disputes

-- DisputeQueueView.get
unfoldable pub dispute_queue : RequestUser → Exec (List (ℕ × Dispute))
unfolding active_disputes
dispute_queue user = do (staff, u) ← require_staff user; gets active_disputes
