-- ===== src/Disputes/Services.antt =====
-- apps/disputes/services.py: raising, taking up and resolving a dispute.
pub mod Opening
pub mod Results
use mathlib.Core.Option
use mbarara_auction.Prelude.{
  ℕ, String, ◌++◌, Bool, true, false, not, ◌&&◌, ◌||◌, Option, none, some, List, [], ◌∷◌, ◌==◌,
  if◌then◌else◌, select, is_empty, is_blank, strip, take, decimal,
}
use mbarara_auction.Table.{Table, get, modify, create}
use mbarara_auction.Models.{Db}
use mbarara_auction.Models.Auctions.{AuctionStatus, Auction, is_settled}
use mbarara_auction.Models.Payments.{Payment, is_paid}
use mbarara_auction.Models.Disputes.{Category, DisputeStatus, Outcome, Dispute, is_active, is_open}
use mbarara_auction.Models.Records.{Action, ObjectType, ObjectRef, Value}
use mbarara_auction.Errors.{Error, ValueError}
use mbarara_auction.Exec.{Exec, pure, gets, or_raise, raise_if, effect, atomic, ◌>>=◌, ◌>>◌}
use mbarara_auction.Audit.{audit}
use mbarara_auction.Notifications.Events.{notify_dispute_opened, notify_dispute_resolved}
use mbarara_auction.Notifications.Recipients.{contains, add, add_if}
use mbarara_auction.Auctions.Services.{lock, transition}
use mbarara_auction.Payments.{payment_of, mark_refunded}
use mbarara_auction.Disputes.Access.{
  is_disputable, auction_participants, has_active_dispute, staff_users, other_party,
}

abbrev pub dispute_object : ℕ → ObjectRef
dispute_object key = record { kind = ObjectType.dispute_type; key = key }

-- `Dispute.objects.select_for_update().get(pk=…)`
unfoldable pub lock_dispute : ℕ → Exec Dispute
lock_dispute key = do d ← gets (λ db. get key db.disputes); or_raise d Error.does_not_exist

abbrev pub new_dispute : ℕ → ℕ → Category → String → AuctionStatus → ℕ → Dispute
new_dispute k user category description before now = record {
  auction = k;
  raised_by = user;
  category = category;
  description = description;
  status = DisputeStatus.open_status;
  auction_status_before = before;
  assigned_to = none;
  outcome = none;
  resolution_notes = "";
  refunded = false;
  resolved_by = none;
  resolved_at = none;
  created_at = now;
  updated_at = now;
}

unfoldable pub insert_dispute : Dispute → Db → Db
insert_dispute d db = record db { disputes = create d db.disputes }

abbrev pub remove : ℕ → List ℕ → List ℕ
remove u [] = []
remove u (v ∷ vs) = if v == u then remove u vs else v ∷ remove u vs

abbrev pub add_all : List ℕ → List ℕ → List ℕ
add_all [] users = users
add_all (u ∷ us) users = add_all us (add u users)

-- staff and the other party, but not the one who raised it
unfoldable pub opened_recipients : Dispute → Db → List ℕ
opened_recipients d db =
    remove d.raised_by (add_if (other_party d db) (add_all (staff_users db.users.rows) []))

unfoldable pub notify_opened_each : ℕ → Dispute → List ℕ → Db → Db
unfolding notify_dispute_opened
notify_opened_each key d [] db = db
notify_opened_each key d (u ∷ users) db =
    notify_opened_each key d users (notify_dispute_opened key d u db)

unfoldable pub announce_opened : ℕ → Dispute → Db → Db
announce_opened key d db = notify_opened_each key d (opened_recipients d db) db

-- `Dispute #<pk> raised`, `… resolved`, `Restored after dispute #<pk>`
abbrev pub raised_reason : ℕ → String
raised_reason key = "Dispute #" ++ decimal key ++ " raised"

abbrev pub resolved_reason : ℕ → String
resolved_reason key = "Dispute #" ++ decimal key ++ " resolved"

abbrev pub restored_reason : ℕ → String
restored_reason key = "Restored after dispute #" ++ decimal key

abbrev pub refund_reason : ℕ → String → String
refund_reason key notes = "Dispute #" ++ decimal key ++ ": " ++ strip notes

-- The category is one of those of the form, or none.
unfoldable pub open_dispute : ℕ → ℕ → Option Category → String → Exec (ℕ × Dispute)
unfolding audit
open_dispute k user category description = atomic do
  raise_if (is_empty description || is_blank description)
      (Error.value_error ValueError.description_missing)
  category ← or_raise category (Error.value_error ValueError.unknown_category)
  a ← lock k
  raise_if (not (is_disputable a.status)) (Error.value_error ValueError.not_disputable)
  people ← gets (auction_participants k a)
  raise_if (not (contains user people)) Error.permission_error
  active ← gets (has_active_dispute k)
  raise_if active (Error.value_error ValueError.already_disputed)
  now ← gets (λ db. db.clock)
  key ← gets (λ db. db.disputes.next)
  let d = new_dispute k user category (strip description) a.status now
  effect (insert_dispute d)
  disputed ← transition k AuctionStatus.disputed (some user) (raised_reason key)
  effect (
      audit (some user) Action.dispute_created (dispute_object key) (take 500 (strip description))
        (("auction_id", Value.key_of k) ∷ ("category", Value.category_of category) ∷ []))
  effect (announce_opened key d)
  pure (key, d)

abbrev pub as_taken : Option ℕ → ℕ → Dispute → Dispute
as_taken actor now d = record d {
  status = DisputeStatus.under_review;
  assigned_to = actor;
  updated_at = now;
}

unfoldable pub save_taken : ℕ → Option ℕ → Db → Db
save_taken key actor db = record db { disputes = modify key (as_taken actor db.clock) db.disputes }

unfoldable pub take_for_review : ℕ → Option ℕ → Exec Dispute
take_for_review key actor = atomic do
  d ← lock_dispute key
  raise_if (not (is_open d.status)) (Error.value_error ValueError.dispute_not_open)
  now ← gets (λ db. db.clock)
  effect (save_taken key actor)
  pure (as_taken actor now d)

abbrev pub as_resolved : Option ℕ → Outcome → String → Bool → ℕ → Dispute → Dispute
as_resolved actor outcome notes refunded now d = record d {
  status = DisputeStatus.resolved;
  outcome = some outcome;
  resolution_notes = notes;
  refunded = refunded;
  resolved_by = actor;
  resolved_at = some now;
  updated_at = now;
}

unfoldable pub save_resolved : ℕ → Option ℕ → Outcome → String → Bool → Db → Db
save_resolved key actor outcome notes refunded db = record db {
  disputes = modify key (as_resolved actor outcome notes refunded db.clock) db.disputes;
}

-- the payment of the auction, if it has been paid
abbrev pub paid_payment : Option (ℕ × Payment) → Option (ℕ × Payment)
paid_payment none = none
paid_payment (some (key, p)) = if is_paid p.status then some (key, p) else none

unfoldable pub refund_payment : Bool → ℕ → ℕ → Option ℕ → String → Exec (Unit {0})
refund_payment false key k actor notes = pure tt
refund_payment true key k actor notes = do
  payment ← gets (payment_of k)
  (pay, p) ← or_raise (paid_payment payment) (Error.value_error ValueError.nothing_to_refund)
  refunded ← mark_refunded pay p actor (refund_reason key notes)
  pure tt

-- Back to CLOSED, and on to SETTLED if the auction was settled and no refund was made.
unfoldable pub restore_auction : ℕ → Dispute → Bool → Option ℕ → Exec (Unit {0})
restore_auction key d refunded actor = do
  closed ← transition d.auction AuctionStatus.closed actor (resolved_reason key)
  if is_settled d.auction_status_before && not refunded
      then (do
        settled ← transition d.auction AuctionStatus.settled actor (restored_reason key)
        pure tt)
      else pure tt

unfoldable pub notify_resolved_each : ℕ → Dispute → List ℕ → Db → Db
unfolding notify_dispute_resolved
notify_resolved_each key d [] db = db
notify_resolved_each key d (u ∷ users) db =
    notify_resolved_each key d users (notify_dispute_resolved key d u db)

unfoldable pub announce_resolved : ℕ → Dispute → Db → Db
announce_resolved key d db =
    notify_resolved_each key d (add_if (other_party d db) (d.raised_by ∷ [])) db

unfoldable pub resolve_dispute : ℕ → Option ℕ → Option Outcome → String → Bool → Exec Dispute
unfolding audit
resolve_dispute key actor outcome notes refund = atomic do
  outcome ← or_raise outcome (Error.value_error ValueError.unknown_outcome)
  raise_if (is_empty notes || is_blank notes) (Error.value_error ValueError.notes_missing)
  d ← lock_dispute key
  raise_if (not (is_active d.status)) (Error.value_error ValueError.already_resolved)
  refund_payment refund key d.auction actor notes
  restore_auction key d refund actor
  now ← gets (λ db. db.clock)
  let resolved = as_resolved actor outcome (strip notes) refund now d
  effect (save_resolved key actor outcome (strip notes) refund)
  effect (
      audit actor Action.dispute_resolved (dispute_object key) (take 500 (strip notes)) (
        ("outcome", Value.outcome_of outcome)
        ∷ ("refunded", Value.flag refund)
        ∷ ("auction_id", Value.key_of d.auction)
        ∷ []))
  effect (announce_resolved key resolved)
  pure resolved
