-- ===== src/Admin.antt =====
-- apps/accounts/admin.py, apps/bidding/admin.py and apps/payments/admin.py: the bulk actions of the
-- admin site. A queryset is the list of the rows that were selected, read once.
pub mod Bulk
pub mod People
use mbarara_auction.Prelude.{ℕ, String, List, [], ◌∷◌, some, select}
use mbarara_auction.Models.Accounts.{SellerProfile, BidderProfile}
use mbarara_auction.Models.Bidding.{Bid, is_accepted}
use mbarara_auction.Models.Payments.{Payment, is_pending}
use mbarara_auction.Exec.{Exec, pure, ◌>>=◌}
use mbarara_auction.Accounts.Verification.{
  Profile, verify_profile, reject_profile, suspend_bidder, reactivate_bidder,
}
use mbarara_auction.Bidding.Invalidate.{invalidate_bid}
use mbarara_auction.Payments.{mark_paid}

-- `for row in queryset: …`
unfoldable pub for_each : {A B : Type 0} → (A → Exec B) → List A → Exec (Unit {0})
for_each f [] = pure tt
for_each f (row ∷ rows) = do result ← f row; for_each f rows

abbrev pub verify_reason : String
verify_reason = "Verified via Django Admin bulk action"

abbrev pub reject_reason : String
reject_reason = "Rejected via Django Admin bulk action"

abbrev pub suspend_reason : String
suspend_reason = "Suspended via Django Admin bulk action"

abbrev pub invalidate_reason : String
invalidate_reason = "Invalidated via Django Admin bulk action"

abbrev pub paid_notes : String
paid_notes = "Marked paid via Django Admin bulk action"

unfoldable pub admin_verify : ℕ → List Profile → Exec (Unit {0})
unfolding for_each
admin_verify staff = for_each λ profile. verify_profile profile (some staff) verify_reason

unfoldable pub admin_reject : ℕ → List Profile → Exec (Unit {0})
unfolding for_each
admin_reject staff = for_each λ profile. reject_profile profile (some staff) reject_reason

unfoldable pub admin_suspend : ℕ → List (ℕ × BidderProfile) → Exec (Unit {0})
unfolding for_each
admin_suspend staff =
    for_each
      λ (row : ℕ × BidderProfile). suspend_bidder row.0 row.1.user (some staff) suspend_reason

unfoldable pub admin_reactivate : ℕ → List (ℕ × BidderProfile) → Exec (Unit {0})
unfolding for_each
admin_reactivate staff =
    for_each λ (row : ℕ × BidderProfile). reactivate_bidder row.0 row.1.user (some staff) ""

unfoldable pub admin_invalidate : ℕ → List (ℕ × Bid) → Exec (Unit {0})
unfolding for_each
admin_invalidate staff rows =
    for_each (λ (row : ℕ × Bid). invalidate_bid row.0 row.1 (some staff) invalidate_reason)
      (select (λ r. is_accepted r.1.status) rows)

unfoldable pub admin_mark_paid : ℕ → List (ℕ × Payment) → Exec (Unit {0})
unfolding for_each
admin_mark_paid staff rows =
    for_each (λ (row : ℕ × Payment). mark_paid row.0 row.1 (some staff) "" "" paid_notes)
      (select (λ r. is_pending r.1.status) rows)
