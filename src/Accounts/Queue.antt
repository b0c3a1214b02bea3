-- ===== src/Accounts/Queue.antt =====
-- apps/accounts/views.py: the page of the profiles that wait for the staff, and what a decision takes
-- off it.
use mbarara_auction.Prelude.{
  ℕ, ◌≡◌, refl, Bool, false, not, String, Option, List, [], ◌∷◌, ◌==◌, arith, select,
}
use mbarara_auction.Table.{change, modify, filter}
use mbarara_auction.Models.{Db}
use mbarara_auction.Models.Accounts.{SellerProfile, BidderProfile, is_pending_status}
use mbarara_auction.Exec.{Exec, gets, final, ◌>>=◌}
use mbarara_auction.Audit.{audit}
use mbarara_auction.Notifications.Notify.{notify}
use mbarara_auction.Notifications.Accounts.{notify_account_verified}
use mbarara_auction.Accounts.Permissions.{RequestUser, require_staff}
use mbarara_auction.Accounts.Verification.{
  Profile, ProfileKind, apply_verification, verify_profile, pending_sellers, pending_bidders,
}

-- VerificationQueueView.get
unfoldable pub verification_queue :
    RequestUser → Exec (List (ℕ × SellerProfile) × List (ℕ × BidderProfile))
verification_queue user = do
  (staff, u) ← require_staff user
  gets λ db. (pending_sellers db, pending_bidders db)

abbrev pub other_rows : {A : Type 0} → ℕ → List (ℕ × A) → List (ℕ × A)
other_rows k rows = select (λ r. not (r.0 == k)) rows

-- A row that a change takes out of a selection is the only one to leave it.
select-change :
    {A : Type 0} (p : A → Bool) (k : ℕ) (f : A → A) (rows : List (ℕ × A))
    → ((a : A) → p (f a) ≡ false)
    → select (λ (r : ℕ × A). p r.1) (change k f rows)
      ≡ other_rows k (select (λ (r : ℕ × A). p r.1) rows)
select-change p k f [] out = refl
select-change p k f ((j, a) ∷ rows) out = ground (arith, select-change p k f rows out, out a)

-- Verifying a seller takes that seller's profile off the page of waiting sellers and leaves the
-- others, in their order, and the waiting bidders.
pub verify_profile-pending_sellers :
    (k user : ℕ) (actor : Option ℕ) (reason : String) (db : Db)
    → let p : Profile = record { kind = ProfileKind.seller_kind; key = k; user = user } in
      let d = final (verify_profile p actor reason db) in
      (pending_sellers d ≡ other_rows k (pending_sellers db))
      × (pending_bidders d ≡ pending_bidders db)
unfolding verify_profile apply_verification pending_sellers pending_bidders filter modify audit
    notify_account_verified notify
verify_profile-pending_sellers k user actor reason db = (
  select-change (λ s. is_pending_status s.verification_status) k _ db.sellers.rows (λ s. refl),
  refl,
)
