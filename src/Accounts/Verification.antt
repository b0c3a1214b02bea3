-- ===== src/Accounts/Verification.antt =====
-- apps/accounts/services.py and signals.py: the verification of profiles, suspension, and the
-- profile that a new account gets. A profile is passed by its key and its user.
use mbarara_auction.Prelude.{
  ℕ, String, Bool, Option, none, some, List, [], ◌∷◌, ◌==◌, if◌then◌else◌, is_empty, any,
}
use mbarara_auction.Table.{modify, create, filter}
use mbarara_auction.Models.{Db}
use mbarara_auction.Models.Accounts.{
  Role, User, VerificationStatus, SellerProfile, AccountStatus, BidderProfile, is_pending_status,
}
use mbarara_auction.Models.Records.{Action, ObjectType, ObjectRef, Value}
use mbarara_auction.Errors.{Error, ValueError}
use mbarara_auction.Exec.{Exec, raise_if, effect, ◌>>◌}
use mbarara_auction.Audit.{audit}
use mbarara_auction.Notifications.Accounts.{
  notify_account_verified, notify_account_rejected, notify_bidder_suspended,
  notify_bidder_reactivated,
}

pub data ProfileKind : Type 0 where
  seller_kind bidder_kind : ProfileKind

pub record Profile : Type 0 where
  pub kind : ProfileKind
  pub key : ℕ
  pub user : ℕ

abbrev object_type : ProfileKind → ObjectType
object_type ProfileKind.seller_kind = ObjectType.seller_type
object_type ProfileKind.bidder_kind = ObjectType.bidder_type

abbrev pub profile_object : Profile → ObjectRef
profile_object p = record { kind = object_type p.kind; key = p.key }

abbrev with_seller_status : VerificationStatus → Option ℕ → ℕ → SellerProfile → SellerProfile
with_seller_status status actor now s = record s {
  verification_status = status;
  verified_at = some now;
  verified_by = actor;
  updated_at = now;
}

abbrev with_bidder_status : VerificationStatus → Option ℕ → ℕ → BidderProfile → BidderProfile
with_bidder_status status actor now b = record b {
  verification_status = status;
  verified_at = some now;
  verified_by = actor;
  updated_at = now;
}

abbrev save_status_of : ProfileKind → ℕ → VerificationStatus → Option ℕ → Db → Db
save_status_of ProfileKind.seller_kind key status actor db = record db {
  sellers = modify key (with_seller_status status actor db.clock) db.sellers;
}
save_status_of ProfileKind.bidder_kind key status actor db = record db {
  bidders = modify key (with_bidder_status status actor db.clock) db.bidders;
}

abbrev verification_action : VerificationStatus → Action
verification_action VerificationStatus.verified = Action.user_verified
verification_action _ = Action.user_suspended

abbrev notify_verification : VerificationStatus → ObjectRef → ℕ → String → Db → Db
notify_verification VerificationStatus.verified object user reason =
    notify_account_verified object user
notify_verification _ object user reason = notify_account_rejected object user reason

unfoldable pub apply_verification : Profile → VerificationStatus → Option ℕ → String → Db → Db
unfolding audit notify_account_verified notify_account_rejected
apply_verification p status actor reason db =
    notify_verification status (profile_object p) p.user reason (
      audit actor (verification_action status) (profile_object p) reason
        (("new_status", Value.verification status) ∷ ("profile_user_id", Value.key_of p.user) ∷ [])
        (save_status_of p.kind p.key status actor db))

unfoldable pub verify_profile : Profile → Option ℕ → String → Exec (Unit {0})
verify_profile p actor reason =
    effect (apply_verification p VerificationStatus.verified actor reason)

unfoldable pub reject_profile : Profile → Option ℕ → String → Exec (Unit {0})
reject_profile p actor reason = do
  raise_if (is_empty reason) (Error.value_error ValueError.reason_missing)
  effect (apply_verification p VerificationStatus.rejected actor reason)

abbrev with_account_status : AccountStatus → ℕ → BidderProfile → BidderProfile
with_account_status status now b = record b { account_status = status; updated_at = now }

abbrev save_account_status : ℕ → AccountStatus → Db → Db
save_account_status key status db = record db {
  bidders = modify key (with_account_status status db.clock) db.bidders;
}

abbrev bidder_object : ℕ → ObjectRef
bidder_object key = record { kind = ObjectType.bidder_type; key = key }

unfoldable pub suspend_bidder : ℕ → ℕ → Option ℕ → String → Exec (Unit {0})
unfolding audit notify_bidder_suspended
suspend_bidder key user actor reason = do
  raise_if (is_empty reason) (Error.value_error ValueError.reason_missing)
  effect (save_account_status key AccountStatus.suspended)
  effect (audit actor Action.user_suspended (bidder_object key) reason [])
  effect (notify_bidder_suspended (bidder_object key) user reason)

abbrev or_reactivated : String → String
or_reactivated reason = if is_empty reason then "Reactivated" else reason

unfoldable pub reactivate_bidder : ℕ → ℕ → Option ℕ → String → Exec (Unit {0})
unfolding audit notify_bidder_reactivated
reactivate_bidder key user actor reason = do
  effect (save_account_status key AccountStatus.active)
  effect (audit actor Action.user_verified (bidder_object key) (or_reactivated reason) [])
  effect (notify_bidder_reactivated (bidder_object key) user)

unfoldable pub pending_sellers : Db → List (ℕ × SellerProfile)
pending_sellers db = filter (λ p. is_pending_status p.verification_status) db.sellers

unfoldable pub pending_bidders : Db → List (ℕ × BidderProfile)
pending_bidders db = filter (λ p. is_pending_status p.verification_status) db.bidders

abbrev new_seller : ℕ → String → ℕ → SellerProfile
new_seller user phone now = record {
  user = user;
  phone = phone;
  verification_status = VerificationStatus.pending;
  verified_at = none;
  verified_by = none;
  updated_at = now;
}

abbrev new_bidder : ℕ → String → ℕ → BidderProfile
new_bidder user phone now = record {
  user = user;
  phone = phone;
  verification_status = VerificationStatus.pending;
  account_status = AccountStatus.active;
  verified_at = none;
  verified_by = none;
  updated_at = now;
}

-- `get_or_create(user=…)`
abbrev ensure_seller : ℕ → String → Db → Db
ensure_seller user phone db = record db {
  sellers =
      if any (λ (r : ℕ × SellerProfile). r.1.user == user) db.sellers.rows
      then db.sellers
      else create (new_seller user phone db.clock) db.sellers;
}

abbrev ensure_bidder : ℕ → String → Db → Db
ensure_bidder user phone db = record db {
  bidders =
      if any (λ (r : ℕ × BidderProfile). r.1.user == user) db.bidders.rows
      then db.bidders
      else create (new_bidder user phone db.clock) db.bidders;
}

abbrev ensure_profile : Role → ℕ → String → Db → Db
ensure_profile Role.seller user phone = ensure_seller user phone
ensure_profile Role.bidder user phone = ensure_bidder user phone
ensure_profile _ user phone = λ db. db

-- the `post_save` signal of a user
unfoldable pub create_role_profile : ℕ → User → Bool → Db → Db
create_role_profile key u created db =
    if created then ensure_profile u.role key u.phone_number db else db
