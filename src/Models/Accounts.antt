-- ===== src/Models/Accounts.antt =====
-- apps/accounts/models.py: users, roles, seller and bidder profiles.
-- A time is a number of microseconds, a foreign key the key of the row that it names.
use mbarara_auction.Prelude.{ℕ, String, Bool, true, false, Option, ◌&&◌, ◌||◌}

pub data Role : Type 0 where
  admin officer seller bidder : Role

pub record User : Type 0 where
  pub username : String
  pub email : String
  pub role : Role
  pub phone_number : String
  pub is_verified : Bool
  pub is_staff : Bool
  pub is_superuser : Bool
  pub is_active : Bool

abbrev pub is_seller_role : Role → Bool
is_seller_role Role.seller = true
is_seller_role _ = false

abbrev pub is_bidder_role : Role → Bool
is_bidder_role Role.bidder = true
is_bidder_role _ = false

-- `role in (ADMIN, OFFICER)`
abbrev pub is_staff_role : Role → Bool
is_staff_role Role.admin = true
is_staff_role Role.officer = true
is_staff_role _ = false

unfoldable pub is_officer_or_admin : User → Bool
is_officer_or_admin u = is_staff_role u.role || u.is_staff

pub data VerificationStatus : Type 0 where
  pending verified rejected : VerificationStatus

abbrev pub is_verified_status : VerificationStatus → Bool
is_verified_status VerificationStatus.verified = true
is_verified_status _ = false

abbrev pub is_pending_status : VerificationStatus → Bool
is_pending_status VerificationStatus.pending = true
is_pending_status _ = false

pub record SellerProfile : Type 0 where
  pub user : ℕ
  pub phone : String
  pub verification_status : VerificationStatus
  pub verified_at : Option ℕ
  pub verified_by : Option ℕ
  pub updated_at : ℕ

pub data AccountStatus : Type 0 where
  active suspended : AccountStatus

abbrev pub is_active_status : AccountStatus → Bool
is_active_status AccountStatus.active = true
is_active_status AccountStatus.suspended = false

pub record BidderProfile : Type 0 where
  pub user : ℕ
  pub phone : String
  pub verification_status : VerificationStatus
  pub account_status : AccountStatus
  pub verified_at : Option ℕ
  pub verified_by : Option ℕ
  pub updated_at : ℕ

-- Business Rule BR-05, over the profile and its user
unfoldable pub is_eligible_to_bid : BidderProfile → User → Bool
is_eligible_to_bid profile user =
    is_verified_status profile.verification_status
    && is_active_status profile.account_status
    && user.is_active
