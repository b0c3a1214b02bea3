-- ===== src/Accounts/Registration/Outcome.antt =====
-- apps/accounts/forms.py, views.py and signals.py: what a registration leaves.
use mbarara_auction.Prelude.{
  ℕ, ◌+◌, ◌≡◌, refl, String, Bool, true, false, ◌&&◌, Option, none, some, List, [], ◌∷◌, arith,
  ◌==◌, if◌then◌else◌, Bool-cases, Option-cases, inl, inr, any, subst,
}
use mbarara_auction.Table.{get, create}
use mbarara_auction.Table.References.{RefersBelow}
use mbarara_auction.Models.{Db}
use mbarara_auction.Models.Accounts.{
  Role, User, SellerProfile, BidderProfile, VerificationStatus, is_officer_or_admin,
  is_pending_status,
}
use mbarara_auction.Exec.{returned}
use mbarara_auction.Accounts.Verification.{create_role_profile}
use mbarara_auction.Accounts.Registration.{
  RegistrationForm, chosen_role, new_user, save_user, email_taken, is_valid_registration, register,
}
use mbarara_auction.Web.Replies.{Reply}

-- how many rows are pending profiles of a user
abbrev pub pending_count : {A : Type 0} → (A → ℕ) → (A → VerificationStatus) → ℕ → List (ℕ × A) → ℕ
pending_count user status k [] = 0
pending_count user status k ((j, a) ∷ rows) =
    (if user a == k && is_pending_status (status a) then 1 else 0)
    + pending_count user status k rows

abbrev pub profile_count : ℕ → Db → ℕ
profile_count k db =
    pending_count (λ (s : SellerProfile). s.user) (λ s. s.verification_status) k db.sellers.rows
    + pending_count (λ (b : BidderProfile). b.user) (λ b. b.verification_status) k db.bidders.rows

-- every profile is one of an account that was created
pub record HasOwners (db : Db) : Type 0 where
  pub sellers_known : RefersBelow (λ (s : SellerProfile). s.user) db.sellers.rows db.users.next
  pub bidders_known : RefersBelow (λ (b : BidderProfile). b.user) db.bidders.rows db.users.next

-- The account under its new key.
pub record IsRegistered (f : RegistrationForm) (before after : Db) : Type 0 where
  pub account : User
  pub stored : get before.users.next after.users ≡ some account
  pub email : account.email ≡ f.email
  pub not_staff : is_officer_or_admin account ≡ false
  pub one_profile : profile_count before.users.next after ≡ 1

pub data Registered (iexact : String → String → Bool) (f : RegistrationForm) (before : Db)
    (reply : Reply) (after : Db) : Type 0 where
  turned_away : reply ≡ Reply.form_again → after ≡ before → Registered iexact f before reply after
  registered :
      reply ≡ Reply.redirected
      → email_taken iexact f.email before ≡ false
      → IsRegistered f before after
      → Registered iexact f before reply after

module _ {A : Type 0} (user : A → ℕ) (status : A → VerificationStatus) where
  pending_count-fresh :
      (n : ℕ) (rows : List (ℕ × A)) → RefersBelow user rows n → pending_count user status n rows ≡ 0
  pending_count-fresh n [] h = refl
  pending_count-fresh n ((k, a) ∷ rows) h = ground (arith, pending_count-fresh n rows h.1)

  any-fresh :
      (n : ℕ) (rows : List (ℕ × A))
      → RefersBelow user rows n
      → any (λ r. user r.1 == n) rows ≡ false
  any-fresh n [] h = refl
  any-fresh n ((k, a) ∷ rows) h = ground (arith, any-fresh n rows h.1)

module _ (f : RegistrationForm) (db : Db) (o : HasOwners db) where
  bidder-IsRegistered : IsRegistered f db (save_user (new_user f Role.bidder) db)
  unfolding create_role_profile create get is_officer_or_admin
  bidder-IsRegistered = record {
    account = new_user f Role.bidder;
    stored = ground arith;
    email = refl;
    not_staff = refl;
    one_profile =
        rw
          (any-fresh (λ (b : BidderProfile). b.user) (λ b. b.verification_status) db.users.next
            db.bidders.rows o.bidders_known)
          (ground (
            arith,
            pending_count-fresh (λ (s : SellerProfile). s.user) (λ s. s.verification_status)
                db.users.next db.sellers.rows o.sellers_known,
            pending_count-fresh (λ (b : BidderProfile). b.user) (λ b. b.verification_status)
                db.users.next db.bidders.rows o.bidders_known,
          ));
  }

  seller-IsRegistered : IsRegistered f db (save_user (new_user f Role.seller) db)
  unfolding create_role_profile create get is_officer_or_admin
  seller-IsRegistered = record {
    account = new_user f Role.seller;
    stored = ground arith;
    email = refl;
    not_staff = refl;
    one_profile =
        rw
          (any-fresh (λ (s : SellerProfile). s.user) (λ s. s.verification_status) db.users.next
            db.sellers.rows o.sellers_known)
          (ground (
            arith,
            pending_count-fresh (λ (s : SellerProfile). s.user) (λ s. s.verification_status)
                db.users.next db.sellers.rows o.sellers_known,
            pending_count-fresh (λ (b : BidderProfile). b.user) (λ b. b.verification_status)
                db.users.next db.bidders.rows o.bidders_known,
          ));
  }

  save_user-IsRegistered :
      (posted : Option Role) (role : Role)
      → chosen_role posted ≡ some role
      → IsRegistered f db (save_user (new_user f role) db)
  save_user-IsRegistered (some Role.bidder) role h =
      subst (λ r. IsRegistered f db (save_user (new_user f r) db)) (cc) bidder-IsRegistered
  save_user-IsRegistered (some Role.seller) role h =
      subst (λ r. IsRegistered f db (save_user (new_user f r) db)) (cc) seller-IsRegistered
  save_user-IsRegistered (some Role.admin) role h = cc
  save_user-IsRegistered (some Role.officer) role h = cc
  save_user-IsRegistered none role h = cc

is_valid_registration-email_taken :
    (iexact : String → String → Bool) (accepts : RegistrationForm → Db → Bool)
    (f : RegistrationForm) (db : Db)
    → is_valid_registration iexact accepts f db ≡ true
    → email_taken iexact f.email db ≡ false
unfolding is_valid_registration
is_valid_registration-email_taken iexact accepts f db h = ground arith

-- Where every profile belongs to an account that was created, a registration always returns.
-- Either the form is shown again and nothing has changed, or no account had the email and there is
-- a new one under the next key, which is no staff account, with the email, and with one profile,
-- which is pending.
pub register-Registered :
    (iexact : String → String → Bool) (accepts : RegistrationForm → Db → Bool)
    (f : RegistrationForm) (db : Db)
    → HasOwners db
    → (reply : Reply) × (after : Db) × (register iexact accepts f db ≡ returned reply after)
      × Registered iexact f db reply after
unfolding register
register-Registered iexact accepts f db o =
    elim (Bool-cases (is_valid_registration iexact accepts f db)) [
      | inl valid ↦ elim (Option-cases (chosen_role f.role)) [
        | inl other ↦
            (Reply.form_again, db, rw (valid, other) refl, Registered.turned_away refl refl)
        | inr (role, chosen) ↦ (
          Reply.redirected,
          save_user (new_user f role) db,
          rw (valid, chosen) refl,
          Registered.registered refl (is_valid_registration-email_taken iexact accepts f db valid)
              (save_user-IsRegistered f db o f.role role chosen),
        )
      ]
      | inr invalid ↦ (Reply.form_again, db, rw invalid refl, Registered.turned_away refl refl)
    ]
