-- ===== src/Accounts/Registration.antt =====
-- apps/accounts/forms.py and views.py: public registration, and the profile that its signal makes;
-- apps/core/management/commands/create_superuser_env.py: the first administrator.
pub mod Outcome
pub mod Superuser
use mbarara_auction.Prelude.{
  ℕ, String, Bool, true, false, not, ◌&&◌, ◌||◌, Option, none, some, List, [], ◌∷◌, if◌then◌else◌,
  is_empty, any,
}
use mbarara_auction.Table.{create}
use mbarara_auction.Models.{Db}
use mbarara_auction.Models.Accounts.{Role, User, is_bidder_role, is_seller_role}
use mbarara_auction.Exec.{Exec, pure, gets, effect, ◌>>=◌, ◌>>◌}
use mbarara_auction.Accounts.Verification.{create_role_profile}
use mbarara_auction.Web.Replies.{Reply}

-- The values of the form as posted; a role that is no role at all is none.
pub record RegistrationForm : Type 0 where
  pub username : String
  pub email : String
  pub phone_number : String
  pub role : Option Role

-- the two choices of the field `role`
abbrev pub chosen_role : Option Role → Option Role
chosen_role (some Role.bidder) = some Role.bidder
chosen_role (some Role.seller) = some Role.seller
chosen_role _ = none

-- a new account, with the defaults of the fields that the form does not have
abbrev pub new_user : RegistrationForm → Role → User
new_user f role = record {
  username = f.username;
  email = f.email;
  role = role;
  phone_number = f.phone_number;
  is_verified = false;
  is_staff = false;
  is_superuser = false;
  is_active = true;
}

-- `super().form_valid`: the row is saved, and `post_save` runs the receiver.
abbrev pub save_user : User → Db → Db
save_user u db = create_role_profile db.users.next u true (record db { users = create u db.users })

-- `iexact` is how the database compares texts without their case.
module _ (iexact : String → String → Bool) where
  -- `User.objects.filter(email__iexact=email).exists()`
  unfoldable pub email_taken : String → Db → Bool
  email_taken email db = any (λ (r : ℕ × User). iexact r.1.email email) db.users.rows

-- `accepts` is Django's own checks of the form, of the passwords and of the username among them.
module _ (iexact : String → String → Bool) (accepts : RegistrationForm → Db → Bool) where
  -- the email is required, `clean_email`
  unfoldable pub is_valid_registration : RegistrationForm → Db → Bool
  unfolding email_taken
  is_valid_registration f db =
      accepts f db && not (is_empty f.email) && not (email_taken iexact f.email db)

  register_as : Bool → Option Role → RegistrationForm → Exec Reply
  register_as true (some role) f = do effect (save_user (new_user f role)); pure Reply.redirected
  register_as true none f = pure Reply.form_again
  register_as false role f = pure Reply.form_again

  -- RegisterView.post, with `form_valid`; the session that `login` starts is no part of the model.
  unfoldable pub register : RegistrationForm → Exec Reply
  unfolding register_as is_valid_registration
  register f = do valid ← gets (is_valid_registration f); register_as valid (chosen_role f.role) f
