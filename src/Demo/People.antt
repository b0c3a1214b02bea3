-- ===== src/Demo/People.antt =====
-- apps/core/management/commands/seed_demo.py: `_user`, `make_officer`, `make_sellers` and
-- `make_bidders`. First and last names, cities and passwords are no part of the rows here.
use mbarara_auction.Prelude.{
  ℕ, String, ◌++◌, Bool, true, false, Option, none, some, List, [], ◌∷◌, ◌==◌, if◌then◌else◌,
}
use mbarara_auction.Table.{get}
use mbarara_auction.Models.{Db}
use mbarara_auction.Models.Accounts.{Role, User, SellerProfile, BidderProfile, VerificationStatus}
use mbarara_auction.Errors.{Error}
use mbarara_auction.Exec.{Exec, pure, gets, or_raise, effect, ◌>>=◌, ◌>>◌}
use mbarara_auction.Accounts.Registration.{save_user}
use mbarara_auction.Accounts.Registration.Superuser.{find_user}

abbrev demo_user : String → String → Role → Bool → Bool → User
demo_user username phone role is_staff is_verified = record {
  username = username;
  email = username ++ "@example.com";
  role = role;
  phone_number = phone;
  is_verified = is_verified;
  is_staff = is_staff;
  is_superuser = false;
  is_active = true;
}

abbrev save_if_new : Option ℕ → User → Exec ℕ
save_if_new (some k) u = pure k
save_if_new none u = do k ← gets (λ db. db.users.next); effect (save_user u); pure k

-- `_user`
unfoldable pub ensure_user : User → Exec ℕ
ensure_user u = do found ← gets (λ db. find_user u.username db.users.rows); save_if_new found u

unfoldable pub make_officer : Exec ℕ
unfolding ensure_user
make_officer = ensure_user (demo_user "officer1" "0700000001" Role.officer true true)

module _ {A : Type 0} where
  -- `.filter(…).update(…)`
  abbrev change_where : (A → Bool) → (A → A) → List (ℕ × A) → List (ℕ × A)
  change_where p f [] = []
  change_where p f ((k, a) ∷ rows) = (k, if p a then f a else a) ∷ change_where p f rows

  -- `.get(…)`
  abbrev key_where : (A → Bool) → List (ℕ × A) → Option ℕ
  key_where p [] = none
  key_where p ((k, a) ∷ rows) = if p a then some k else key_where p rows

abbrev verified_seller : String → ℕ → ℕ → SellerProfile → SellerProfile
verified_seller phone officer now s = record s {
  phone = phone;
  verification_status = VerificationStatus.verified;
  verified_at = some now;
  verified_by = some officer;
}

abbrev verify_sellers : ℕ → String → ℕ → Db → Db
verify_sellers user phone officer db = record db {
  sellers = record db.sellers {
    rows =
        change_where (λ s. s.user == user) (verified_seller phone officer db.clock) db.sellers.rows;
  };
}

-- a round of `make_sellers`: the keys of the profile and of its user
unfoldable pub make_seller : ℕ → String → String → Exec (ℕ × ℕ)
unfolding ensure_user
make_seller officer username phone = do
  user ← ensure_user (demo_user username phone Role.seller false true)
  effect (verify_sellers user phone officer)
  profile ← gets (λ db. key_where (λ (s : SellerProfile). s.user == user) db.sellers.rows)
  profile ← or_raise profile Error.does_not_exist
  pure (profile, user)

abbrev status_of : Bool → VerificationStatus
status_of verified = if verified then VerificationStatus.verified else VerificationStatus.pending

abbrev set_bidder : String → Bool → ℕ → ℕ → BidderProfile → BidderProfile
set_bidder phone verified officer now b = record b {
  phone = phone;
  verification_status = status_of verified;
  verified_at = if verified then some now else none;
  verified_by = if verified then some officer else none;
}

abbrev set_bidders : ℕ → String → Bool → ℕ → Db → Db
set_bidders user phone verified officer db = record db {
  bidders = record db.bidders {
    rows =
        change_where (λ b. b.user == user) (set_bidder phone verified officer db.clock)
          db.bidders.rows;
  };
}

-- a round of `make_bidders`: the user, read again
unfoldable pub make_bidder : ℕ → String → String → Bool → Exec (ℕ × User)
unfolding ensure_user
make_bidder officer username phone verified = do
  user ← ensure_user (demo_user username phone Role.bidder false verified)
  effect (set_bidders user phone verified officer)
  u ← gets (λ db. get user db.users)
  u ← or_raise u Error.does_not_exist
  pure (user, u)
