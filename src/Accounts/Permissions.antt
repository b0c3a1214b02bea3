-- ===== src/Accounts/Permissions.antt =====
-- apps/accounts/permissions.py: the tests of the view mixins, and `check_owner`.
use mbarara_auction.Prelude.{
  ℕ, Bool, false, not, ◌&&◌, ◌||◌, Option, none, some, List, [], ◌∷◌, ◌==◌, if◌then◌else◌,
}
use mbarara_auction.Models.Accounts.{
  Role, User, is_officer_or_admin, is_seller_role, is_bidder_role,
}
use mbarara_auction.Errors.{Error}
use mbarara_auction.Exec.{Exec, pure, raise, raise_if, ◌>>◌}

-- the user of a request, with its key; none for a visitor who has not signed in
abbrev pub RequestUser : Type 0
RequestUser = Option (ℕ × User)

-- `RoleRequiredMixin.test_func`: staff may act in any role.
unfoldable pub has_role : (Role → Bool) → User → Bool
has_role is_allowed_role u = is_officer_or_admin u || is_allowed_role u.role

-- A mixin's view: signing in comes first, then the test; either failing is a 403.
unfoldable pub require_user : (User → Bool) → RequestUser → Exec (ℕ × User)
require_user test none = raise Error.permission_denied
require_user test (some (key, u)) = do
  raise_if (not (test u)) Error.permission_denied
  pure (key, u)

unfoldable pub require_seller : RequestUser → Exec (ℕ × User)
require_seller = require_user (has_role is_seller_role)

unfoldable pub require_bidder : RequestUser → Exec (ℕ × User)
require_bidder = require_user (has_role is_bidder_role)

unfoldable pub require_staff : RequestUser → Exec (ℕ × User)
require_staff = require_user is_officer_or_admin

abbrev pub any_role : List (Role → Bool) → Role → Bool
any_role [] r = false
any_role (p ∷ ps) r = p r || any_role ps r

-- `role_required(*roles)`, for function-based views
unfoldable pub role_required : List (Role → Bool) → RequestUser → Exec (ℕ × User)
role_required roles = require_user (λ u. is_officer_or_admin u || any_role roles u.role)

abbrev pub owns : ℕ → Option ℕ → Bool
owns key none = false
owns key (some user) = key == user

-- `check_owner`: staff may, where that is allowed, or else only the owner
unfoldable pub check_owner : Bool → ℕ × User → Option ℕ → Exec (Unit {0})
check_owner allow_staff (key, u) owner =
    if allow_staff && is_officer_or_admin u
    then pure tt
    else raise_if (not (owns key owner)) Error.permission_denied
