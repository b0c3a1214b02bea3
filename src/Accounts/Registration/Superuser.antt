-- ===== src/Accounts/Registration/Superuser.antt =====
-- apps/core/management/commands/create_superuser_env.py: run at every start of the site, so it must
-- not matter how often. The password's hash is no part of a row here.
use text.Mathlib.Text.{◌==◌ as str_eq}
use mbarara_auction.Prelude.{
  ℕ, String, true, false, ◌||◌, Option, none, some, List, [], ◌∷◌, if◌then◌else◌, is_empty, strip,
}
use mbarara_auction.Table.{modify, create}
use mbarara_auction.Models.{Db}
use mbarara_auction.Models.Accounts.{Role, User}
use mbarara_auction.Exec.{Exec, pure, effect}
use mbarara_auction.Accounts.Verification.{create_role_profile}
use mbarara_auction.Accounts.Registration.{save_user}

-- the environment's variables; an unset one is none
pub record Environment : Type 0 where
  pub superuser_email : Option String
  pub superuser_password : Option String
  pub superuser_username : Option String

abbrev or_default : Option String → String → String
or_default none text = text
or_default (some value) text = value

abbrev env_email : Environment → String
env_email env = strip (or_default env.superuser_email "")

abbrev env_password : Environment → String
env_password env = strip (or_default env.superuser_password "")

abbrev env_username : Environment → String
env_username env = strip (or_default env.superuser_username "admin")

-- the row under a username: usernames are unique
abbrev pub find_user : String → List (ℕ × User) → Option ℕ
find_user name [] = none
find_user name ((k, u) ∷ rows) = if str_eq u.username name then some k else find_user name rows

-- what `get_or_create` makes
abbrev first_admin : String → String → User
first_admin name email = record {
  username = name;
  email = email;
  role = Role.admin;
  phone_number = "";
  is_verified = false;
  is_staff = false;
  is_superuser = false;
  is_active = true;
}

-- the fields that are always forced
abbrev pub as_admin : String → User → User
as_admin email u = record u {
  email = email;
  is_staff = true;
  is_superuser = true;
  role = Role.admin;
}

abbrev force_admin : String → ℕ → Db → Db
force_admin email k db = record db { users = modify k (as_admin email) db.users }

abbrev get_or_create : Option ℕ → String → String → Db → Db
get_or_create (some k) name email db = force_admin email k db
get_or_create none name email db =
    force_admin email db.users.next (save_user (first_admin name email) db)

abbrev pub ensure_admin : String → String → Db → Db
ensure_admin name email db = get_or_create (find_user name db.users.rows) name email db

-- `Command.handle`
unfoldable pub handle_superuser : Environment → Exec (Unit {0})
unfolding create_role_profile create modify
handle_superuser env =
    if is_empty (env_email env) || is_empty (env_password env)
    then pure tt
    else effect (ensure_admin (env_username env) (env_email env))
