-- ===== src/Demo/Seed.antt =====
-- apps/core/management/commands/seed_demo.py: `handle`.
use text.Mathlib.Text.{◌==◌ as str_eq}
use mbarara_auction.Prelude.{
  ℕ, zero, suc, ◌+◌, ◌%◌, String, Bool, not, ◌&&◌, ◌||◌, Option, none, some, List, [], ◌∷◌,
  if◌then◌else◌,
}
use mbarara_auction.Models.Accounts.{User}
use mbarara_auction.Errors.{Error}
use mbarara_auction.Exec.{Exec, pure, gets, or_raise, raise_if, atomic, ◌>>=◌, ◌>>◌}
use mbarara_auction.Demo.{DemoAuction, make_auction}
use mbarara_auction.Demo.People.{make_officer, make_seller, make_bidder}
use mbarara_auction.Demo.Clear.{clear, demo_names}
use mbarara_auction.Demo.Catalogue.{demo_sellers, demo_bidders, demo_auctions}

-- the dictionary of sellers: by username, the keys of the profile and of its user
abbrev Sellers : Type 0
Sellers = List (String × ℕ × ℕ)

unfoldable pub make_sellers : ℕ → List (String × String) → Exec Sellers
make_sellers officer [] = pure []
make_sellers officer ((username, phone) ∷ rows) = do
  seller ← make_seller officer username phone
  others ← make_sellers officer rows
  pure ((username, seller.0, seller.1) ∷ others)

-- The users of the bidders who are verified: only they bid.
abbrev if_verified : Bool → ℕ × User → List (ℕ × User) → List (ℕ × User)
if_verified verified user others = if verified then user ∷ others else others

unfoldable pub make_bidders : ℕ → List (String × String × Bool) → Exec (List (ℕ × User))
make_bidders officer [] = pure []
make_bidders officer ((username, phone, verified) ∷ rows) = do
  user ← make_bidder officer username phone verified
  others ← make_bidders officer rows
  pure (if_verified verified user others)

abbrev find_seller : String → Sellers → Option (ℕ × ℕ)
find_seller username [] = none
find_seller username ((name, profile, user) ∷ rest) =
    if str_eq name username then some (profile, user) else find_seller username rest

abbrev nth : (ℕ × User) → List (ℕ × User) → ℕ → ℕ × User
nth first [] i = first
nth first (user ∷ users) zero = user
nth first (user ∷ users) (suc i) = nth first users i

abbrev count_users : List (ℕ × User) → ℕ
count_users [] = 0
count_users (user ∷ users) = suc (count_users users)

-- `names[who % len(names)]`; there are verified bidders
abbrev in_turn : List (ℕ × User) → Option (ℕ → ℕ × User)
in_turn [] = none
in_turn (user ∷ users) = some λ who. nth user (user ∷ users) (who % count_users (user ∷ users))

-- A category has the key that `category` gives to its name.
unfoldable pub make_auctions :
    List DemoAuction → ℕ → (String → ℕ) → Sellers → ℕ → (ℕ → ℕ × User) → ℕ → Exec ℕ
unfolding make_auction
make_auctions [] now category sellers officer bidders created = pure created
make_auctions (spec ∷ specs) now category sellers officer bidders created = do
  seller ← or_raise (find_seller spec.seller sellers) Error.does_not_exist
  new ← make_auction spec now (category spec.category) seller.0 seller.1 officer bidders
  make_auctions specs now category sellers officer bidders (if new then created + 1 else created)

abbrev pub make_people : Exec (ℕ × Sellers × List (ℕ × User))
make_people = do
  officer ← make_officer
  sellers ← make_sellers officer demo_sellers
  bidders ← make_bidders officer demo_bidders
  pure (officer, sellers, bidders)

-- what `Command.handle` creates: how many auctions
unfoldable pub create_demo : (String → ℕ) → Exec ℕ
unfolding make_sellers make_bidders make_auctions
create_demo category = do
  now ← gets (λ db. db.clock)
  (officer, sellers, bidders) ← atomic make_people
  bidders ← or_raise (in_turn bidders) Error.does_not_exist
  make_auctions demo_auctions now category sellers officer bidders 0

-- `Command.handle`, where `clears` is `--clear`
unfoldable pub seed_demo : Bool → Bool → Bool → Bool → (String → ℕ) → Exec ℕ
unfolding create_demo
seed_demo debug force reset clears category = do
  raise_if (not debug && not force) Error.command_error
  if reset || clears then clear demo_names else pure tt
  if clears then pure 0 else create_demo category
