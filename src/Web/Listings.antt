-- ===== src/Web/Listings.antt =====
-- apps/listings/views.py and forms.py: drafts, their editing and their review. The rows of a
-- listing's images are no part of the model; whether their form set was valid is an argument.
use mbarara_auction.Prelude.{
  ℕ, String, Bool, true, false, not, ◌&&◌, Option, none, some, List, [], ◌∷◌, ◌==◌, leb, ltb,
  if◌then◌else◌, is_empty, is_some,
}
use mbarara_auction.Table.{modify, create, filter}
use mbarara_auction.Models.{Db}
use mbarara_auction.Models.Accounts.{User, SellerProfile}
use mbarara_auction.Models.Auctions.{AuctionStatus, Auction, is_draft, clean}
use mbarara_auction.Errors.{Error, is_invalid_transition, ValueError}
use mbarara_auction.Exec.{Exec, pure, gets, or_raise, raise_if, effect, ◌>>=◌, ◌>>◌}
use mbarara_auction.Accounts.Permissions.{RequestUser, require_seller, require_staff, check_owner}
use mbarara_auction.Notifications.Notify.{seller_user}
use mbarara_auction.Auctions.Services.{submit_for_review, approve, reject}
use mbarara_auction.Web.Replies.{Reply, catching, get_or_404}

-- The fields of AuctionForm, once each has been read.
pub record ListingForm : Type 0 where
  pub category : ℕ
  pub title : String
  pub description : String
  pub location : String
  pub starting_price : ℕ
  pub reserve_price : Option ℕ
  pub min_increment : ℕ
  pub start_time : ℕ
  pub end_time : ℕ
  pub extension_minutes : ℕ

abbrev is_below : Option ℕ → ℕ → Bool
is_below none price = false
is_below (some reserve) price = ltb reserve price

-- `form.save`: the form's fields over the row
abbrev pub with_form : ListingForm → ℕ → Auction → Auction
with_form f now a = record a {
  category = f.category;
  title = f.title;
  description = f.description;
  location = f.location;
  starting_price = f.starting_price;
  reserve_price = f.reserve_price;
  min_increment = f.min_increment;
  start_time = f.start_time;
  end_time = f.end_time;
  extension_minutes = f.extension_minutes;
  updated_at = now;
}

-- `AuctionForm.clean`, and then the row's own `clean`
unfoldable pub is_valid_form : ListingForm → Auction → Bool
unfolding is_below clean
is_valid_form f a =
    not (leb f.end_time f.start_time)
    && not (is_below f.reserve_price f.starting_price)
    && not (is_some (clean (with_form f a.updated_at a)))

-- a row with the defaults of the other fields
abbrev pub new_listing : ℕ → ℕ → ListingForm → Auction
new_listing seller now f = record {
  seller = seller;
  category = f.category;
  title = f.title;
  description = f.description;
  location = f.location;
  starting_price = f.starting_price;
  reserve_price = f.reserve_price;
  min_increment = f.min_increment;
  current_highest_bid = none;
  start_time = f.start_time;
  end_time = f.end_time;
  extension_minutes = f.extension_minutes;
  status = AuctionStatus.draft;
  winner = none;
  final_price = none;
  reserve_met = none;
  created_at = now;
  updated_at = now;
}

abbrev pub find_seller : ℕ → List (ℕ × SellerProfile) → Option ℕ
find_seller user [] = none
find_seller user ((key, p) ∷ rows) = if p.user == user then some key else find_seller user rows

-- `_seller_profile_or_403`
unfoldable pub seller_profile_or_403 : ℕ → Exec ℕ
unfolding find_seller
seller_profile_or_403 user = do
  profile ← gets (λ db. find_seller user db.sellers.rows)
  or_raise profile Error.permission_denied

-- `_own_draft_or_403`
unfoldable pub own_draft_or_403 : ℕ × User → ℕ → Exec Auction
own_draft_or_403 user k = do
  a ← get_or_404 (λ db. db.auctions) k
  owner ← gets (λ db. seller_user db a)
  check_owner true user owner
  raise_if (not (is_draft a.status)) Error.permission_denied
  pure a

unfoldable pub insert_auction : Auction → Db → Db
insert_auction a db = record db { auctions = create a db.auctions }

-- AuctionCreateView.post; the form is none if one of its fields could not be read.
unfoldable pub create_listing : RequestUser → Option ListingForm → Exec Reply
create_listing user none = do
  (key, u) ← require_seller user
  seller ← seller_profile_or_403 key
  pure Reply.form_again
create_listing user (some f) = do
  (key, u) ← require_seller user
  seller ← seller_profile_or_403 key
  now ← gets (λ db. db.clock)
  if is_valid_form f (new_listing seller now f)
      then (do effect (insert_auction (new_listing seller now f)); pure Reply.success)
      else pure Reply.form_again

unfoldable pub save_listing : ℕ → Auction → Db → Db
save_listing k a db = record db { auctions = modify k (λ _. a) db.auctions }

-- AuctionEditView.post: the whole row that was read is written back with the form's fields.
unfoldable pub edit_listing : RequestUser → ℕ → Option ListingForm → Bool → Exec Reply
edit_listing user k none images_valid = do
  signed_in ← require_seller user
  a ← own_draft_or_403 signed_in k
  pure Reply.form_again
edit_listing user k (some f) images_valid = do
  signed_in ← require_seller user
  a ← own_draft_or_403 signed_in k
  now ← gets (λ db. db.clock)
  if is_valid_form f a && images_valid
      then (do effect (save_listing k (with_form f now a)); pure Reply.success)
      else pure Reply.form_again

-- SubmitListingView.post
unfoldable pub submit_listing : RequestUser → ℕ → Exec Reply
submit_listing user k = do
  (key, u) ← require_seller user
  a ← get_or_404 (λ db. db.auctions) k
  owner ← gets (λ db. seller_user db a)
  check_owner true (key, u) owner
  catching is_invalid_transition Reply.success (submit_for_review k (some key))

-- ApproveListingView.post
unfoldable pub approve_listing : RequestUser → ℕ → String → Exec Reply
approve_listing user k reason = do
  (key, u) ← require_staff user
  a ← get_or_404 (λ db. db.auctions) k
  catching is_invalid_transition Reply.success (approve k (some key) reason)

-- RejectListingView.post
unfoldable pub reject_listing : RequestUser → ℕ → String → Exec Reply
reject_listing user k reason = do
  (key, u) ← require_staff user
  a ← get_or_404 (λ db. db.auctions) k
  if is_empty reason
      then pure (Reply.refused (Error.value_error ValueError.reason_missing))
      else catching is_invalid_transition Reply.warning (reject k (some key) reason)

-- ApprovalQueueView.get and MyListingsView.get
abbrev is_submitted : AuctionStatus → Bool
is_submitted AuctionStatus.submitted = true
is_submitted _ = false

unfoldable pub approval_queue : Db → List (ℕ × Auction)
approval_queue db = filter (λ a. is_submitted a.status) db.auctions
