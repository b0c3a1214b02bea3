-- ===== src/Bidding/History.antt =====
-- apps/bidding/services.py: `get_bid_history`. A viewer is a signed-in user with its key, or none.
pub mod Anonymity
use mathlib.Core.Option
use mbarara_auction.Prelude.{
  ℕ, zero, suc, ◌+◌, String, Bool, true, false, ◌&&◌, Option, none, some, List, [], ◌∷◌, ltb, ◌==◌,
  if◌then◌else◌, length, select, order_by,
}
use mbarara_auction.Table.{Table, get}
use mbarara_auction.Models.{Db}
use mbarara_auction.Models.Accounts.{User, is_officer_or_admin}
use mbarara_auction.Models.Bidding.{BidStatus, Bid}
use mbarara_auction.Notifications.Recipients.{contains, earlier, bidder_user}
use mbarara_auction.Bidding.Queries.{on_auction}

-- `anonymous c` is "Bidder " with the character of code point c.
pub data Label : Type 0 where
  you : Label
  anonymous : ℕ → Label
  username : String → Label

pub record Entry : Type 0 where
  pub sequence_no : ℕ
  pub amount : ℕ
  pub created_at : ℕ
  pub label : Label
  pub status : BidStatus
  pub is_mine : Bool

abbrev pub Viewer : Type 0
Viewer = Option (ℕ × User)

abbrev pub is_staff_viewer : Viewer → Bool
is_staff_viewer none = false
is_staff_viewer (some (_, u)) = is_officer_or_admin u

abbrev pub is_viewer : ℕ → Viewer → Bool
is_viewer user none = false
is_viewer user (some (k, _)) = k == user

-- `labels` in insertion order: the label of a bidder is 'A' plus its place.
abbrev pub place_of : ℕ → List ℕ → ℕ
place_of user [] = 0
place_of user (v ∷ vs) = if v == user then 0 else suc (place_of user vs)

abbrev pub add_label : ℕ → List ℕ → List ℕ
add_label user [] = user ∷ []
add_label user (v ∷ vs) = if v == user then v ∷ vs else v ∷ add_label user vs

abbrev pub username_of : ℕ → Db → String
username_of user db = elim (get user db.users) [ none ↦ "" | some u ↦ u.username ]

unfoldable pub label_for : Viewer → ℕ → List ℕ → Db → Label
label_for viewer user labels db =
    if is_staff_viewer viewer
    then Label.username (username_of user db)
    else if is_viewer user viewer
    then Label.you
    else Label.anonymous (b'A' + place_of user labels)

abbrev pub entry_for : Viewer → Bid → ℕ → List ℕ → Db → Entry
entry_for viewer b user labels db = record {
  sequence_no = b.sequence_no;
  amount = b.amount;
  created_at = b.created_at;
  label = label_for viewer user labels db;
  status = b.status;
  is_mine = is_viewer user viewer;
}

-- `bid.bidder.user_id`; the profile of a bid is always there.
abbrev pub bidder_id : Db → Bid → ℕ
bidder_id db b = elim (bidder_user db b) [ none ↦ 0 | some user ↦ user ]

unfoldable pub history_loop : Viewer → List (ℕ × Bid) → List ℕ → Db → List Entry
history_loop viewer [] labels db = []
history_loop viewer ((_, b) ∷ bids) labels db =
    let user = bidder_id db b in
    let labels' = add_label user labels in
    entry_for viewer b user labels' db ∷ history_loop viewer bids labels' db

unfoldable pub get_bid_history : ℕ → Viewer → Db → List Entry
get_bid_history k viewer db =
    history_loop viewer (order_by earlier (select (on_auction k) db.bids.rows)) [] db
