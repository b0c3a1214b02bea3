-- ===== src/Disputes/Access.antt =====
-- apps/disputes/services.py: who may raise a dispute, see one, and hear of one.
use mbarara_auction.Prelude.{
  ℕ, Bool, false, not, ◌&&◌, ◌||◌, Option, none, some, List, [], ◌∷◌, ◌==◌, if◌then◌else◌, any,
  select, order_by,
}
use mbarara_auction.Table.{get}
use mbarara_auction.Models.{Db}
use mbarara_auction.Models.Accounts.{User, is_officer_or_admin}
use mbarara_auction.Models.Auctions.{AuctionStatus, Auction, is_closed, is_settled}
use mbarara_auction.Models.Disputes.{Dispute, is_active}
use mbarara_auction.Notifications.Notify.{seller_user}
use mbarara_auction.Notifications.Recipients.{contains, add_if, add_bidders, earlier}
use mbarara_auction.Bidding.Queries.{on_auction}

-- DISPUTABLE_STATUSES
abbrev pub is_disputable : AuctionStatus → Bool
is_disputable s = is_closed s || is_settled s

-- the seller, the winner and every bidder, whatever became of the bid
unfoldable pub auction_participants : ℕ → Auction → Db → List ℕ
auction_participants k a db =
    add_bidders db (order_by earlier (select (on_auction k) db.bids.rows))
      (add_if a.winner (add_if (seller_user db a) []))

abbrev pub is_active_on : ℕ → ℕ × Dispute → Bool
is_active_on k (_, d) = d.auction == k && is_active d.status

-- `auction.disputes.filter(status__in=ACTIVE_STATUSES).exists()`
unfoldable pub has_active_dispute : ℕ → Db → Bool
has_active_dispute k db = any (is_active_on k) db.disputes.rows

-- for a signed-in user; an anonymous visitor may not
unfoldable pub can_raise_dispute : Option ℕ → ℕ → Auction → Db → Bool
can_raise_dispute none k a db = false
can_raise_dispute (some user) k a db =
    is_disputable a.status
    && not (has_active_dispute k db)
    && contains user (auction_participants k a db)

abbrev pub names : ℕ → Option ℕ → Bool
names user none = false
names user (some other) = other == user

unfoldable pub can_view_dispute : Option (ℕ × User) → Dispute → Db → Bool
can_view_dispute none d db = false
can_view_dispute (some (key, user)) d db =
    is_officer_or_admin user || d.raised_by == key || elim (get d.auction db.auctions) [
      | none ↦ false
      | some a ↦ names key (seller_user db a) || names key a.winner
    ]

unfoldable pub is_staff_member : User → Bool
is_staff_member u = is_officer_or_admin u && u.is_active

-- `_staff_users`: officers, administrators and staff, if their account is active
abbrev pub staff_users : List (ℕ × User) → List ℕ
staff_users [] = []
staff_users ((key, u) ∷ rows) =
    let rest = staff_users rows in if is_staff_member u then key ∷ rest else rest

-- `_other_party`: who did not raise the dispute, the winner or the seller
unfoldable pub other_party : Dispute → Db → Option ℕ
other_party d db = elim (get d.auction db.auctions) [
  | none ↦ none
  | some a ↦ if names d.raised_by (seller_user db a) then a.winner else seller_user db a
]
