-- ===== src/Demo/Clear.antt =====
-- apps/core/management/commands/seed_demo.py: `clear`, with the `on_delete` of the foreign keys in
-- apps/*/models.py. PROTECT raises, CASCADE deletes the row too, SET_NULL empties the field.
pub mod Kept
use text.Mathlib.Text.{◌==◌ as str_eq}
use mbarara_auction.Prelude.{
  ℕ, String, Bool, true, false, not, ◌||◌, Option, none, some, List, [], ◌∷◌, ◌==◌, if◌then◌else◌,
  any,
}
use mbarara_auction.Table.{Table, get}
use mbarara_auction.Models.{Db}
use mbarara_auction.Models.Accounts.{User, SellerProfile, BidderProfile}
use mbarara_auction.Models.Auctions.{Auction, AuctionStatusLog}
use mbarara_auction.Models.Bidding.{Bid}
use mbarara_auction.Models.Payments.{Payment}
use mbarara_auction.Models.Disputes.{Dispute}
use mbarara_auction.Models.Records.{AuditLog, Notification}
use mbarara_auction.Errors.{Error}
use mbarara_auction.Exec.{Exec, raise_if, gets, effect, atomic, ◌>>=◌, ◌>>◌}
use mbarara_auction.Demo.Catalogue.{demo_sellers, demo_bidders}

module _ {A : Type 0} where
  abbrev pub without_rows : (ℕ × A → Bool) → List (ℕ × A) → List (ℕ × A)
  without_rows gone [] = []
  without_rows gone (row ∷ rows) =
      let rest = without_rows gone rows in if gone row then rest else row ∷ rest

  abbrev pub without : (ℕ × A → Bool) → Table A → Table A
  without gone t = record t { rows = without_rows gone t.rows }

  abbrev pub change_rows : (A → A) → List (ℕ × A) → List (ℕ × A)
  change_rows f [] = []
  change_rows f ((k, a) ∷ rows) = (k, f a) ∷ change_rows f rows

  abbrev pub change_all : (A → A) → Table A → Table A
  change_all f t = record t { rows = change_rows f t.rows }

-- SET_NULL
abbrev pub unlink : (ℕ → Bool) → Option ℕ → Option ℕ
unlink gone none = none
unlink gone (some k) = if gone k then none else some k

abbrev pub bidder_names : List (String × String × Bool) → List String
bidder_names [] = []
bidder_names ((name, _, _) ∷ rows) = name ∷ bidder_names rows

abbrev pub seller_names : List (String × String) → List String → List String
seller_names [] others = others
seller_names ((name, _) ∷ rows) others = name ∷ seller_names rows others

abbrev pub demo_names : List String
demo_names = "officer1" ∷ seller_names demo_sellers (bidder_names demo_bidders)

-- `username__in=names`
abbrev pub has_name : List String → User → Bool
has_name names u = any (λ name. str_eq u.username name) names

abbrev pub is_demo_user : List String → Db → ℕ → Bool
is_demo_user names db k = elim (get k db.users) [ none ↦ false | some u ↦ has_name names u ]

-- `seller__user__username__in=names`
abbrev pub is_demo_seller : List String → Db → ℕ → Bool
is_demo_seller names db k = elim (get k db.sellers) [
  | none ↦ false
  | some s ↦ is_demo_user names db s.user
]

abbrev pub is_demo_bidder : List String → Db → ℕ → Bool
is_demo_bidder names db k = elim (get k db.bidders) [
  | none ↦ false
  | some b ↦ is_demo_user names db b.user
]

abbrev pub is_demo_auction : List String → Db → ℕ → Bool
is_demo_auction names db k = elim (get k db.auctions) [
  | none ↦ false
  | some a ↦ is_demo_seller names db a.seller
]

-- Bid.auction, Payment.auction and Dispute.auction are PROTECT.
abbrev pub auctions_protected : List String → Db → Bool
auctions_protected names db =
    any (λ (r : ℕ × Bid). is_demo_auction names db r.1.auction) db.bids.rows
    || any (λ (r : ℕ × Payment). is_demo_auction names db r.1.auction) db.payments.rows
    || any (λ (r : ℕ × Dispute). is_demo_auction names db r.1.auction) db.disputes.rows

abbrev pub delete_auctions : List String → Db → Db
delete_auctions names db = record db {
  auctions = without (λ r. is_demo_seller names db r.1.seller) db.auctions;
  status_logs = without (λ r. is_demo_auction names db r.1.auction) db.status_logs;
}

-- Auction.seller, Bid.bidder and Dispute.raised_by are PROTECT.
abbrev pub users_protected : List String → Db → Bool
users_protected names db =
    any (λ (r : ℕ × Auction). is_demo_seller names db r.1.seller) db.auctions.rows
    || any (λ (r : ℕ × Bid). is_demo_bidder names db r.1.bidder) db.bids.rows
    || any (λ (r : ℕ × Dispute). is_demo_user names db r.1.raised_by) db.disputes.rows

abbrev pub delete_users : List String → Db → Db
delete_users names db =
    let gone = is_demo_user names db in
    record db {
      users = without (λ r. has_name names r.1) db.users;
      sellers =
          change_all (λ s. record s { verified_by = unlink gone s.verified_by })
            (without (λ r. gone r.1.user) db.sellers);
      bidders =
          change_all (λ b. record b { verified_by = unlink gone b.verified_by })
            (without (λ r. gone r.1.user) db.bidders);
      auctions = change_all (λ a. record a { winner = unlink gone a.winner }) db.auctions;
      status_logs =
          change_all (λ l. record l { changed_by = unlink gone l.changed_by }) db.status_logs;
      bids = change_all (λ b. record b { invalidated_by = unlink gone b.invalidated_by }) db.bids;
      payments = change_all (λ p. record p { recorded_by = unlink gone p.recorded_by }) db.payments;
      disputes =
          change_all
            (λ d. record d {
              assigned_to = unlink gone d.assigned_to;
              resolved_by = unlink gone d.resolved_by;
            })
            db.disputes;
      notifications = without (λ r. gone r.1.recipient) db.notifications;
      audit_logs = change_all (λ l. record l { actor = unlink gone l.actor }) db.audit_logs;
    }

-- `clear`: its ProtectedError leaves the transaction as a CommandError
unfoldable pub clear : List String → Exec (Unit {0})
clear names = atomic do
  db ← gets (λ db. db)
  raise_if (auctions_protected names db) Error.command_error
  effect (delete_auctions names)
  db ← gets (λ db. db)
  raise_if (users_protected names db) Error.command_error
  effect (delete_users names)
