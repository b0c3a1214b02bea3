-- ===== src/Web/Pages/Seen.antt =====
-- What the pages list, against who may open the page of a row.
use mbarara_auction.Prelude.{
  ℕ, ◌≡◌, refl, Bool, true, false, some, List, [], ◌∷◌, arith, Option-cases, inl, inr, select,
}
use mbarara_auction.Table.{get, filter}
use mbarara_auction.Models.{Db}
use mbarara_auction.Models.Accounts.{User, is_officer_or_admin}
use mbarara_auction.Models.Auctions.{Auction}
use mbarara_auction.Models.Disputes.{Dispute}
use mbarara_auction.Accounts.Permissions.{RequestUser}
use mbarara_auction.Disputes.Access.{can_view_dispute}
use mbarara_auction.Web.Bids.{may_see}
use mbarara_auction.Web.Pages.{is_about, my_disputes}

module _ {A : Type 0} (P : A → Type 0) where
  abbrev pub All : List A → Type 0
  All [] = Unit {0}
  All (x ∷ xs) = P x × All xs

-- The auction's page opens for the user.
abbrev pub Opens : RequestUser → Db → ℕ × Auction → Type 0
Opens user db (k, a) = may_see user a db ≡ true

select-agree :
    {A : Type 0} (p q : A → Bool) (xs : List A) → ((x : A) → p x ≡ q x) → select p xs ≡ select q xs
select-agree p q [] same = refl
select-agree p q (x ∷ xs) same = rw (same x, select-agree p q xs same) refl

is_about-can_view :
    (user : ℕ) (u : User) (d : Dispute) (db : Db)
    → is_officer_or_admin u ≡ false
    → is_about user d db ≡ can_view_dispute (some (user, u)) d db
unfolding can_view_dispute
is_about-can_view user u d db h = elim (Option-cases (get d.auction db.auctions)) [
  | inl e ↦ rw (h, e) (ground arith)
  | inr (a, e) ↦ rw (h, e) (ground arith)
]

-- A user who is not staff has listed, of all disputes, exactly those whose page opens for the
-- user.
pub my_disputes-can_view :
    (user : ℕ) (u : User) (db : Db)
    → is_officer_or_admin u ≡ false
    → my_disputes user db ≡ filter (λ d. can_view_dispute (some (user, u)) d db) db.disputes
unfolding my_disputes filter
my_disputes-can_view user u db h =
    select-agree _ _ db.disputes.rows (λ r. is_about-can_view user u r.1 db h)
