-- ===== src/Web/Guards.antt =====
-- What the views of the site let through.
use mbarara_auction.Prelude.{
  ℕ, ◌≡◌, refl, sym, ap, subst, Bool, true, false, not, ◌&&◌, ◌||◌, Option, none, some, arith,
  Bool-cases, inl, inr,
}
use mbarara_auction.Table.{get, modify}
use mbarara_auction.Models.{Db}
use mbarara_auction.Models.Accounts.{User, is_officer_or_admin}
use mbarara_auction.Models.Auctions.{AuctionStatus, Auction, is_draft}
use mbarara_auction.Errors.{Error}
use mbarara_auction.Exec.{returned, raised}
use mbarara_auction.Exec.Inversion.{
  continue-returned, continue-reads, or_raise-returned, raise_if-returned, returned-injective,
}
use mbarara_auction.Core.{core}
use mbarara_auction.Accounts.Permissions.{
  RequestUser, require_user, require_seller, require_staff, check_owner, owns,
}
use mbarara_auction.Notifications.Notify.{seller_user}
use mbarara_auction.Web.Replies.{Reply}
use mbarara_auction.Web.Listings.{
  ListingForm, own_draft_or_403, edit_listing, create_listing, new_listing, with_form, save_listing,
  insert_auction, is_valid_form, seller_profile_or_403,
}
use mbarara_auction.Web.Control.{Order, post_action}
use mbarara_auction.System.Step.{Step, Steps, one}

-- A visitor who has not signed in and a user who is not staff get a 403 for every action of the
-- auction control page, and nothing changes.
pub post_action-raises :
    (key k : ℕ) (u : User) (order : Order) (db : Db)
    → is_officer_or_admin u ≡ false
    → (post_action none k order db ≡ raised Error.permission_denied db)
      × (post_action (some (key, u)) k order db ≡ raised Error.permission_denied db)
unfolding post_action require_staff require_user
post_action-raises key k u order db h = (refl, rw h refl)

is_draft_lem : (s : AuctionStatus) → is_draft s ≡ true → s ≡ AuctionStatus.draft
is_draft_lem s h = ground arith

pub record OwnDraft (user : ℕ × User) (k : ℕ) (a : Auction) (db : Db) : Type 0 where
  pub at_key : get k db.auctions ≡ some a
  pub draft : a.status ≡ AuctionStatus.draft
  pub owned : (is_officer_or_admin user.1 || owns user.0 (seller_user db a)) ≡ true

check_owner-returned :
    (user : ℕ × User) (owner : Option ℕ) (db : Db) {x : Unit {0}} {d : Db}
    → check_owner true user owner db ≡ returned x d
    → ((is_officer_or_admin user.1 || owns user.0 owner) ≡ true) × (d ≡ db)
unfolding check_owner
check_owner-returned (key, u) owner db h = ground arith

own_draft_or_403-OwnDraft :
    (user : ℕ × User) (k : ℕ) (db : Db) {a : Auction} {d : Db}
    → own_draft_or_403 user k db ≡ returned a d
    → OwnDraft user k a db × (d ≡ db)
unfolding own_draft_or_403
own_draft_or_403-OwnDraft user k db {a} h = or_raise-returned _ _ (get k db.auctions) h λ x found h.
    continue-reads _ (check_owner true user (seller_user db x) db)
      (λ r d q. (check_owner-returned user (seller_user db x) db q).1) h
      λ r owner h. raise_if-returned _ _ (not (is_draft x.status)) h λ is_drafted h.
        let (same, unchanged) = returned-injective h in
        (
          subst (λ (y : Auction). OwnDraft user k y db) (sym same)
              record {
                at_key = found;
                draft = is_draft_lem x.status (ground arith);
                owned = (check_owner-returned user (seller_user db x) db owner).0;
              },
          unchanged,
        )

require_user-returned :
    (test : User → Bool) (user : RequestUser) (db : Db) {x : ℕ × User} {d : Db}
    → require_user test user db ≡ returned x d
    → (user ≡ some x) × (d ≡ db)
unfolding require_user
require_user-returned test none db h = absurd (ground arith)
require_user-returned test (some (key, u)) db h = ground arith

-- What a successful edit has done.
pub record Edited (user : RequestUser) (k : ℕ) (form : Option ListingForm) (db db' : Db)
    : Type 0 where
  pub editor : ℕ × User
  pub auction : Auction
  pub listing : ListingForm
  pub user_is : user ≡ some editor
  pub form_is : form ≡ some listing
  pub own_draft : OwnDraft editor k auction db
  pub valid : is_valid_form listing auction ≡ true
  pub after : core db' ≡ record (core db) {
    auctions = modify k (λ _. with_form listing db.clock auction) db.auctions;
  }

again_is_no_success : {d d' : Db} → returned Reply.form_again d ≡ returned Reply.success d' → ⊥
again_is_no_success h = ground arith

pub edit_listing-Edited :
    (user : RequestUser) (k : ℕ) (form : Option ListingForm) (images_valid : Bool) (db : Db)
    {db' : Db}
    → edit_listing user k form images_valid db ≡ returned Reply.success db'
    → Edited user k form db db'
unfolding edit_listing save_listing require_seller
edit_listing-Edited user k none images_valid db h =
    continue-reads _ (require_seller user db) (λ x d q. (require_user-returned _ user db q).1) h
      λ x signed_in h.
        continue-returned _ (own_draft_or_403 x k db) h λ a d q h. absurd (again_is_no_success h)
edit_listing-Edited user k (some f) images_valid db h =
    continue-reads _ (require_seller user db) (λ x d q. (require_user-returned _ user db q).1) h
      λ x signed_in h.
        continue-reads _ (own_draft_or_403 x k db) (λ a d q. (own_draft_or_403-OwnDraft x k db q).1)
          h
          λ a drafted h. elim (Bool-cases (is_valid_form f a && images_valid)) [
            | inl ok ↦ record {
              editor = x;
              auction = a;
              listing = f;
              user_is = (require_user-returned _ user db signed_in).0;
              form_is = refl;
              own_draft = (own_draft_or_403-OwnDraft x k db drafted).0;
              valid = ground arith;
              after = ap core (returned-injective (rw ok at h)).1;
            }
            | inr bad ↦ absurd (again_is_no_success (rw bad at h))
          ]

pub edit_listing-Steps :
    (user : RequestUser) (k : ℕ) (form : Option ListingForm) (images_valid : Bool) (db : Db)
    {db' : Db}
    → edit_listing user k form images_valid db ≡ returned Reply.success db'
    → Steps (core db) (core db')
edit_listing-Steps user k form images_valid db h =
    let e = edit_listing-Edited user k form images_valid db h in
    subst (Steps (core db)) (sym e.after) (
      one (
        Step.edit_listing k e.auction (with_form e.listing db.clock e.auction) e.own_draft.at_key
          e.own_draft.draft e.own_draft.draft refl))

seller_profile-Db :
    (user : ℕ) (db : Db) {s : ℕ} {d : Db} → seller_profile_or_403 user db ≡ returned s d → d ≡ db
unfolding seller_profile_or_403
seller_profile-Db user db h = ground arith

-- If the view that creates a listing answers, what it did to the tables that the services decide
-- by is a sequence of abstract steps; the step for a new listing asks for a DRAFT without bid,
-- winner or price.
pub create_listing-Steps :
    (user : RequestUser) (form : Option ListingForm) (db : Db) {reply : Reply} {db' : Db}
    → create_listing user form db ≡ returned reply db'
    → Steps (core db) (core db')
unfolding create_listing insert_auction require_seller
create_listing-Steps user none db h =
    continue-reads _ (require_seller user db) (λ x d q. (require_user-returned _ user db q).1) h
      λ x signed_in h.
        continue-reads _ (seller_profile_or_403 x.0 db) (λ s d q. seller_profile-Db x.0 db q) h
          λ s found h. subst (Steps (core db)) (sym (ap core (returned-injective h).1)) Steps.here
create_listing-Steps user (some f) db h =
    continue-reads _ (require_seller user db) (λ x d q. (require_user-returned _ user db q).1) h
      λ x signed_in h.
        continue-reads _ (seller_profile_or_403 x.0 db) (λ s d q. seller_profile-Db x.0 db q) h
          λ s found h. elim (Bool-cases (is_valid_form f (new_listing s db.clock f))) [
            | inl ok ↦ subst (Steps (core db)) (sym (ap core (returned-injective (rw ok at h)).1)) (
                one (
                  Step.list_auction (new_listing s db.clock f)
                    record { draft = refl; no_bid = refl; no_winner = refl; no_price = refl }))
            | inr bad ↦
                subst (Steps (core db)) (sym (ap core (returned-injective (rw bad at h)).1))
                  Steps.here
          ]
