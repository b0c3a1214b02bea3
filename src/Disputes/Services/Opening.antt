-- ===== src/Disputes/Services/Opening.antt =====
-- apps/disputes/services.py: what raising a dispute and taking it up have done when they return.
use mbarara_auction.Prelude.{
  ℕ, ◌≡◌, refl, ap, ◌∙◌, String, true, false, not, ◌||◌, Option, some, arith, List, [], ◌∷◌,
  is_empty, is_blank, strip, take, some_unique,
}
use mbarara_auction.Table.{get, modify, create}
use mbarara_auction.Models.{Db}
use mbarara_auction.Models.Auctions.{AuctionStatus, Auction}
use mbarara_auction.Models.Disputes.{Category, Dispute, is_open}
use mbarara_auction.Models.Records.{Action, Value}
use mbarara_auction.Audit.{audit}
use mbarara_auction.Exec.{Result}
use mbarara_auction.Exec.Inversion.{
  roll_back-returned, continue-returned, or_raise-returned, raise_if-returned, returned-injective,
}
use mbarara_auction.Core.{Core, core}
use mbarara_auction.Notifications.Recipients.{contains}
use mbarara_auction.Auctions.Services.{lock, transition}
use mbarara_auction.Auctions.Services.Transitions.{moved, transition-Moved}
use mbarara_auction.Disputes.Access.{is_disputable, auction_participants, has_active_dispute}
use mbarara_auction.Disputes.Services.{
  dispute_object, lock_dispute, new_dispute, insert_dispute, notify_opened_each, announce_opened,
  open_dispute, raised_reason, as_taken, save_taken, take_for_review, notify_resolved_each,
}

pub core-notify_opened_each :
    (key : ℕ) (d : Dispute) (users : List ℕ) (db : Db)
    → core (notify_opened_each key d users db) ≡ core db
unfolding notify_opened_each
core-notify_opened_each key d [] db = refl
core-notify_opened_each key d (u ∷ users) db = core-notify_opened_each key d users _

pub core-notify_resolved_each :
    (key : ℕ) (d : Dispute) (users : List ℕ) (db : Db)
    → core (notify_resolved_each key d users db) ≡ core db
unfolding notify_resolved_each
core-notify_resolved_each key d [] db = refl
core-notify_resolved_each key d (u ∷ users) db = core-notify_resolved_each key d users _

abbrev pub disputed_core : Dispute → Core → Core
disputed_core d c = record c { disputes = create d c.disputes }

-- A dispute is opened: its row is created, and the auction moves to DISPUTED.
pub record Opened (k user : ℕ) (category : Option Category) (description : String) (db : Db)
    (key : ℕ) (d : Dispute) (db' : Db) : Type 0 where
  pub auction : Auction
  pub its_category : Category
  pub described : (is_empty description || is_blank description) ≡ false
  pub category_is : category ≡ some its_category
  pub at_key : get k db.auctions ≡ some auction
  pub disputable : is_disputable auction.status ≡ true
  pub participant : contains user (auction_participants k auction db) ≡ true
  pub none_active : has_active_dispute k db ≡ false
  pub key_is : key ≡ db.disputes.next
  pub dispute_is : d ≡ new_dispute k user its_category (strip description) auction.status db.clock
  pub after :
      core db'
      ≡ moved k auction AuctionStatus.disputed (some user) (raised_reason db.disputes.next) (
          disputed_core
            (new_dispute k user its_category (strip description) auction.status db.clock)
            (core db))

module _ (k user : ℕ) (a : Auction) (cat : Category) (description : String) (db : Db) where
  abbrev pub the_dispute : Dispute
  the_dispute = new_dispute k user cat (strip description) a.status db.clock

  abbrev pub noted : Db → Db
  noted d = announce_opened db.disputes.next the_dispute (
      audit (some user) Action.dispute_created (dispute_object db.disputes.next)
        (take 500 (strip description))
        (("auction_id", Value.key_of k) ∷ ("category", Value.category_of cat) ∷ []) d)

  opened_core :
      (b : Auction)
      → b ≡ a
      → (d : Db) {db' : Db} → db' ≡ noted d
      → core d
        ≡ moved k b AuctionStatus.disputed
            (some user)
            (raised_reason db.disputes.next)
            (disputed_core the_dispute (core db))
      → core db'
        ≡ moved k a AuctionStatus.disputed
            (some user)
            (raised_reason db.disputes.next)
            (disputed_core the_dispute (core db))
  unfolding announce_opened audit
  opened_core b same d written e =
      ap core written
      ∙ core-notify_opened_each db.disputes.next the_dispute _ _
      ∙ e
      ∙ ap
          (λ (x : Auction).
            moved k x AuctionStatus.disputed (some user) (raised_reason db.disputes.next)
              (disputed_core the_dispute (core db)))
          same

pub open_dispute-Opened :
    (k user : ℕ) (category : Option Category) (description : String) (db : Db) {key : ℕ}
    {d : Dispute} {db' : Db}
    → open_dispute k user category description db ≡ Result.returned (key, d) db'
    → Opened k user category description db key d db'
unfolding open_dispute lock insert_dispute announce_opened
open_dispute-Opened k user category description db h =
    raise_if-returned _ _ (is_empty description || is_blank description) (roll_back-returned db _ h)
      λ described h. or_raise-returned _ _ category h λ cat is_cat h.
        or_raise-returned _ _ (get k db.auctions) h λ a found h.
          raise_if-returned _ _ (not (is_disputable a.status)) h λ disputable h.
            raise_if-returned _ _ (not (contains user (auction_participants k a db))) h
              λ participant h. raise_if-returned _ _ (has_active_dispute k db) h λ inactive h.
                continue-returned _
                  (transition k AuctionStatus.disputed (some user) (raised_reason db.disputes.next)
                    _)
                  h
                  λ a2 d q h.
                    let m = transition-Moved k _ (some user) _ _ q in
                    let same : m.auction ≡ a = some_unique m.at_key found in
                    let (result, written) = returned-injective h in
                    record {
                      auction = a;
                      its_category = cat;
                      described = described;
                      category_is = is_cat;
                      at_key = found;
                      disputable = ground arith;
                      participant = ground arith;
                      none_active = inactive;
                      key_is = ap (λ (r : ℕ × Dispute). r.0) result;
                      dispute_is = ap (λ (r : ℕ × Dispute). r.1) result;
                      after =
                          opened_core k user a cat description db m.auction same d written m.after;
                    }

abbrev pub taken : ℕ → Option ℕ → Core → Core
taken key actor c = record c { disputes = modify key (as_taken actor c.clock) c.disputes }

-- An open dispute is put under review.
pub take_for_review-core :
    (key : ℕ) (actor : Option ℕ) (db : Db) {d' : Dispute} {db' : Db}
    → take_for_review key actor db ≡ Result.returned d' db'
    → (d : Dispute) × (get key db.disputes ≡ some d)
      × (is_open d.status ≡ true)
      × (core db' ≡ taken key actor (core db))
unfolding take_for_review lock_dispute save_taken
take_for_review-core key actor db h =
    or_raise-returned _ _ (get key db.disputes) (roll_back-returned db _ h) λ d found h.
      raise_if-returned _ _ (not (is_open d.status)) h
        λ opened h. (d, found, ground arith, ap core (returned-injective h).1)
