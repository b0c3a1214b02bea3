-- ===== src/Demo/Built.antt =====
-- apps/core/management/commands/seed_demo.py: the making of a demo auction, as steps of the platform.
use mbarara_auction.Prelude.{
  ℕ, zero, suc, ◌≡◌, refl, String, Bool, true, false, some, inl, inr, Bool-cases, if◌then◌else◌,
}
use mbarara_auction.Models.{Db}
use mbarara_auction.Models.Accounts.{User}
use mbarara_auction.Models.Auctions.{AuctionStatus}
use mbarara_auction.Errors.{Error}
use mbarara_auction.Exec.{Exec, Result, Result-cases, returned, raised, final, pure, effect, ◌>>=◌}
use mbarara_auction.Exec.Inversion.{roll_back-raised}
use mbarara_auction.Core.{core}
use mbarara_auction.Auctions.Services.{submit_for_review, approve, transition}
use mbarara_auction.Scheduling.Controls.{pause}
use mbarara_auction.Bidding.Amount.{RawAmount}
use mbarara_auction.Bidding.Place.{place_bid}
use mbarara_auction.Web.Bids.{is_bid_rejected}
use mbarara_auction.Web.Listings.{ListingForm, new_listing, insert_auction}
use mbarara_auction.System.Step.{is_plain, Step, Steps, one, append}
use mbarara_auction.System.Refinement.Moves.{transition-Steps, pause-Steps}
use mbarara_auction.System.Refinement.Bids.{place_bid-Steps}
use mbarara_auction.System.Refinement.Sweeping.{continue-Steps}
use mbarara_auction.Demo.{
  DemoState, DemoAuction, demo_form, unless_rejected, place_bids, finish, go_live, advance,
  make_auction, is_listed, stays_draft, stays_submitted, stays_scheduled,
}

-- A call's final database comes about by steps, whether it returns or raises.
pub record Walks {A : Type 0} (m : Exec A) (db : Db) : Type 0 where
  pub steps : Steps (core db) (core (final (m db)))

bind-Walks :
    {A B : Type 0} (m : Exec A) (f : A → Exec B) (db : Db)
    → Walks m db
    → ((a : A) (d : Db) → Walks (f a) d)
    → Walks (m >>= f) db
bind-Walks m f db walks go = record {
  steps = continue-Steps f (m db) (core db) walks.steps (λ a d. (go a d).steps);
}

-- so if it does when it returns, and if a raise has changed nothing
atomic-Walks :
    {A : Type 0} (m : Exec A) (db : Db)
    → ((a : A) (d : Db) → m db ≡ returned a d → Steps (core db) (core d))
    → ((e : Error) (d : Db) → m db ≡ raised e d → d ≡ db)
    → Walks m db
atomic-Walks m db returns raises = elim (Result-cases (m db)) [
  | inl (e, d, h) ↦ record { steps = rw (h, raises e d h) Steps.here }
  | inr (a, d, h) ↦ record { steps = rw h (returns a d h) }
]

transition-Walks :
    (k : ℕ) (to : AuctionStatus) (actor : ℕ) (reason : String) (db : Db)
    → is_plain to ≡ true
    → Walks (transition k to (some actor) reason) db
unfolding transition
transition-Walks k to actor reason db plain =
    atomic-Walks (transition k to (some actor) reason) db
      (λ a d h. transition-Steps k to (some actor) reason db plain h)
      (λ e d h. roll_back-raised db _ h)

pause-Walks : (k actor : ℕ) (reason : String) (db : Db) → Walks (pause k (some actor) reason) db
unfolding pause
pause-Walks k actor reason db =
    atomic-Walks (pause k (some actor) reason) db (λ a d h. pause-Steps k (some actor) reason db h)
      (λ e d h. roll_back-raised db _ h)

place_bid-Walks :
    (k user_key : ℕ) (user : User) (raw : RawAmount) (db : Db)
    → Walks (place_bid k user_key user raw) db
unfolding place_bid
place_bid-Walks k user_key user raw db =
    atomic-Walks (place_bid k user_key user raw) db
      (λ (key, b) d h. place_bid-Steps k user_key user raw db h) (λ e d h. roll_back-raised db _ h)

final-unless_rejected : {A : Type 0} (r : Result A) → final (unless_rejected r) ≡ final r
final-unless_rejected (returned a d) = refl
final-unless_rejected (raised e d) = elim (Bool-cases (is_bid_rejected e)) [
  | inl rejected ↦ rw rejected refl
  | inr other ↦ rw other refl
]

unless_rejected-Walks :
    {A : Type 0} (m : Exec A) (db : Db) → Walks m db → Walks (λ d. unless_rejected (m d)) db
unless_rejected-Walks m db walks = record { steps = rw (final-unless_rejected (m db)) walks.steps }

place_bids-Walks :
    (bidders : ℕ → ℕ × User) (k increment rounds i amount : ℕ) (db : Db)
    → Walks (place_bids bidders k increment rounds i amount) db
unfolding place_bids
place_bids-Walks bidders k increment zero i amount db = record { steps = Steps.here }
place_bids-Walks bidders k increment (suc rounds) i amount db =
    bind-Walks _ _ db (unless_rejected-Walks _ db (place_bid-Walks k _ _ _ db))
      (λ u d. place_bids-Walks bidders k increment rounds (suc i) _ d)

stays : {A : Type 0} {a : A} (db : Db) → Walks (pure a) db
stays db = record { steps = Steps.here }

if-Walks :
    {A : Type 0} (test : Bool) (m n : Exec A) (db : Db)
    → Walks m db
    → Walks n db
    → Walks (if test then m else n) db
if-Walks true m n db h k = h
if-Walks false m n db h k = k

abbrev pub IsClosed : DemoState → Type 0
IsClosed DemoState.closed = Unit
IsClosed _ = ⊥

finish-Walks :
    (state : DemoState) (k officer end : ℕ) (db : Db)
    → ¬ IsClosed state
    → Walks (finish state k officer end) db
unfolding finish
finish-Walks DemoState.paused k officer end db open_ended =
    bind-Walks _ _ db (pause-Walks k officer _ db) (λ a d. stays d)
finish-Walks DemoState.closed k officer end db open_ended = absurd (open_ended tt)
finish-Walks _ k officer end db open_ended = stays db

module _ (spec : DemoAuction) (officer now : ℕ) (bidders : ℕ → ℕ × User)
    (open_ended : ¬ IsClosed spec.state) where
  go_live-Walks : (k : ℕ) (db : Db) → Walks (go_live spec k officer now bidders) db
  unfolding go_live
  go_live-Walks k db =
      bind-Walks _ _ db (transition-Walks k AuctionStatus.live officer _ db refl) (λ a d.
        bind-Walks _ _ d (place_bids-Walks bidders k _ _ _ _ d)
          (λ u e. finish-Walks spec.state k officer _ e open_ended))

  approve-Walks : (k : ℕ) (reason : String) (db : Db) → Walks (approve k (some officer) reason) db
  unfolding approve
  approve-Walks k reason db =
      bind-Walks _ _ db (transition-Walks k AuctionStatus.approved officer reason db refl)
        (λ a d. transition-Walks k AuctionStatus.scheduled officer _ d refl)

  advance-Walks :
      (k seller_user : ℕ) (db : Db) → Walks (advance spec k seller_user officer now bidders) db
  unfolding advance submit_for_review
  advance-Walks k seller_user db = if-Walks (stays_draft spec.state) _ _ db (stays db) (
      bind-Walks _ _ db (transition-Walks k AuctionStatus.submitted seller_user "" db refl) (λ a d.
        if-Walks (stays_submitted spec.state) _ _ d (stays d) (
          bind-Walks _ _ d (approve-Walks k "" d)
            (λ b e. if-Walks (stays_scheduled spec.state) _ _ e (stays e) (go_live-Walks k e)))))

insert_auction-Walks :
    (seller created_at : ℕ) (form : ListingForm) (db : Db)
    → Walks (effect (insert_auction (new_listing seller created_at form))) db
unfolding insert_auction
insert_auction-Walks seller created_at form db = record {
  steps = one (
      Step.list_auction (new_listing seller created_at form)
        (record { draft = refl; no_bid = refl; no_winner = refl; no_price = refl }));
}

-- A demo auction that is not to be CLOSED comes about by a sequence of abstract steps, whether
-- make_auction returns or raises: its listing, its review, its start, the bids placed on it and
-- its pause.
pub make_auction-Walks :
    (spec : DemoAuction) (now category seller seller_user officer : ℕ) (bidders : ℕ → ℕ × User)
    (db : Db)
    → ¬ IsClosed spec.state
    → Walks (make_auction spec now category seller seller_user officer bidders) db
unfolding make_auction
make_auction-Walks spec now category seller seller_user officer bidders db open_ended =
    let listing = new_listing seller db.clock (demo_form spec category now) in
    let k = db.auctions.next in
    let listed = final (effect (insert_auction listing) db) in
    record {
      steps = elim (Bool-cases (is_listed spec.title seller db)) [
        | inl already ↦ rw already Steps.here
        | inr new ↦ rw new (
            append (insert_auction-Walks seller db.clock (demo_form spec category now) db).steps
              (bind-Walks (advance spec k seller_user officer now bidders) (λ u. pure true) listed
                (advance-Walks spec officer now bidders open_ended k seller_user listed)
                (λ u d. stays d)).steps)
      ];
    }
