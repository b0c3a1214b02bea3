-- ===== src/Demo.antt =====
-- apps/core/management/commands/seed_demo.py: the demo's people and auctions, made through the
-- services, and their deletion.
pub mod People
pub mod Catalogue
pub mod Built
pub mod Clear
pub mod Seed
use text.Mathlib.Text.{◌==◌ as str_eq}
use mbarara_auction.Prelude.{
  ℕ, zero, suc, ◌+◌, ◌-◌, ◌*◌, ◌%◌, String, Bool, true, false, not, ◌&&◌, Option, none, some, List,
  [], ◌∷◌, ◌==◌, if◌then◌else◌, any,
}
use mathlib.Core.Option
use mbarara_auction.Table.{modify}
use mbarara_auction.Models.{Db}
use mbarara_auction.Models.Accounts.{User}
use mbarara_auction.Models.Auctions.{AuctionStatus, Auction}
use mbarara_auction.Errors.{Error}
use mbarara_auction.Exec.{Exec, Result, pure, gets, raise_if, effect, ◌>>=◌, ◌>>◌}
use mbarara_auction.Auctions.Services.{submit_for_review, approve, transition}
use mbarara_auction.Scheduling.Controls.{pause}
use mbarara_auction.Bidding.Amount.{RawAmount, pos}
use mbarara_auction.Bidding.Place.{place_bid}
use mbarara_auction.Bidding.Close.{close_auction}
use mbarara_auction.Web.Listings.{ListingForm, new_listing, insert_auction}
use mbarara_auction.Web.Bids.{is_bid_rejected}

-- an offset from now, in minutes
pub data Offset : Type 0 where
  ago ahead : ℕ → Offset

pub data DemoState : Type 0 where
  draft submitted scheduled live paused closed : DemoState

-- a row of AUCTIONS: the category and the seller by name, prices in whole shillings
pub record DemoAuction : Type 0 where
  pub title : String
  pub category : String
  pub seller : String
  pub location : String
  pub start_price : ℕ
  pub reserve : Option ℕ
  pub increment : ℕ
  pub state : DemoState
  pub start_offset : Offset
  pub end_offset : Offset
  pub bid_count : ℕ
  pub extension_minutes : ℕ
  pub description : String

abbrev a_minute : ℕ
a_minute = 60_000_000

-- `now + timedelta(hours=…)`
abbrev pub at_offset : ℕ → Offset → ℕ
at_offset now (Offset.ago minutes) = now - minutes * a_minute
at_offset now (Offset.ahead minutes) = now + minutes * a_minute

-- Closed auctions are built as live ones that end later.
abbrev build_end : DemoState → Offset → Offset
build_end DemoState.closed end = Offset.ahead 60
build_end _ end = end

-- `Decimal(…)` in cents
abbrev in_cents : ℕ → ℕ
in_cents shillings = shillings * 100

-- the fields that `Auction.objects.create` is given
abbrev pub demo_form : DemoAuction → ℕ → ℕ → ListingForm
demo_form spec category now = record {
  category = category;
  title = spec.title;
  description = spec.description;
  location = spec.location;
  starting_price = in_cents spec.start_price;
  reserve_price = Option.map in_cents spec.reserve;
  min_increment = in_cents spec.increment;
  start_time = at_offset now spec.start_offset;
  end_time = at_offset now (build_end spec.state spec.end_offset);
  extension_minutes = spec.extension_minutes;
}

-- BID_STEPS[k % len(BID_STEPS)]
abbrev bid_step : ℕ → ℕ
bid_step k = let i = k % 6 in if i == 3 then 3 else if i == 1 then 2 else if i == 5 then 2 else 1

-- `try: place_bid(…)` with `except BidRejected`
abbrev pub unless_rejected : {A : Type 0} → Result A → Result (Unit {0})
unless_rejected (Result.returned a db) = Result.returned tt db
unless_rejected (Result.raised e db) =
    if is_bid_rejected e then Result.returned tt db else Result.raised e db

abbrev next_amount : ℕ → ℕ → ℕ → ℕ
next_amount k increment amount = if k == 0 then amount else amount + increment * bid_step k

-- The loop of `place_bids`, with the rounds left, from round `k`; `bidders` are the users of the
-- names in turn.
unfoldable pub place_bids : (ℕ → ℕ × User) → ℕ → ℕ → ℕ → ℕ → ℕ → Exec (Unit {0})
place_bids bidders auction increment zero k amount = pure tt
place_bids bidders auction increment (suc rounds) k amount = do
  let bid = next_amount k increment amount
  let bidder = bidders k
  (λ db.
      unless_rejected
        (place_bid auction bidder.0 bidder.1 (RawAmount.decimal false bid (pos 0)) db))
  place_bids bidders auction increment rounds (suc k) bid

abbrev with_end : ℕ → Auction → Auction
with_end end a = record a { end_time = end }

unfoldable pub move_end : ℕ → ℕ → Db → Db
move_end k end db = record db { auctions = modify k (with_end end) db.auctions }

-- what is done once the bids are placed
unfoldable pub finish : DemoState → ℕ → ℕ → ℕ → Exec (Unit {0})
finish DemoState.paused k officer end = do
  a ← pause k (some officer) "Seller asked to update the photos"
  pure tt
finish DemoState.closed k officer end = do
  effect (move_end k end)
  a ← close_auction k (some officer) "Seeded: auction ended"
  pure tt
finish _ k officer end = pure tt

-- from SCHEDULED on
unfoldable pub go_live : DemoAuction → ℕ → ℕ → ℕ → (ℕ → ℕ × User) → Exec (Unit {0})
go_live spec k officer now bidders = do
  a ← transition k AuctionStatus.live (some officer) "Seeded demo auction"
  place_bids bidders k spec.increment spec.bid_count 0 spec.start_price
  finish spec.state k officer (at_offset now spec.end_offset)

abbrev stays_draft : DemoState → Bool
stays_draft DemoState.draft = true
stays_draft _ = false

abbrev stays_submitted : DemoState → Bool
stays_submitted DemoState.submitted = true
stays_submitted _ = false

abbrev stays_scheduled : DemoState → Bool
stays_scheduled DemoState.scheduled = true
stays_scheduled _ = false

unfoldable pub advance : DemoAuction → ℕ → ℕ → ℕ → ℕ → (ℕ → ℕ × User) → Exec (Unit {0})
advance spec k seller_user officer now bidders = if stays_draft spec.state then pure tt else (do
  waiting ← submit_for_review k (some seller_user)
  if stays_submitted spec.state then pure tt else (do
    ready ← approve k (some officer) ""
    if stays_scheduled spec.state then pure tt else go_live spec k officer now bidders))

-- `Auction.objects.filter(title=title, seller=seller).exists()`
unfoldable pub is_listed : String → ℕ → Db → Bool
is_listed title seller db =
    any (λ (r : ℕ × Auction). str_eq r.1.title title && r.1.seller == seller) db.auctions.rows

-- `make_auction`, with the keys of the category, of the seller and of its user
unfoldable pub make_auction : DemoAuction → ℕ → ℕ → ℕ → ℕ → ℕ → (ℕ → ℕ × User) → Exec Bool
make_auction spec now category seller seller_user officer bidders = do
  listed ← gets (is_listed spec.title seller)
  if listed then pure false else (do
    k ← gets (λ db. db.auctions.next)
    created_at ← gets (λ db. db.clock)
    effect (insert_auction (new_listing seller created_at (demo_form spec category now)))
    advance spec k seller_user officer now bidders
    pure true)
