-- ===== src/Models/Auctions.antt =====
-- apps/auctions/models.py: the auction, its status and its log of transitions.
-- Money is a whole number of cents: the columns are DecimalField(decimal_places=2).
use mbarara_auction.Prelude.{
  ℕ, ◌-◌, ◌/◌, String, Bool, true, false, Option, none, some, ◌&&◌, ltb, leb, ◌==◌, if◌then◌else◌,
}

pub data AuctionStatus : Type 0 where
  draft submitted approved rejected scheduled live paused closed settled completed cancelled
        disputed :
      AuctionStatus

abbrev rank : AuctionStatus → ℕ
rank AuctionStatus.draft = 0
rank AuctionStatus.submitted = 1
rank AuctionStatus.approved = 2
rank AuctionStatus.rejected = 3
rank AuctionStatus.scheduled = 4
rank AuctionStatus.live = 5
rank AuctionStatus.paused = 6
rank AuctionStatus.closed = 7
rank AuctionStatus.settled = 8
rank AuctionStatus.completed = 9
rank AuctionStatus.cancelled = 10
rank AuctionStatus.disputed = 11

-- `a == b` on statuses
unfoldable pub same_status : AuctionStatus → AuctionStatus → Bool
unfolding rank
same_status a b = rank a == rank b

abbrev pub is_live : AuctionStatus → Bool
is_live AuctionStatus.live = true
is_live _ = false

abbrev pub is_scheduled : AuctionStatus → Bool
is_scheduled AuctionStatus.scheduled = true
is_scheduled _ = false

abbrev pub is_paused : AuctionStatus → Bool
is_paused AuctionStatus.paused = true
is_paused _ = false

abbrev pub is_draft : AuctionStatus → Bool
is_draft AuctionStatus.draft = true
is_draft _ = false

abbrev pub is_closed : AuctionStatus → Bool
is_closed AuctionStatus.closed = true
is_closed _ = false

abbrev pub is_settled : AuctionStatus → Bool
is_settled AuctionStatus.settled = true
is_settled _ = false

-- PUBLICLY_VISIBLE_STATUSES
abbrev pub is_publicly_visible : AuctionStatus → Bool
is_publicly_visible AuctionStatus.scheduled = true
is_publicly_visible AuctionStatus.live = true
is_publicly_visible AuctionStatus.paused = true
is_publicly_visible AuctionStatus.closed = true
is_publicly_visible AuctionStatus.settled = true
is_publicly_visible AuctionStatus.completed = true
is_publicly_visible _ = false

pub record Auction : Type 0 where
  pub seller : ℕ
  pub category : ℕ
  pub title : String
  pub description : String
  pub location : String
  pub starting_price : ℕ
  pub reserve_price : Option ℕ
  pub min_increment : ℕ
  pub current_highest_bid : Option ℕ
  pub start_time : ℕ
  pub end_time : ℕ
  pub extension_minutes : ℕ
  pub status : AuctionStatus
  pub winner : Option ℕ
  pub final_price : Option ℕ
  pub reserve_met : Option Bool
  pub created_at : ℕ
  pub updated_at : ℕ

pub data CleanError : Type 0 where
  start_not_before_end starting_price_not_positive min_increment_not_positive : CleanError

-- `Auction.clean`, once every field is present
unfoldable pub clean : Auction → Option CleanError
clean a =
    if leb a.end_time a.start_time
    then some CleanError.start_not_before_end
    else if a.starting_price == 0
    then some CleanError.starting_price_not_positive
    else if a.min_increment == 0
    then some CleanError.min_increment_not_positive
    else none

-- `current_highest_bid or starting_price`: a highest bid of zero counts as none
unfoldable pub display_price : Auction → ℕ
display_price a = elim (a.current_highest_bid) [
  | none ↦ a.starting_price
  | some amount ↦ if amount == 0 then a.starting_price else amount
]

-- `max(0, int((t - now).total_seconds()))`
unfoldable pub seconds_until : ℕ → ℕ → ℕ
seconds_until t now = (t - now) / 1_000_000

unfoldable pub seconds_until_start : Auction → ℕ → ℕ
unfolding seconds_until
seconds_until_start a now = seconds_until a.start_time now

unfoldable pub seconds_until_end : Auction → ℕ → ℕ
unfolding seconds_until
seconds_until_end a now = seconds_until a.end_time now

-- `start_time <= now < end_time`
abbrev pub is_open_at : Auction → ℕ → Bool
is_open_at a now = leb a.start_time now && ltb now a.end_time

unfoldable pub is_biddable : Auction → ℕ → Bool
is_biddable a now = is_live a.status && is_open_at a now

pub record AuctionStatusLog : Type 0 where
  pub auction : ℕ
  pub from_status : AuctionStatus
  pub to_status : AuctionStatus
  pub changed_by : Option ℕ
  pub reason : String
  pub changed_at : ℕ
