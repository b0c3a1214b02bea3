-- ===== src/Web/ControlPages.antt =====
-- apps/auctions/control.py: the two pages of the staff's auction control.
pub mod Buttons
use mbarara_auction.Prelude.{
  ℕ, ◌+◌, Bool, not, ◌&&◌, ◌||◌, List, [], ◌∷◌, ◌==◌, leb, ltb, if◌then◌else◌, select, length,
  order_by, zero, suc,
}
use mbarara_auction.Table.{filter}
use mbarara_auction.Models.{Db}
use mbarara_auction.Models.Auctions.{
  AuctionStatus, Auction, AuctionStatusLog, is_scheduled, is_live, is_paused,
}
use mbarara_auction.Models.Bidding.{Bid, is_accepted}
use mbarara_auction.Exec.{Exec, gets, ◌>>=◌}
use mbarara_auction.Accounts.Permissions.{RequestUser, require_staff}
use mbarara_auction.Web.Replies.{get_or_404}
use mbarara_auction.Web.Pages.{first_rows}

-- `_with_bid_counts`, of one row: Count("bids", filter=Q(bids__status="ACCEPTED"))
unfoldable pub bid_total : ℕ → Db → ℕ
bid_total k db =
    length (select (λ (r : ℕ × Bid). r.1.auction == k && is_accepted r.1.status) db.bids.rows)

abbrev sum_bids : List (ℕ × Auction) → Db → ℕ
sum_bids [] db = 0
sum_bids ((k, a) ∷ rows) db = bid_total k db + sum_bids rows db

-- `timedelta(hours=1)`, in microseconds
abbrev an_hour : ℕ
an_hour = 3_600_000_000

abbrev starts_before : ℕ × Auction → ℕ × Auction → Bool
starts_before (j, a) (k, b) = ltb a.start_time b.start_time

abbrev ends_before : ℕ × Auction → ℕ × Auction → Bool
ends_before (j, a) (k, b) = ltb a.end_time b.end_time

abbrev pub in_status : (AuctionStatus → Bool) → Db → List (ℕ × Auction)
in_status p db = filter (λ a. p a.status) db.auctions

pub record ControlDashboard : Type 0 where
  pub scheduled : List (ℕ × Auction)
  pub live : List (ℕ × Auction)
  pub paused : List (ℕ × Auction)
  pub overdue_start : ℕ
  pub overdue_close : ℕ
  pub ending_soon : ℕ
  pub total_bids : ℕ

abbrev is_ending_soon : ℕ → Auction → Bool
is_ending_soon now a = leb a.end_time (now + an_hour) && ltb now a.end_time

unfoldable pub dashboard : Db → ControlDashboard
unfolding bid_total order_by filter
dashboard db = record {
  scheduled = order_by starts_before (in_status is_scheduled db);
  live = order_by ends_before (in_status is_live db);
  paused = order_by ends_before (in_status is_paused db);
  overdue_start = length (select (λ r. leb r.1.start_time db.clock) (in_status is_scheduled db));
  overdue_close = length (select (λ r. leb r.1.end_time db.clock) (in_status is_live db));
  ending_soon = length (select (λ r. is_ending_soon db.clock r.1) (in_status is_live db));
  total_bids = sum_bids (in_status is_live db) db;
}

-- ControlDashboardView.get
unfoldable pub show_control : RequestUser → Exec ControlDashboard
show_control user = do (staff, u) ← require_staff user; gets dashboard

pub record ControlPage : Type 0 where
  pub auction : Auction
  pub bids : ℕ
  pub history : List (ℕ × AuctionStatusLog)
  pub can_start : Bool
  pub can_pause : Bool
  pub can_resume : Bool
  pub can_end : Bool
  pub can_cancel : Bool
  pub can_reschedule : Bool
  pub can_edit_start : Bool

abbrev pub control_page : ℕ → Auction → Db → ControlPage
control_page k a db =
    let running = is_scheduled a.status || is_live a.status || is_paused a.status in
    record {
      auction = a;
      bids = bid_total k db;
      history = first_rows 15 (filter (λ l. l.auction == k) db.status_logs);
      can_start = is_scheduled a.status;
      can_pause = is_live a.status;
      can_resume = is_paused a.status;
      can_end = is_live a.status;
      can_cancel = running;
      can_reschedule = running;
      can_edit_start = is_scheduled a.status;
    }

-- AuctionControlView.get, but for the two local times that it prints
unfoldable pub show_auction_control : RequestUser → ℕ → Exec ControlPage
unfolding bid_total filter
show_auction_control user k = do
  (staff, u) ← require_staff user
  a ← get_or_404 (λ db. db.auctions) k
  gets (control_page k a)
