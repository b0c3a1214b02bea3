-- ===== src/Reports.antt =====
-- apps/reports/services.py: read-only figures over a range that is given by its two bounds as times;
-- Dates and Ranges turn the texts of a query into them, Csv is the files.
pub mod Figures
pub mod Dates
pub mod Ranges
pub mod Csv
pub mod Categories
use mbarara_auction.Prelude.{
  ℕ, ◌+◌, ◌-◌, String, ◌++◌, Bool, true, false, not, ◌&&◌, ◌||◌, Option, none, some, List, [], ◌∷◌,
  leb, ltb, ◌==◌, if◌then◌else◌, is_some, any,
}
use Prim.Native.Char.{Char, code}
use mbarara_auction.Table.{Table}
use mbarara_auction.Models.{Db}
use mbarara_auction.Models.Accounts.{
  SellerProfile, BidderProfile, is_verified_status, is_pending_status,
}
use mbarara_auction.Models.Auctions.{AuctionStatus, Auction, same_status}
use mbarara_auction.Models.Bidding.{Bid, is_accepted}
use mbarara_auction.Models.Payments.{PaymentStatus, Payment, is_paid, is_pending}
use mbarara_auction.Models.Disputes.{Dispute, is_active}

-- FINISHED_STATUSES
abbrev pub is_finished : AuctionStatus → Bool
is_finished AuctionStatus.closed = true
is_finished AuctionStatus.settled = true
is_finished AuctionStatus.completed = true
is_finished AuctionStatus.disputed = true
is_finished _ = false

abbrev pub is_from : Option ℕ → ℕ → Bool
is_from none t = true
is_from (some start) t = leb start t

abbrev pub is_until : Option ℕ → ℕ → Bool
is_until none t = true
is_until (some end) t = ltb t end

-- `_in_range` of one row's `created_at`
unfoldable pub in_range : Option ℕ → Option ℕ → ℕ → Bool
in_range start end t = is_from start t && is_until end t

module _ {A : Type 0} where
  -- `.filter(…).count()`
  abbrev pub count : (A → Bool) → List (ℕ × A) → ℕ
  count p [] = 0
  count p ((_, a) ∷ rows) = (if p a then 1 else 0) + count p rows

  -- `.filter(…).aggregate(t=Sum(…))`, with None as zero
  abbrev pub total : (A → Bool) → (A → ℕ) → List (ℕ × A) → ℕ
  total p f [] = 0
  total p f ((_, a) ∷ rows) = (if p a then f a else 0) + total p f rows

-- `Auction.Status.choices`
abbrev pub all_statuses : List AuctionStatus
all_statuses =
    AuctionStatus.draft ∷ AuctionStatus.submitted ∷ AuctionStatus.approved ∷ AuctionStatus.rejected
    ∷ AuctionStatus.scheduled ∷ AuctionStatus.live ∷ AuctionStatus.paused ∷ AuctionStatus.closed
    ∷ AuctionStatus.settled ∷ AuctionStatus.completed ∷ AuctionStatus.cancelled
    ∷ AuctionStatus.disputed ∷ []

abbrev pub of_status : AuctionStatus → (Auction → Bool) → Auction → Bool
of_status s p a = p a && same_status a.status s

-- the statuses that occur, each with how often
unfoldable pub status_rows :
    (Auction → Bool) → List (ℕ × Auction) → List AuctionStatus → List (AuctionStatus × ℕ)
status_rows p rows [] = []
status_rows p rows (s ∷ ss) =
    let n = count (of_status s p) rows in
    let rest = status_rows p rows ss in if n == 0 then rest else (s, n) ∷ rest

abbrev pub price_or_zero : Auction → ℕ
price_or_zero a = elim (a.final_price) [ none ↦ 0 | some price ↦ price ]

-- `Payment.Status.choices`
abbrev pub payment_statuses : List PaymentStatus
payment_statuses =
    PaymentStatus.pending ∷ PaymentStatus.paid ∷ PaymentStatus.failed ∷ PaymentStatus.refunded ∷ []

abbrev pub same_payment_status : PaymentStatus → PaymentStatus → Bool
same_payment_status PaymentStatus.pending PaymentStatus.pending = true
same_payment_status PaymentStatus.paid PaymentStatus.paid = true
same_payment_status PaymentStatus.failed PaymentStatus.failed = true
same_payment_status PaymentStatus.refunded PaymentStatus.refunded = true
same_payment_status _ _ = false

-- of each status, how many payments and how much
unfoldable pub payment_figures :
    (Payment → Bool) → List (ℕ × Payment) → List PaymentStatus → List (PaymentStatus × ℕ × ℕ)
payment_figures p rows [] = []
payment_figures p rows (s ∷ ss) =
    (
      s,
      count (λ a. p a && same_payment_status a.status s) rows,
      total (λ a. p a && same_payment_status a.status s) (λ a. a.amount) rows,
    )
    ∷ payment_figures p rows ss

-- `.values("auction").distinct().count()`
unfoldable pub distinct_auctions : (Bid → Bool) → List (ℕ × Bid) → ℕ
distinct_auctions p [] = 0
distinct_auctions p ((_, b) ∷ rows) =
    (if p b && not (any (λ (r : ℕ × Bid). p r.1 && r.1.auction == b.auction) rows) then 1 else 0)
    + distinct_auctions p rows

-- The quotients of the summary are left as their two parts: `sell_through` is `sold_count` of
-- `finished_count`, `average_sale` is `sales_value` over
-- `sold_count`, `avg_bids` is `bid_count` over `auctions_with_bids`.
pub record Summary : Type 0 where
  pub total_auctions : ℕ
  pub by_status : List (AuctionStatus × ℕ)
  pub finished_count : ℕ
  pub sold_count : ℕ
  pub unsold_count : ℕ
  pub sales_value : ℕ
  pub bid_count : ℕ
  pub auctions_with_bids : ℕ
  pub payment_rows : List (PaymentStatus × ℕ × ℕ)
  pub collected : ℕ
  pub outstanding : ℕ
  pub disputes_total : ℕ
  pub disputes_active : ℕ
  pub verified_sellers : ℕ
  pub verified_bidders : ℕ
  pub pending_verifications : ℕ

unfoldable pub build_summary : Option ℕ → Option ℕ → Db → Summary
build_summary start end db =
    let a_in = λ (a : Auction). in_range start end a.created_at in
    let p_in = λ (p : Payment). in_range start end p.created_at in
    let d_in = λ (d : Dispute). in_range start end d.created_at in
    let finished = count (λ a. a_in a && is_finished a.status) db.auctions.rows in
    let sold = count (λ a. a_in a && is_finished a.status && is_some a.winner) db.auctions.rows in
    record {
      total_auctions = count a_in db.auctions.rows;
      by_status = status_rows a_in db.auctions.rows all_statuses;
      finished_count = finished;
      sold_count = sold;
      unsold_count = finished - sold;
      sales_value =
          total (λ a. a_in a && is_finished a.status && is_some a.winner) price_or_zero
            db.auctions.rows;
      bid_count =
          count (λ (b : Bid). is_accepted b.status && in_range start end b.created_at) db.bids.rows;
      auctions_with_bids =
          distinct_auctions (λ (b : Bid). is_accepted b.status && in_range start end b.created_at)
            db.bids.rows;
      payment_rows = payment_figures p_in db.payments.rows payment_statuses;
      collected = total (λ p. p_in p && is_paid p.status) (λ p. p.amount) db.payments.rows;
      outstanding = total (λ p. p_in p && is_pending p.status) (λ p. p.amount) db.payments.rows;
      disputes_total = count d_in db.disputes.rows;
      disputes_active = count (λ d. d_in d && is_active d.status) db.disputes.rows;
      verified_sellers =
          count (λ (s : SellerProfile). is_verified_status s.verification_status) db.sellers.rows;
      verified_bidders =
          count (λ (b : BidderProfile). is_verified_status b.verification_status) db.bidders.rows;
      pending_verifications =
          count (λ (s : SellerProfile). is_pending_status s.verification_status) db.sellers.rows
          + count (λ (b : BidderProfile). is_pending_status b.verification_status) db.bidders.rows;
    }

-- `text[:1] in ("=", "+", "-", "@", "\t", "\r")`
abbrev pub is_formula : String → Bool
is_formula String.[] = false
is_formula (String.◌∷◌ c s) =
    code c == 61 || code c == 43 || code c == 45 || code c == 64 || code c == 9 || code c == 13

-- of a value as `str` gives it, or none for None
-- `"'" + text`
abbrev quoted : String → String
quoted text = String.◌∷◌ "'" text

unfoldable pub csv_safe : Option String → String
unfolding quoted
csv_safe none = ""
csv_safe (some text) = if is_formula text then quoted text else text
