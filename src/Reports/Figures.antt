-- ===== src/Reports/Figures.antt =====
-- apps/reports/services.py: how the figures fit together, and the cells of the files.
use mbarara_auction.Prelude.{
  ℕ, ◌+◌, ◌≤◌, ◌≡◌, refl, ◌∙◌, String, Bool, true, false, ◌&&◌, Option, none, some, List, [], ◌∷◌,
  arith, if◌then◌else◌, is_some, Bool-cases, inl, inr,
}
use mbarara_auction.Models.{Db}
use mbarara_auction.Models.Auctions.{AuctionStatus, Auction, same_status}
use mbarara_auction.Models.Payments.{PaymentStatus, Payment}
use mbarara_auction.Reports.{
  payment_statuses, payment_figures, same_payment_status, total, in_range, count, all_statuses,
  status_rows, build_summary, is_formula, csv_safe, is_finished,
}

-- No output of csv_safe starts with a character that makes a spreadsheet take it for a formula.
pub csv_safe-is_formula : (value : Option String) → is_formula (csv_safe value) ≡ false
unfolding csv_safe
csv_safe-is_formula none = refl
csv_safe-is_formula (some text) = elim (Bool-cases (is_formula text)) [
  | inl h ↦ rw h refl
  | inr h ↦ rw h h
]

abbrev pub sum_of : List (AuctionStatus × ℕ) → ℕ
sum_of [] = 0
sum_of ((s, n) ∷ rows) = n + sum_of rows

-- how often a status is in a list, if it counts at all
abbrev hits : Bool → AuctionStatus → List AuctionStatus → ℕ
hits counts s [] = 0
hits counts s (t ∷ ts) = (if counts && same_status s t then 1 else 0) + hits counts s ts

sum_of-none : (p : Auction → Bool) (ss : List AuctionStatus) → sum_of (status_rows p [] ss) ≡ 0
unfolding status_rows
sum_of-none p [] = refl
sum_of-none p (s ∷ ss) = sum_of-none p ss

sum_of-first :
    (p : Auction → Bool) (k : ℕ) (a : Auction) (rows : List (ℕ × Auction)) (ss : List AuctionStatus)
    → sum_of (status_rows p ((k, a) ∷ rows) ss)
      ≡ hits (p a) a.status ss + sum_of (status_rows p rows ss)
unfolding status_rows
sum_of-first p k a rows [] = refl
sum_of-first p k a rows (s ∷ ss) = ground (arith, sum_of-first p k a rows ss)

hits_once :
    (counts : Bool) (s : AuctionStatus) → hits counts s all_statuses ≡ (if counts then 1 else 0)
unfolding same_status
hits_once false s = refl
hits_once true s = elim s as (λ s. hits true s all_statuses ≡ 1) [
  | AuctionStatus.draft ↦ refl
  | AuctionStatus.submitted ↦ refl
  | AuctionStatus.approved ↦ refl
  | AuctionStatus.rejected ↦ refl
  | AuctionStatus.scheduled ↦ refl
  | AuctionStatus.live ↦ refl
  | AuctionStatus.paused ↦ refl
  | AuctionStatus.closed ↦ refl
  | AuctionStatus.settled ↦ refl
  | AuctionStatus.completed ↦ refl
  | AuctionStatus.cancelled ↦ refl
  | AuctionStatus.disputed ↦ refl
]

sum_of-status_rows :
    (p : Auction → Bool) (rows : List (ℕ × Auction))
    → sum_of (status_rows p rows all_statuses) ≡ count p rows
sum_of-status_rows p [] = sum_of-none p all_statuses
sum_of-status_rows p ((k, a) ∷ rows) =
    sum_of-first p k a rows all_statuses ∙ cc (hits_once (p a) a.status, sum_of-status_rows p rows)

-- The numbers of auctions by status in the summary add up to its number of auctions.
pub build_summary-sum_of :
    (start end : Option ℕ) (db : Db)
    → sum_of (build_summary start end db).by_status ≡ (build_summary start end db).total_auctions
unfolding build_summary
build_summary-sum_of start end db =
    sum_of-status_rows (λ a. in_range start end a.created_at) db.auctions.rows

-- A range that is cut in two at a time between its bounds.
in_range-cut :
    (start cut end t : ℕ)
    → start ≤ cut
    → cut ≤ end
    → (if in_range (some start) (some end) t then 1 else 0)
      ≡ (if in_range (some start) (some cut) t then 1 else 0)
        + (if in_range (some cut) (some end) t then 1 else 0)
unfolding in_range
in_range-cut start cut end t h k = ground arith

count-cut :
    {A : Type 0} (p q r : A → Bool) (rows : List (ℕ × A))
    → ((a : A) → (if p a then 1 else 0) ≡ (if q a then 1 else 0) + (if r a then 1 else 0))
    → count p rows ≡ count q rows + count r rows
count-cut p q r [] h = refl
count-cut p q r ((k, a) ∷ rows) h = omega (arith, h a, count-cut p q r rows h)

count-weaken :
    {A : Type 0} (p q : A → Bool) (rows : List (ℕ × A))
    → ((a : A) → p a ≡ true → q a ≡ true)
    → count p rows ≤ count q rows
count-weaken p q [] h = omega arith
count-weaken p q ((k, a) ∷ rows) h = ground (arith, h a, count-weaken p q rows h)

-- For two ranges of time that meet, the auctions counted add up to those of the whole range, and
-- so do the disputes.
pub build_summary-cut :
    (start cut end : ℕ) (db : Db)
    → start ≤ cut
    → cut ≤ end
    → let whole = build_summary (some start) (some end) db in
      let first = build_summary (some start) (some cut) db in
      let second = build_summary (some cut) (some end) db in
      (whole.total_auctions ≡ first.total_auctions + second.total_auctions)
      × (whole.disputes_total ≡ first.disputes_total + second.disputes_total)
unfolding build_summary
build_summary-cut start cut end db h k = (
  count-cut _ _ _ db.auctions.rows (λ a. in_range-cut start cut end a.created_at h k),
  count-cut _ _ _ db.disputes.rows (λ d. in_range-cut start cut end d.created_at h k),
)

-- The finished auctions are those that were sold and those that were not.
pub build_summary-finished_count :
    (start end : Option ℕ) (db : Db)
    → let s = build_summary start end db in s.sold_count + s.unsold_count ≡ s.finished_count
unfolding build_summary
build_summary-finished_count start end db =
    let le =
      count-weaken
        (λ (a : Auction).
          in_range start end a.created_at && is_finished a.status && is_some a.winner)
        (λ a. in_range start end a.created_at && is_finished a.status) db.auctions.rows
        (λ a h. ground arith) in
    omega (arith, le)

abbrev pub figures_count : List (PaymentStatus × ℕ × ℕ) → ℕ
figures_count [] = 0
figures_count ((s, n, amount) ∷ rows) = n + figures_count rows

abbrev pub figures_amount : List (PaymentStatus × ℕ × ℕ) → ℕ
figures_amount [] = 0
figures_amount ((s, n, amount) ∷ rows) = amount + figures_amount rows

hit_once :
    (s : PaymentStatus) (x : ℕ)
    → (if same_payment_status s PaymentStatus.pending then x else 0)
        + (if same_payment_status s PaymentStatus.paid then x else 0)
        + (if same_payment_status s PaymentStatus.failed then x else 0)
        + (if same_payment_status s PaymentStatus.refunded then x else 0)
      ≡ x
hit_once PaymentStatus.pending x = omega arith
hit_once PaymentStatus.paid x = omega arith
hit_once PaymentStatus.failed x = omega arith
hit_once PaymentStatus.refunded x = omega arith

payment_figures_lem :
    (p : Payment → Bool) (rows : List (ℕ × Payment))
    → (figures_count (payment_figures p rows payment_statuses) ≡ count p rows)
      × (figures_amount (payment_figures p rows payment_statuses) ≡ total p (λ a. a.amount) rows)
unfolding payment_figures
payment_figures_lem p [] = (omega arith, omega arith)
payment_figures_lem p ((k, a) ∷ rows) =
    let (counts, amounts) = payment_figures_lem p rows in
    elim (Bool-cases (p a)) [
      | inl here ↦ rw here (
        omega (arith, hit_once a.status 1, counts),
        omega (arith, hit_once a.status a.amount, amounts),
      )
      | inr elsewhere ↦ rw elsewhere (omega (arith, counts), omega (arith, amounts))
    ]

-- The rows by payment status in the summary add up to the number and the amount of the payments in
-- the range.
pub build_summary-payment_rows :
    (start end : Option ℕ) (db : Db)
    → let rows = (build_summary start end db).payment_rows in
      let p_in = λ (p : Payment). in_range start end p.created_at in
      (figures_count rows ≡ count p_in db.payments.rows)
      × (figures_amount rows ≡ total p_in (λ p. p.amount) db.payments.rows)
unfolding build_summary
build_summary-payment_rows start end db =
    payment_figures_lem (λ p. in_range start end p.created_at) db.payments.rows
