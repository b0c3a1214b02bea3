-- ===== src/Reports/Categories.antt =====
-- apps/reports/services.py: the rows by category of build_summary. A category is its key, since names
-- are unique; the database's order of the names is an argument.
pub mod Sums
use mbarara_auction.Prelude.{
  ℕ, Bool, true, false, not, ◌&&◌, Option, none, some, List, [], ◌∷◌, ◌==◌, ltb, if◌then◌else◌,
  is_some, order_by, map,
}
use mbarara_auction.Models.{Db}
use mbarara_auction.Models.Auctions.{Auction}
use mbarara_auction.Reports.{in_range, is_finished, count, total, price_or_zero}

pub record CategoryRow : Type 0 where
  pub category : ℕ
  pub total_auctions : ℕ
  pub sold : ℕ
  pub value : ℕ

abbrev pub occurs : ℕ → List ℕ → Bool
occurs c [] = false
occurs c (d ∷ ds) = if c == d then true else occurs c ds

-- `.values("category__name")` makes one group of all rows with the same name.
unfoldable pub group_keys : (Auction → Bool) → List (ℕ × Auction) → List ℕ
group_keys p [] = []
group_keys p ((_, a) ∷ rows) =
    let rest = group_keys p rows in
    if p a && not (occurs a.category rest) then a.category ∷ rest else rest

-- `Q(status__in=FINISHED_STATUSES, winner__isnull=False)`
abbrev pub is_sold : (Auction → Bool) → Auction → Bool
is_sold p a = p a && is_finished a.status && is_some a.winner

abbrev pub in_category : (Auction → Bool) → ℕ → Auction → Bool
in_category p c a = p a && a.category == c

abbrev pub category_row : (Auction → Bool) → List (ℕ × Auction) → ℕ → CategoryRow
category_row p rows c = record {
  category = c;
  total_auctions = count (in_category p c) rows;
  sold = count (in_category (is_sold p) c) rows;
  value = total (in_category (is_sold p) c) price_or_zero rows;
}

-- `order_by("-total", "category__name")`
abbrev pub row_before : (ℕ → ℕ → Bool) → CategoryRow → CategoryRow → Bool
row_before name_before r s =
    if r.total_auctions == s.total_auctions
    then name_before r.category s.category
    else ltb s.total_auctions r.total_auctions

unfoldable pub category_rows : (ℕ → ℕ → Bool) → Option ℕ → Option ℕ → Db → List CategoryRow
unfolding group_keys order_by
category_rows name_before start end db =
    let p = λ (a : Auction). in_range start end a.created_at in
    order_by (row_before name_before)
      (map (category_row p db.auctions.rows) (group_keys p db.auctions.rows))
