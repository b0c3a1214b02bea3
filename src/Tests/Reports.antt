-- ===== src/Tests/Reports.antt =====
-- The rows by category of a small database.
use mbarara_auction.Prelude.{◌≡◌, refl, List, none, length, ltb, insert_by, order_by}
use mbarara_auction.Reports.{build_summary, in_range}
use mbarara_auction.Reports.Categories.{CategoryRow, category_rows, group_keys}
use mbarara_auction.Reports.Categories.Sums.{sum_over, category_rows-sum_over}
use mbarara_auction.Tests.Data.{sale}

abbrev livestock_rows : List CategoryRow
livestock_rows = category_rows ltb none none sale

livestock_once : length livestock_rows ≡ 1
unfolding category_rows group_keys order_by insert_by in_range
livestock_once = refl

category_rows-sum_over_example :
    (sum_over (λ (r : CategoryRow). r.total_auctions) livestock_rows
      ≡ (build_summary none none sale).total_auctions)
    × (sum_over (λ (r : CategoryRow). r.sold) livestock_rows
        ≡ (build_summary none none sale).sold_count)
    × (sum_over (λ (r : CategoryRow). r.value) livestock_rows
        ≡ (build_summary none none sale).sales_value)
category_rows-sum_over_example = category_rows-sum_over ltb none none sale
