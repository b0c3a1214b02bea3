-- ===== src/Reports/Csv/Cells.antt =====
-- apps/reports/services.py: what the CSV files of a range hold.
use mbarara_auction.Prelude.{
  ℕ, suc, ◌≡◌, refl, ◌∙◌, ap, String, Bool, false, Option, List, [], ◌∷◌, arith, map, length,
  insert_by, order_by,
}
use mbarara_auction.Models.{Db}
use mbarara_auction.Models.Auctions.{Auction}
use mbarara_auction.Models.Payments.{Payment}
use mbarara_auction.Reports.{is_formula, csv_safe}
use mbarara_auction.Reports.Figures.{csv_safe-is_formula}
use mbarara_auction.Reports.Csv.{auction_cells, payment_cells, auction_rows, payment_rows}

-- No cell of the rows is a formula.
abbrev SafeRow : List String → Type 0
SafeRow [] = Unit {0}
SafeRow (cell ∷ cells) = (is_formula cell ≡ false) × SafeRow cells

abbrev pub AllSafe : List (List String) → Type 0
AllSafe [] = Unit {0}
AllSafe (row ∷ rows) = SafeRow row × AllSafe rows

SafeRow-map : (cells : List (Option String)) → SafeRow (map csv_safe cells)
SafeRow-map [] = tt
SafeRow-map (cell ∷ cells) = (csv_safe-is_formula cell, SafeRow-map cells)

AllSafe-map :
    {A : Type 0} (cells : A → List (Option String)) (rows : List A)
    → AllSafe (map (λ r. map csv_safe (cells r)) rows)
AllSafe-map cells [] = tt
AllSafe-map cells (row ∷ rows) = (SafeRow-map (cells row), AllSafe-map cells rows)

length-insert_by :
    {A : Type 0} (before : A → A → Bool) (x : A) (xs : List A)
    → length (insert_by before x xs) ≡ suc (length xs)
unfolding insert_by
length-insert_by before x [] = refl
length-insert_by before x (y ∷ ys) = ground (arith, length-insert_by before x ys)

length-order_by :
    {A : Type 0} (before : A → A → Bool) (xs : List A) → length (order_by before xs) ≡ length xs
unfolding order_by
length-order_by before [] = refl
length-order_by before (x ∷ xs) =
    length-insert_by before x (order_by before xs) ∙ ap suc (length-order_by before xs)

length-map : {A B : Type 0} (f : A → B) (xs : List A) → length (map f xs) ≡ length xs
length-map f [] = refl
length-map f (x ∷ xs) = ap suc (length-map f xs)

-- The CSV files have a row for each auction and for each payment that they are given, and no cell
-- that a spreadsheet would take for a formula.
pub csv_rows-AllSafe :
    (time_text category_name : ℕ → String) (auctions : List (ℕ × Auction))
    (payments : List (ℕ × Payment)) (db : Db)
    → let auction_file = auction_rows time_text category_name auctions db in
      let payment_file = payment_rows time_text category_name payments db in
      (length auction_file ≡ length auctions)
      × (length payment_file ≡ length payments)
      × AllSafe auction_file
      × AllSafe payment_file
unfolding auction_rows payment_rows
csv_rows-AllSafe time_text category_name auctions payments db = (
  length-map _ _ ∙ length-order_by _ auctions,
  length-map _ _ ∙ length-order_by _ payments,
  AllSafe-map (auction_cells time_text category_name db) _,
  AllSafe-map (payment_cells time_text category_name db) _,
)
