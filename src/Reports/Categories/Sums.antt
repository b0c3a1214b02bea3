-- ===== src/Reports/Categories/Sums.antt =====
-- apps/reports/services.py: the rows by category, against the figures of the whole summary.
use mbarara_auction.Prelude.{
  ℕ, ◌+◌, ◌≡◌, refl, ap, sym, ◌∙◌, Bool, true, false, ◌&&◌, Option, List, [], ◌∷◌, ◌==◌, arith,
  if◌then◌else◌, insert_by, order_by, map, Bool-cases, inl, inr,
}
use mbarara_auction.Models.{Db}
use mbarara_auction.Models.Auctions.{Auction}
use mbarara_auction.Reports.{in_range, count, total, price_or_zero, build_summary}
use mbarara_auction.Reports.Categories.{
  CategoryRow, occurs, group_keys, is_sold, in_category, category_row, row_before, category_rows,
}

abbrev pub sum_over : {A : Type 0} → (A → ℕ) → List A → ℕ
sum_over f [] = 0
sum_over f (x ∷ xs) = f x + sum_over f xs

-- A sum does not depend on the order.
module _ {A : Type 0} (f : A → ℕ) (before : A → A → Bool) where
  sum_over-insert_by :
      (x : A) (xs : List A) → sum_over f (insert_by before x xs) ≡ f x + sum_over f xs
  unfolding insert_by
  sum_over-insert_by x [] = refl
  sum_over-insert_by x (y ∷ ys) = ground (arith, sum_over-insert_by x ys)

  sum_over-order_by : (xs : List A) → sum_over f (order_by before xs) ≡ sum_over f xs
  unfolding order_by
  sum_over-order_by [] = refl
  sum_over-order_by (x ∷ xs) =
      sum_over-insert_by x (order_by before xs) ∙ ap (λ n. f x + n) (sum_over-order_by xs)

sum_over-map :
    {A B : Type 0} (f : B → ℕ) (g : A → B) (xs : List A)
    → sum_over f (map g xs) ≡ sum_over (λ x. f (g x)) xs
sum_over-map f g [] = refl
sum_over-map f g (x ∷ xs) = ap (λ n. f (g x) + n) (sum_over-map f g xs)

-- what one auction adds to the group of each of the keys
abbrev shares : Bool → ℕ → ℕ → List ℕ → ℕ
shares counts weight c [] = 0
shares counts weight c (d ∷ ds) =
    (if counts && c == d then weight else 0) + shares counts weight c ds

shares-false : (weight c : ℕ) (ds : List ℕ) → shares false weight c ds ≡ 0
shares-false weight c [] = refl
shares-false weight c (d ∷ ds) = ground (arith, shares-false weight c ds)

module _ (p : Auction → Bool) where
  -- The groups' keys differ.
  shares-group_keys :
      (weight c : ℕ) (rows : List (ℕ × Auction))
      → shares true weight c (group_keys p rows)
        ≡ (if occurs c (group_keys p rows) then weight else 0)
  unfolding group_keys
  shares-group_keys weight c [] = refl
  shares-group_keys weight c ((k, a) ∷ rows) = ground (arith, shares-group_keys weight c rows)

  occurs-later :
      (c k : ℕ) (a : Auction) (rows : List (ℕ × Auction))
      → occurs c (group_keys p rows) ≡ true
      → occurs c (group_keys p ((k, a) ∷ rows)) ≡ true
  unfolding group_keys
  occurs-later c k a rows h = ground arith

  occurs-here :
      (k : ℕ) (a : Auction) (rows : List (ℕ × Auction))
      → p a ≡ true
      → occurs a.category (group_keys p ((k, a) ∷ rows)) ≡ true
  unfolding group_keys
  occurs-here k a rows h = ground arith

-- every row that counts is in one of the groups
abbrev Covers : (Auction → Bool) → List ℕ → List (ℕ × Auction) → Type 0
Covers q ds [] = Unit
Covers q ds ((k, a) ∷ rows) = (q a ≡ true → occurs a.category ds ≡ true) × Covers q ds rows

Covers-more :
    (q : Auction → Bool) (ds es : List ℕ) (rows : List (ℕ × Auction))
    → ((c : ℕ) → occurs c ds ≡ true → occurs c es ≡ true)
    → Covers q ds rows
    → Covers q es rows
Covers-more q ds es [] more h = tt
Covers-more q ds es ((k, a) ∷ rows) more (here, later) =
    (λ e. more a.category (here e), Covers-more q ds es rows more later)

group_keys-Covers :
    (p q : Auction → Bool) (rows : List (ℕ × Auction))
    → ((a : Auction) → q a ≡ true → p a ≡ true)
    → Covers q (group_keys p rows) rows
group_keys-Covers p q [] within = tt
group_keys-Covers p q ((k, a) ∷ rows) within = (
  λ e. occurs-here p k a rows (within a e),
  Covers-more q _ _ rows (λ c. occurs-later p c k a rows) (group_keys-Covers p q rows within),
)

module _ (q : Auction → Bool) (f : Auction → ℕ) where
  sum_over-first :
      (k : ℕ) (a : Auction) (rows : List (ℕ × Auction)) (ds : List ℕ)
      → sum_over (λ c. total (in_category q c) f ((k, a) ∷ rows)) ds
        ≡ shares (q a) (f a) a.category ds + sum_over (λ c. total (in_category q c) f rows) ds
  sum_over-first k a rows [] = refl
  sum_over-first k a rows (d ∷ ds) = ground (arith, sum_over-first k a rows ds)

  sum_over-none : (ds : List ℕ) → sum_over (λ c. total (in_category q c) f []) ds ≡ 0
  sum_over-none [] = refl
  sum_over-none (d ∷ ds) = ground (arith, sum_over-none ds)

  -- Groups that cover the rows, each row once, split a total.
  sum_over-total :
      (ds : List ℕ) (rows : List (ℕ × Auction))
      → ((weight c : ℕ) → shares true weight c ds ≡ (if occurs c ds then weight else 0))
      → Covers q ds rows
      → sum_over (λ c. total (in_category q c) f rows) ds ≡ total q f rows
  sum_over-total ds [] once covered = sum_over-none ds
  sum_over-total ds ((k, a) ∷ rows) once (here, later) =
      sum_over-first k a rows ds ∙ (elim (Bool-cases (q a)) [
        | inl e ↦ rw (e, once (f a) a.category, here e, sum_over-total ds rows once later) refl
        | inr e ↦ rw (e, shares-false (f a) a.category ds, sum_over-total ds rows once later) refl
      ])

count-total :
    (q : Auction → Bool) (rows : List (ℕ × Auction)) → count q rows ≡ total q (λ a. 1) rows
count-total q [] = refl
count-total q ((k, a) ∷ rows) = ap (λ n. (if q a then 1 else 0) + n) (count-total q rows)

-- sums over all groups
groups-total :
    (p q : Auction → Bool) (f : Auction → ℕ) (rows : List (ℕ × Auction))
    → ((a : Auction) → q a ≡ true → p a ≡ true)
    → sum_over (λ c. total (in_category q c) f rows) (group_keys p rows) ≡ total q f rows
groups-total p q f rows within =
    sum_over-total q f (group_keys p rows) rows (λ w c. shares-group_keys p w c rows)
      (group_keys-Covers p q rows within)

sum_over-count :
    (q : Auction → Bool) (rows : List (ℕ × Auction)) (ds : List ℕ)
    → sum_over (λ c. count (in_category q c) rows) ds
      ≡ sum_over (λ c. total (in_category q c) (λ a. 1) rows) ds
sum_over-count q rows [] = refl
sum_over-count q rows (d ∷ ds) =
    rw (count-total (in_category q d) rows, sum_over-count q rows ds) refl

groups-count :
    (p q : Auction → Bool) (rows : List (ℕ × Auction))
    → ((a : Auction) → q a ≡ true → p a ≡ true)
    → sum_over (λ c. count (in_category q c) rows) (group_keys p rows) ≡ count q rows
groups-count p q rows within =
    sum_over-count q rows (group_keys p rows)
    ∙ groups-total p q (λ a. 1) rows within
    ∙ sym (count-total q rows)

is_sold-within : (p : Auction → Bool) (a : Auction) → is_sold p a ≡ true → p a ≡ true
is_sold-within p a h = ground arith

-- The rows by category split the summary: their auctions, their sales and their values add up to
-- the number of auctions, the number of sales and the value of the sales of the whole range.
pub category_rows-sum_over :
    (name_before : ℕ → ℕ → Bool) (start end : Option ℕ) (db : Db)
    → let rows = category_rows name_before start end db in
      let summary = build_summary start end db in
      (sum_over (λ (r : CategoryRow). r.total_auctions) rows ≡ summary.total_auctions)
      × (sum_over (λ (r : CategoryRow). r.sold) rows ≡ summary.sold_count)
      × (sum_over (λ (r : CategoryRow). r.value) rows ≡ summary.sales_value)
unfolding category_rows build_summary
category_rows-sum_over name_before start end db =
    let p = λ (a : Auction). in_range start end a.created_at in
    let rows = db.auctions.rows in
    let split = λ (g : CategoryRow → ℕ).
      sum_over-order_by g (row_before name_before) _
      ∙ sum_over-map g (category_row p rows) (group_keys p rows) in
    (
      split (λ r. r.total_auctions) ∙ groups-count p p rows (λ a h. h),
      split (λ r. r.sold) ∙ groups-count p (is_sold p) rows (is_sold-within p),
      split (λ r. r.value) ∙ groups-total p (is_sold p) price_or_zero rows (is_sold-within p),
    )
