-- ===== src/Bidding/Queries/Sequence.antt =====
-- apps/bidding/services.py: the next sequence number of an auction, against those of its bids.
use mbarara_auction.Prelude.{
  ℕ, ◌≤◌, ◌<◌, ◌≡◌, refl, true, false, List, [], ◌∷◌, arith, any, first_by, select, Option-cases,
  inl, inr,
}
use mbarara_auction.Models.Bidding.{Bid}
use mbarara_auction.Bidding.Queries.{
  on_auction, later, sequence_or_zero, next_sequence, has_sequence,
}

abbrev top : ℕ → List (ℕ × Bid) → ℕ
top k rows = sequence_or_zero (first_by later (select (on_auction k) rows))

top_of_first :
    (k : ℕ) (r : ℕ × Bid) (rows : List (ℕ × Bid))
    → (top k rows ≤ top k (r ∷ rows)) × (on_auction k r ≡ true → r.1.sequence_no ≤ top k (r ∷ rows))
top_of_first k r rows = elim (Option-cases (first_by later (select (on_auction k) rows))) [
  | inl e ↦ (ground arith, λ its. ground arith)
  | inr (s, e) ↦ (ground arith, λ its. ground arith)
]

unused_above :
    (k n : ℕ) (rows : List (ℕ × Bid)) → top k rows < n → any (has_sequence k n) rows ≡ false
unused_above k n [] h = refl
unused_above k n (r ∷ rows) h =
    let (below, its) = top_of_first k r rows in ground (arith, unused_above k n rows, its, below)

-- The sequence number that the next bid of an auction gets is on none of its bids, so the unique
-- constraint on it is never violated.
pub next_sequence-unused :
    (k : ℕ) (rows : List (ℕ × Bid)) → any (has_sequence k (next_sequence k rows)) rows ≡ false
unfolding next_sequence
next_sequence-unused k rows = unused_above k _ rows (omega arith)
