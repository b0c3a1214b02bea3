-- ===== src/Table/References.antt =====
-- Rows that refer to rows of another table by a foreign key: every key that they hold was given.
use mbarara_auction.Prelude.{
  ℕ, ◌+◌, ◌<◌, ◌≡◌, some, List, [], ◌∷◌, arith, leb, inl, inr, Bool-cases,
}
use mbarara_auction.Table.{Table, get, change}
use mbarara_auction.Table.Keys.{IsKeyed, find-KeysBelow}

module _ {A : Type 0} (ref : A → ℕ) where
  abbrev pub RefersBelow : List (ℕ × A) → ℕ → Type 0
  RefersBelow [] n = Unit
  RefersBelow ((k, a) ∷ rows) n = (ref a < n) × RefersBelow rows n

  pub RefersBelow-suc :
      (rows : List (ℕ × A)) (n : ℕ) → RefersBelow rows n → RefersBelow rows (n + 1)
  RefersBelow-suc [] n h = tt
  RefersBelow-suc ((k, a) ∷ rows) n h = (omega (arith, h.0), RefersBelow-suc rows n h.1)

  pub RefersBelow-change :
      (key : ℕ) (f : A → A) (rows : List (ℕ × A)) (n : ℕ)
      → ((a : A) → ref (f a) ≡ ref a)
      → RefersBelow rows n
      → RefersBelow (change key f rows) n
  RefersBelow-change key f [] n same h = tt
  RefersBelow-change key f ((k, a) ∷ rows) n same h =
      (ground (arith, h.0, same a), RefersBelow-change key f rows n same h.1)

pub below_next :
    {A : Type 0} (k : ℕ) (a : A) (t : Table A) → IsKeyed t → get k t ≡ some a → k < t.next
unfolding get
below_next k a t keyed found = elim (Bool-cases (leb t.next k)) [
  | inl above ↦ absurd (ground (arith, find-KeysBelow k t.next t.rows keyed (ground arith)))
  | inr below ↦ ground arith
]
