-- ===== src/System/Invariants/Disputed.antt =====
-- DISPUTED auctions and active disputes, as a count, against the UniqueConstraint of
-- apps/disputes/models.py.
use mbarara_auction.Prelude.{
  ℕ, ◌+◌, ◌≡◌, refl, Bool, true, false, none, some, List, [], ◌∷◌, arith, ◌==◌, ==_iff, inl, inr,
  Bool-cases, any,
}
use mbarara_auction.Table.{Table, get, find, change}
use mbarara_auction.Table.Keys.{KeysBelow, change-none, find-KeysBelow}
use mbarara_auction.Table.References.{RefersBelow}
use mbarara_auction.Models.Auctions.{AuctionStatus, Auction}
use mbarara_auction.Models.Disputes.{Dispute}
use mbarara_auction.Disputes.Access.{is_active_on}

abbrev pub is_disputed : AuctionStatus → Bool
is_disputed AuctionStatus.disputed = true
is_disputed _ = false

abbrev pub one_if : Bool → ℕ
one_if true = 1
one_if false = 0

-- How many disputes about the auction are active?
abbrev pub active_count : ℕ → List (ℕ × Dispute) → ℕ
active_count k [] = 0
active_count k (r ∷ rows) = one_if (is_active_on k r) + active_count k rows

abbrev pub IsDisputeKept : Table Auction → Table Dispute → Type 0
IsDisputeKept auctions disputes =
    (k : ℕ) (a : Auction)
    → get k auctions ≡ some a
    → active_count k disputes.rows ≡ one_if (is_disputed a.status)

pub active_count-none :
    (k : ℕ) (rows : List (ℕ × Dispute))
    → any (is_active_on k) rows ≡ false
    → active_count k rows ≡ 0
active_count-none k [] h = refl
active_count-none k (r ∷ rows) h = ground (arith, active_count-none k rows)

pub active_count-RefersBelow :
    (k : ℕ) (rows : List (ℕ × Dispute))
    → RefersBelow (λ (d : Dispute). d.auction) rows k
    → active_count k rows ≡ 0
active_count-RefersBelow k [] known = refl
active_count-RefersBelow k ((i, d) ∷ rows) known =
    ground (arith, known.0, active_count-RefersBelow k rows known.1)

-- Changing one row changes the count by that row.
pub active_count-change :
    (k key n : ℕ) (f : Dispute → Dispute) (d : Dispute) (rows : List (ℕ × Dispute))
    → KeysBelow rows n
    → find key rows ≡ some d
    → active_count k (change key f rows) + one_if (is_active_on k (key, d))
      ≡ active_count k rows + one_if (is_active_on k (key, f d))
active_count-change k key n f d [] keyed found = cc
active_count-change k key n f d ((i, x) ∷ rows) keyed found = elim (Bool-cases (i == key)) [
  | inl hit ↦
      let x_is : x ≡ d = ground arith in
      let gone : find key rows ≡ none =
        find-KeysBelow key i rows keyed.1 (omega (arith, (==_iff i key).0 hit)) in
      ground (arith, change-none key f rows gone)
  | inr miss ↦ ground (arith, active_count-change k key i f d rows keyed.1)
]
