-- ===== src/Bidding/Highest.antt =====
-- `Auction.current_highest_bid`, a copy of a fact about the bids (apps/bidding/services.py), against the
-- bids.
use mbarara_auction.Prelude.{
  ℕ, ◌≤◌, ◌≡◌, ◌≢◌, refl, sym, ap, ◌∙◌, true, Option, none, some, List, [], ◌∷◌, arith, ltb, ◌==◌,
  ==_iff, if◌then◌else◌, inl, inr, Bool-cases, Option-cases,
}
use mbarara_auction.Table.{Table, find, change, get, modify, create, get-modify}
use mbarara_auction.Table.Keys.{KeysBelow, IsKeyed, change-none, find-KeysBelow}
use mbarara_auction.Models.Auctions.{Auction}
use mbarara_auction.Models.Bidding.{Bid, is_accepted}
use mbarara_auction.Notifications.Recipients.{accepted_on}
use mbarara_auction.Bidding.Queries.{highest_bid, highest_amount, minimum_permitted}

-- The largest accepted amount, as a plain recursion.
abbrev larger : ℕ → Option ℕ → Option ℕ
larger n none = some n
larger n (some m) = some (if ltb n m then m else n)

abbrev pub max_accepted : ℕ → List (ℕ × Bid) → Option ℕ
max_accepted k [] = none
max_accepted k ((key, b) ∷ rows) =
    let rest = max_accepted k rows in if accepted_on k (key, b) then larger b.amount rest else rest

-- The amount of the first accepted bid by falling amount and rising sequence number is the largest
-- amount of the auction's accepted bids, and there is none if there is no such bid.
pub highest_amount-eq-max :
    (k : ℕ) (rows : List (ℕ × Bid)) → highest_amount k rows ≡ max_accepted k rows
unfolding highest_amount highest_bid
highest_amount-eq-max k [] = refl
highest_amount-eq-max k ((key, b) ∷ rows) = ground (arith, highest_amount-eq-max k rows)

-- Every auction shows the amount of its highest accepted bid, and none if it has no such bid.
abbrev pub IsInSync : Table Auction → Table Bid → Type 0
IsInSync auctions bids =
    (k : ℕ) (a : Auction)
    → get k auctions ≡ some a
    → a.current_highest_bid ≡ highest_amount k bids.rows

-- A write that leaves `current_highest_bid` alone keeps the agreement.
pub modify-IsInSync :
    (j : ℕ) (f : Auction → Auction) (t : Table Auction) (bids : Table Bid)
    → ((a : Auction) → (f a).current_highest_bid ≡ a.current_highest_bid)
    → IsInSync t bids
    → IsInSync (modify j f t) bids
modify-IsInSync j f t bids same h k a found = elim (Option-cases (get k t)) [
  | inl missing ↦ absurd (ground (arith, get-modify j k f t))
  | inr (old, e) ↦ ground (arith, get-modify j k f t, h k old, same old)
]

-- What `minimum_permitted` asks is at least what the largest accepted bid has.
larger_of_minimum :
    (a : Auction) (highest : Option ℕ) (amount : ℕ)
    → a.current_highest_bid ≡ highest
    → minimum_permitted a ≤ amount
    → larger amount highest ≡ some amount
unfolding minimum_permitted
larger_of_minimum a none amount same enough = refl
larger_of_minimum a (some m) amount same enough = ground arith

highest_amount-create :
    (b : Bid) (t : Table Bid) (j : ℕ)
    → is_accepted b.status ≡ true
    → highest_amount j (create b t).rows ≡ (
        if b.auction == j
        then larger b.amount (highest_amount j t.rows)
        else highest_amount j t.rows)
unfolding create
highest_amount-create b t j h = simp highest_amount-eq-max (ground arith)

-- A new accepted bid of at least the minimum becomes the highest of its auction, and is not seen
-- from the others.
module _ (k : ℕ) {a : Auction} (b : Bid) (f : Auction → Auction) (t : Table Auction)
    (bids : Table Bid) (found : get k t ≡ some a) (its_auction : b.auction ≡ k)
    (accepted : is_accepted b.status ≡ true) (enough : minimum_permitted a ≤ b.amount)
    (writes : (x : Auction) → (f x).current_highest_bid ≡ some b.amount) where
  pub create-IsInSync : IsInSync t bids → IsInSync (modify k f t) (create b bids)
  create-IsInSync h j x e = elim (Option-cases (get j t)) [
    | inl missing ↦ absurd (ground (arith, get-modify k j f t))
    | inr (old, at_j) ↦ ground (
      arith,
      get-modify k j f t,
      highest_amount-create b bids j,
      h j old,
      writes old,
      larger_of_minimum old (highest_amount j bids.rows) b.amount,
    )
  ]

max_accepted_unseen :
    (j i : ℕ) (x : Bid) (rows : List (ℕ × Bid))
    → x.auction ≢ j
    → max_accepted j ((i, x) ∷ rows) ≡ max_accepted j rows
max_accepted_unseen j i x rows ne = ground arith

-- A change of one bid is not seen from the other auctions.
max_accepted-change :
    (j key n : ℕ) (f : Bid → Bid) (b : Bid) (rows : List (ℕ × Bid))
    → ((x : Bid) → (f x).auction ≡ x.auction)
    → KeysBelow rows n
    → find key rows ≡ some b
    → b.auction ≢ j
    → max_accepted j (change key f rows) ≡ max_accepted j rows
max_accepted-change j key n f b [] same keyed found ne = refl
max_accepted-change j key n f b ((i, x) ∷ rows) same keyed found ne = elim (Bool-cases (i == key)) [
  | inl hit ↦
      let x_is : x ≡ b = ground arith in
      let gone : find key rows ≡ none =
        find-KeysBelow key i rows keyed.1 (omega (arith, (==_iff i key).0 hit)) in
      rw hit (
        max_accepted_unseen j i (f x) (change key f rows)
          (λ p. ne (ap (λ (y : Bid). y.auction) (sym x_is) ∙ sym (same x) ∙ p))
        ∙ ap (max_accepted j) (change-none key f rows gone)
        ∙ sym
            (max_accepted_unseen j i x rows (λ p. ne (ap (λ (y : Bid). y.auction) (sym x_is) ∙ p))))
  | inr miss ↦ rw miss (
      ap (λ r. if accepted_on j (i, x) then larger x.amount r else r)
        (max_accepted-change j key i f b rows same keyed.1 (ground arith) ne))
]

pub highest_amount-change :
    (j key : ℕ) (f : Bid → Bid) (b : Bid) (t : Table Bid)
    → ((x : Bid) → (f x).auction ≡ x.auction)
    → IsKeyed t
    → get key t ≡ some b
    → b.auction ≢ j
    → highest_amount j (change key f t.rows) ≡ highest_amount j t.rows
unfolding get
highest_amount-change j key f b t same keyed found ne =
    simp highest_amount-eq-max (max_accepted-change j key t.next f b t.rows same keyed found ne)

-- A change of one bid, after which its auction's highest amount is found again.
module _ (k key : ℕ) (f : Bid → Bid) (b : Bid) (g : Auction → Auction) (t : Table Auction)
    (bids : Table Bid) (same : (x : Bid) → (f x).auction ≡ x.auction) (keyed : IsKeyed bids)
    (found : get key bids ≡ some b) (its_auction : b.auction ≡ k)
    (writes : (x : Auction)
      → (g x).current_highest_bid ≡ highest_amount k (change key f bids.rows)) where
  pub recompute-IsInSync : IsInSync t bids → IsInSync (modify k g t) (modify key f bids)
  unfolding modify
  recompute-IsInSync h j x e = elim (Option-cases (get j t)) [
    | inl missing ↦ absurd (ground (arith, get-modify k j g t))
    | inr (old, at_j) ↦ elim (Bool-cases (k == j)) [
      | inl hit ↦ ground (arith, get-modify k j g t, writes old)
      | inr miss ↦
          let ne : b.auction ≢ j = λ p. ground arith in
          let unseen = highest_amount-change j key f b bids same keyed found ne in
          ground (arith, get-modify k j g t, h j old)
    ]
  ]
