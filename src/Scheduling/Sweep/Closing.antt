-- ===== src/Scheduling/Sweep/Closing.antt =====
-- apps/bidding/management/commands/close_ended_auctions.py: what the command does with auctions that
-- are past their end.
use mbarara_auction.Prelude.{
  ℕ, ◌+◌, ◌≤◌, ◌≡◌, refl, ap, subst, ◌∙◌, String, Bool, true, false, ◌&&◌, Option, none, some, List,
  [], ◌∷◌, arith, ◌==◌, ==_iff, leb, inl, inr, Bool-cases, select, length,
}
use mbarara_auction.Table.{Table, get, modify, find, filter, get-modify}
use mbarara_auction.Table.Keys.{IsKeyed, KeysBelow, find-KeysBelow}
use mbarara_auction.Models.{Db}
use mbarara_auction.Models.Auctions.{AuctionStatus, Auction, is_live}
use mbarara_auction.Exec.{returned}
use mbarara_auction.Core.{Core}
use mbarara_auction.Notifications.Recipients.{bidder_user}
use mbarara_auction.Auctions.Services.{with_status}
use mbarara_auction.Bidding.Queries.{highest_bid}
use mbarara_auction.Bidding.Close.{decide_winner, with_decision, close_auction}
use mbarara_auction.Bidding.Close.Outcome.{close_auction-eq_returned}
use mbarara_auction.Scheduling.Sweep.{
  close_each, due_to_close, close_ended_auctions, catches_nothing, automated,
}

-- One close: it returns, its auction is closed, and the other auctions are as they were.
record Closes (k : ℕ) (actor : Option ℕ) (reason : String) (db : Db) : Type 0 where
  pub row : Auction
  pub after : Db
  pub returns : close_auction k actor reason db ≡ returned row after
  pub closed_one : Auction
  pub at_key : get k after.auctions ≡ some closed_one
  pub closed : closed_one.status ≡ AuctionStatus.closed
  pub others : (j : ℕ) → (k == j) ≡ false → get j after.auctions ≡ get j db.auctions

close_auction-Closes :
    (k : ℕ) (a : Auction) (actor : Option ℕ) (reason : String) (db : Db)
    → get k db.auctions ≡ some a
    → is_live a.status ≡ true
    → Closes k actor reason db
close_auction-Closes k a actor reason db found live =
    let d = decide_winner a (highest_bid k db.bids.rows) (bidder_user db) in
    let f = with_decision d db.clock in
    let g = with_status AuctionStatus.closed db.clock in
    let (db', e, c) = close_auction-eq_returned k a actor reason db found live in
    let tables : db'.auctions ≡ modify k g (modify k f db.auctions) =
      ap (λ (x : Core). x.auctions) c in
    let at_k : get k (modify k g (modify k f db.auctions)) ≡ some (g (f a)) =
      ground (arith, get-modify k k g (modify k f db.auctions), get-modify k k f db.auctions) in
    record {
      row = _;
      after = db';
      returns = e;
      closed_one = g (f a);
      at_key = ap (get k) tables ∙ at_k;
      closed = refl;
      others = λ j miss.
          let same : get j (modify k g (modify k f db.auctions)) ≡ get j db.auctions =
            ground
              (arith, get-modify k j g (modify k f db.auctions), get-modify k j f db.auctions) in
          ap (get j) tables ∙ same;
    }

-- The rows of a query are in the table, and live.
abbrev AllLive : List (ℕ × Auction) → Table Auction → Type 0
AllLive [] t = Unit
AllLive ((k, a) ∷ due) t = ((get k t ≡ some a) × (is_live a.status ≡ true)) × AllLive due t

AllLive-others :
    (k n : ℕ) (due : List (ℕ × Auction)) (t u : Table Auction)
    → KeysBelow due n
    → n ≤ k
    → ((j : ℕ) → (k == j) ≡ false → get j u ≡ get j t)
    → AllLive due t
    → AllLive due u
AllLive-others k n [] t u below le same h = tt
AllLive-others k n ((i, a) ∷ due) t u below le same h =
    let miss : (k == i) ≡ false = ground (arith, below.0) in
    (
      (same i miss ∙ h.0.0, h.0.1),
      AllLive-others k i due t u below.1 (omega (arith, below.0)) same h.1,
    )

-- The loop returns, with the count of what it closed; the auctions of the list are closed, and those
-- with keys above the list are as they were.
record ClosesAll (n : ℕ) (due : List (ℕ × Auction)) (actor : Option ℕ) (reason : String) (count : ℕ)
    (db : Db) : Type 0 where
  pub after : Db
  pub returns :
      close_each catches_nothing actor reason due count db ≡ returned (count + length due) after
  pub closed :
      (j : ℕ) (a : Auction)
      → find j due ≡ some a
      → (a' : Auction) × (get j after.auctions ≡ some a') × (a'.status ≡ AuctionStatus.closed)
  pub others : (j : ℕ) → n ≤ j → get j after.auctions ≡ get j db.auctions

close_each-ClosesAll :
    (n : ℕ) (due : List (ℕ × Auction)) (actor : Option ℕ) (reason : String) (count : ℕ) (db : Db)
    → KeysBelow due n
    → AllLive due db.auctions
    → ClosesAll n due actor reason count db
unfolding close_each
close_each-ClosesAll n [] actor reason count db below live = record {
  after = db;
  returns = ap (λ m. returned m db) (omega arith);
  closed = λ j a e. absurd (ground arith);
  others = λ j le. refl;
}
close_each-ClosesAll n ((k, a) ∷ due) actor reason count db below live =
    let c = close_auction-Closes k a actor reason db live.0.0 live.0.1 in
    let rest =
      close_each-ClosesAll k due actor reason (count + 1) c.after below.1 (
        AllLive-others k k due db.auctions c.after.auctions below.1 (omega arith) c.others
          live.1) in
    record {
      after = rest.after;
      returns = rw (c.returns) (rest.returns ∙ ap (λ m. returned m rest.after) (omega arith));
      closed = λ j x e. elim (Bool-cases (k == j)) [
        | inl hit ↦
            let same : k ≡ j = (==_iff k j).0 hit in
            subst
              (λ i.
                (a' : Auction) × (get i rest.after.auctions ≡ some a')
                × (a'.status ≡ AuctionStatus.closed))
              same (c.closed_one, rest.others k (omega arith) ∙ c.at_key, c.closed)
        | inr miss ↦ rest.closed j x (ground arith)
      ];
      others = λ j le.
          let miss : (k == j) ≡ false = ground (arith, below.0) in
          rest.others j (omega (arith, below.0)) ∙ c.others j miss;
    }

module _ (p : Auction → Bool) where
  abbrev chosen : List (ℕ × Auction) → List (ℕ × Auction)
  chosen rows = select (λ r. p r.1) rows

  KeysBelow-weaken :
      (m n : ℕ) (rows : List (ℕ × Auction)) → KeysBelow rows m → m ≤ n → KeysBelow rows n
  KeysBelow-weaken m n [] h le = tt
  KeysBelow-weaken m n ((k, a) ∷ rows) h le = (omega (arith, h.0), h.1)

  KeysBelow-chosen :
      (n : ℕ) (rows : List (ℕ × Auction)) → KeysBelow rows n → KeysBelow (chosen rows) n
  KeysBelow-chosen n [] h = tt
  KeysBelow-chosen n ((k, a) ∷ rows) h = elim (Bool-cases (p a)) [
    | inl yes_p ↦ rw yes_p (h.0, KeysBelow-chosen k rows h.1)
    | inr no_p ↦
        rw no_p (KeysBelow-chosen n rows (KeysBelow-weaken k n rows h.1 (omega (arith, h.0))))
  ]

  find-chosen :
      (j n : ℕ) (a : Auction) (rows : List (ℕ × Auction))
      → KeysBelow rows n
      → find j rows ≡ some a
      → p a ≡ true
      → find j (chosen rows) ≡ some a
  find-chosen j n a [] h found is_p = found
  find-chosen j n a ((k, x) ∷ rows) h found is_p = ground (arith, find-chosen j k a rows h.1)

  AllLive-chosen :
      (n : ℕ) (rows : List (ℕ × Auction)) (t : Table Auction)
      → KeysBelow rows n
      → ((j : ℕ) (a : Auction) → find j rows ≡ some a → get j t ≡ some a)
      → ((a : Auction) → p a ≡ true → is_live a.status ≡ true)
      → AllLive (chosen rows) t
  AllLive-chosen n [] t h there lives = tt
  AllLive-chosen n ((k, x) ∷ rows) t h there lives =
      let rest : AllLive (chosen rows) t =
        AllLive-chosen k rows t h.1
          (λ j a e. there j a (elim (Bool-cases (leb k j)) [
            | inl above ↦ absurd (ground (arith, find-KeysBelow j k rows h.1))
            | inr below ↦ ground arith
          ]))
          lives in
      elim (Bool-cases (p x)) [
        | inl yes_p ↦ rw yes_p ((there k x (ground arith), lives x yes_p), rest)
        | inr no_p ↦ rw no_p rest
      ]

-- Let the auctions' keys be sound and let an auction be live with an end that is not in the
-- future. Then close_ended_auctions returns, its result is the number of auctions that were due,
-- and that auction is CLOSED.
pub close_ended_auctions-closed :
    (db : Db) (k : ℕ) (a : Auction)
    → IsKeyed db.auctions
    → get k db.auctions ≡ some a
    → is_live a.status ≡ true
    → a.end_time ≤ db.clock
    → (db' : Db) × (a' : Auction) × (close_ended_auctions db
        ≡ returned (length (due_to_close db)) db')
      × (get k db'.auctions ≡ some a')
      × (a'.status ≡ AuctionStatus.closed)
unfolding close_ended_auctions due_to_close filter get
close_ended_auctions-closed db k a keyed found live ended =
    let p = λ (x : Auction). is_live x.status && leb x.end_time db.clock in
    let n = db.auctions.next in
    let all =
      close_each-ClosesAll n (chosen p db.auctions.rows) none automated 0 db
        (KeysBelow-chosen p n db.auctions.rows keyed)
        (AllLive-chosen p n db.auctions.rows db.auctions keyed (λ j x e. e)
          (λ x h. ground arith)) in
    let (a', at_k, is_closed) =
      all.closed k a (find-chosen p k n a db.auctions.rows keyed found (ground arith)) in
    (all.after, a', all.returns ∙ ap (λ m. returned m all.after) (omega arith), at_k, is_closed)
