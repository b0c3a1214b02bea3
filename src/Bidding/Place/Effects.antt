-- ===== src/Bidding/Place/Effects.antt =====
-- apps/bidding/services.py: what an accepted bid writes, table by table.
use mbarara_auction.Prelude.{
  ℕ, ◌≤◌, ◌<◌, ◌≡◌, ap, ◌∙◌, true, false, some, arith, any, Bool-cases, Option-cases, inl, inr,
}
use mbarara_auction.Table.{get, modify, create}
use mbarara_auction.Models.{Db}
use mbarara_auction.Models.Accounts.{User, BidderProfile, is_eligible_to_bid}
use mbarara_auction.Models.Auctions.{Auction, is_live, is_open_at}
use mbarara_auction.Models.Bidding.{Bid}
use mbarara_auction.Exec.{Result, pure, effect, ◌>>=◌, ◌>>◌}
use mbarara_auction.Exec.Inversion.{roll_back-returned, continue-reads, or_raise-returned}
use mbarara_auction.Notifications.Notify.{seller_user}
use mbarara_auction.Auctions.Services.{lock}
use mbarara_auction.Bidding.Amount.{ℤ, pos, RawAmount, validate_amount, at_least}
use mbarara_auction.Bidding.Queries.{next_sequence, bidder_profile, minimum_permitted, has_sequence}
use mbarara_auction.Bidding.Place.{
  is_extended, is_user, new_bid, with_bid, new_end, check_bid, insert_bid, after_bid, place_bid,
}

module _ (k : ℕ) (a : Auction) (user key : ℕ) (b : Bid) (db : Db) where
  pub auctions-after_bid :
      (after_bid k a user key b db).auctions
      ≡ modify k (with_bid b.amount (new_end a db.clock) db.clock) db.auctions
  unfolding after_bid
  auctions-after_bid = elim (Bool-cases (is_extended a db.clock)) [ inl e ↦ rw e | inr e ↦ rw e ]

  pub bids-after_bid : (after_bid k a user key b db).bids ≡ db.bids
  unfolding after_bid
  bids-after_bid = ground arith

-- What the checks of a bid establish.
pub record Checked (a : Auction) (user_key : ℕ) (user : User) (bidder amount : ℕ) (raw : ℤ)
    (db : Db) : Type 0 where
  pub live : is_live a.status ≡ true
  pub open_now : is_open_at a db.clock ≡ true
  pub profile : BidderProfile
  pub found : bidder_profile user_key db ≡ some (bidder, profile)
  pub eligible : is_eligible_to_bid profile user ≡ true
  pub not_seller : is_user user_key (seller_user db a) ≡ false
  pub amount_is : raw ≡ pos amount
  pub enough : minimum_permitted a ≤ amount

at_least_lem : (m : ℕ) (z : ℤ) (n : ℕ) → at_least m z ≡ some n → (z ≡ pos n) × (m ≤ n)
at_least_lem m z n h = ground arith

check_bid-Checked :
    (k : ℕ) (a : Auction) (user_key : ℕ) (user : User) (raw : ℤ) (db : Db) {bidder amount : ℕ}
    {db' : Db}
    → check_bid k a user_key user raw db ≡ Result.returned (bidder, amount) db'
    → Checked a user_key user bidder amount raw db × (db' ≡ db)
unfolding check_bid
check_bid-Checked k a user_key user raw db h = elim (Option-cases (bidder_profile user_key db)) [
  | inl missing ↦ ground arith
  | inr ((b, p), e) ↦ (
    record {
      live = ground arith;
      open_now = ground arith;
      profile = p;
      found = ground arith;
      eligible = ground arith;
      not_seller = ground arith;
      amount_is = ground (arith);
      enough = ground (arith);
    },
    ground arith,
  )
]

-- What an accepted bid rests on and what it has written.
pub record Placed (k user_key : ℕ) (user : User) (raw : RawAmount) (db : Db) (key : ℕ) (b : Bid)
    (db' : Db) : Type 0 where
  pub auction : Auction
  pub signed : ℤ
  pub bidder : ℕ
  pub amount : ℕ
  pub valid : validate_amount raw db ≡ Result.returned signed db
  pub at_key : get k db.auctions ≡ some auction
  pub checked : Checked auction user_key user bidder amount signed db
  pub bid_is : b ≡ new_bid k bidder amount (next_sequence k db.bids.rows) db.clock
  pub positive : 0 < amount
  pub fresh : any (has_sequence k (next_sequence k db.bids.rows)) db.bids.rows ≡ false
  pub key_is : key ≡ db.bids.next
  pub after :
      db' ≡ after_bid k auction user_key db.bids.next b (record db { bids = create b db.bids })

validate_amount-Db :
    (raw : RawAmount) (db : Db) {x : ℤ} {db' : Db}
    → validate_amount raw db ≡ Result.returned x db'
    → db' ≡ db
unfolding validate_amount
validate_amount-Db raw db h = ground arith

-- The end of `place_bid`, from the point where every check has passed.
abbrev finish : ℕ → Auction → ℕ → ℕ × ℕ → Db → Result (ℕ × Bid)
finish k a user_key (bidder, amount) db =
    let b = new_bid k bidder amount (next_sequence k db.bids.rows) db.clock in
    (do key ← insert_bid b; effect (after_bid k a user_key key b); pure (key, b)) db

finish-returned :
    (k : ℕ) (a : Auction) (user_key bidder amount : ℕ) (db : Db) {key : ℕ} {b : Bid} {db' : Db}
    → finish k a user_key (bidder, amount) db ≡ Result.returned (key, b) db'
    → (b ≡ new_bid k bidder amount (next_sequence k db.bids.rows) db.clock)
      × (0 < amount)
      × (any (has_sequence k (next_sequence k db.bids.rows)) db.bids.rows ≡ false)
      × (key ≡ db.bids.next)
      × (db' ≡ after_bid k a user_key db.bids.next b (record db { bids = create b db.bids }))
unfolding insert_bid
finish-returned k a user_key bidder amount db h = ground arith

-- If place_bid returns, the amount was valid and at least the minimum, the auction was live and
-- open, the bidder eligible and not the seller, and the database is the old one with the new bid
-- and what follows a bid.
pub place_bid-Placed :
    (k user_key : ℕ) (user : User) (raw : RawAmount) (db : Db) {key : ℕ} {b : Bid} {db' : Db}
    → place_bid k user_key user raw db ≡ Result.returned (key, b) db'
    → Placed k user_key user raw db key b db'
unfolding place_bid lock
place_bid-Placed k user_key user raw db h =
    continue-reads _ (validate_amount raw db) (λ a d. validate_amount-Db raw db)
      (roll_back-returned db _ h)
      λ x valid h. or_raise-returned _ _ (get k db.auctions) h λ a found h.
        continue-reads _ (check_bid k a user_key user x db)
          (λ r d q. (check_bid-Checked k a user_key user x db q).1) h
          λ r checks h.
            let w = finish-returned k a user_key r.0 r.1 db h in
            record {
              auction = a;
              signed = x;
              bidder = r.0;
              amount = r.1;
              valid = valid;
              at_key = found;
              checked = (check_bid-Checked k a user_key user x db checks).0;
              bid_is = w.0;
              positive = w.1;
              fresh = w.2;
              key_is = w.3;
              after = w.4;
            }

module _ {k user_key : ℕ} {user : User} {raw : RawAmount} {db : Db} {key : ℕ} {b : Bid} {db' : Db}
    (p : Placed k user_key user raw db key b db') where
  pub auctions-Placed :
      db'.auctions ≡ modify k (with_bid p.amount (new_end p.auction db.clock) db.clock) db.auctions
  auctions-Placed =
      ap (λ (d : Db). d.auctions) p.after
      ∙ auctions-after_bid k p.auction user_key db.bids.next b
          (record db { bids = create b db.bids })
      ∙ ap
          (λ (x : Bid).
            modify k (with_bid x.amount (new_end p.auction db.clock) db.clock) db.auctions)
          p.bid_is

  pub bids-Placed : db'.bids ≡ create b db.bids
  bids-Placed =
      ap (λ (d : Db). d.bids) p.after
      ∙ bids-after_bid k p.auction user_key db.bids.next b (record db { bids = create b db.bids })
