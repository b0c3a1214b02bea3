-- ===== src/Demo/Clear/Kept.antt =====
-- apps/core/management/commands/seed_demo.py: what deleting the demo data leaves.
use mbarara_auction.Prelude.{
  ℕ, ◌≡◌, refl, ◌∙◌, sym, String, Bool, false, ◌||◌, some, List, [], ◌∷◌, arith, ◌==◌, is_some, any,
  Bool-cases, ◌⊎◌, inl, inr,
}
use mbarara_auction.Table.{get, find}
use mbarara_auction.Models.{Db}
use mbarara_auction.Models.Accounts.{User, BidderProfile}
use mbarara_auction.Models.Auctions.{Auction}
use mbarara_auction.Models.Bidding.{Bid}
use mbarara_auction.Errors.{Error}
use mbarara_auction.Exec.{returned, raised}
use mbarara_auction.Demo.Clear.{
  without_rows, change_rows, has_name, is_demo_user, is_demo_seller, is_demo_bidder,
  is_demo_auction, auctions_protected, delete_auctions, users_protected, delete_users, clear,
}

module _ {A : Type 0} where
  any-without_rows : (p : ℕ × A → Bool) (rows : List (ℕ × A)) → any p (without_rows p rows) ≡ false
  any-without_rows p [] = refl
  any-without_rows p (row ∷ rows) = elim (Bool-cases (p row)) [
    | inl h ↦ rw h (any-without_rows p rows)
    | inr h ↦ rw h (rw h (any-without_rows p rows))
  ]

  any-find :
      (p : A → Bool) (k : ℕ) (a : A) (rows : List (ℕ × A))
      → find k rows ≡ some a
      → any (λ (r : ℕ × A). p r.1) rows ≡ false
      → p a ≡ false
  any-find p k a [] h none_left = ground arith
  any-find p k a ((j, b) ∷ rows) h none_left = ground (arith, any-find p k a rows)

  -- A row that is kept is found, maybe changed.
  is_some-find :
      (gone : ℕ × A → Bool) (f : A → A) (k : ℕ) (rows : List (ℕ × A))
      → ((j : ℕ) (a : A) → find k rows ≡ some a → gone (j, a) ≡ false)
      → is_some (find k (change_rows f (without_rows gone rows))) ≡ is_some (find k rows)
  is_some-find gone f k [] kept = refl
  is_some-find gone f k ((j, a) ∷ rows) kept = elim (Bool-cases (j == k)) [
    | inl here ↦ rw (kept j a (rw here refl), here) refl
    | inr there ↦ ground (arith, is_some-find gone f k rows)
  ]

or-false : (b c : Bool) → b || c ≡ false → (b ≡ false) × (c ≡ false)
or-false b c h = (ground arith, ground arith)

module _ (names : List String) (db : Db) where
  is_demo_seller-false :
      (k : ℕ) (a : Auction)
      → find k db.auctions.rows ≡ some a
      → is_demo_auction names db k ≡ false
      → is_demo_seller names db a.seller ≡ false
  unfolding get
  is_demo_seller-false k a h demo = sym (rw (h, is_demo_auction) refl) ∙ demo

  is_demo_user-false :
      (k : ℕ) (b : BidderProfile)
      → find k db.bidders.rows ≡ some b
      → is_demo_bidder names db k ≡ false
      → is_demo_user names db b.user ≡ false
  unfolding get
  is_demo_user-false k b h demo = sym (rw (h, is_demo_bidder) refl) ∙ demo

  -- what a clearing that was not refused leaves
  pub record Cleared (d : Db) : Type 0 where
    pub no_user : any (λ (r : ℕ × User). has_name names r.1) d.users.rows ≡ false
    pub keeps_auction :
        (k : ℕ) (b : Bid)
        → get k db.bids ≡ some b
        → is_some (get b.auction d.auctions) ≡ is_some (get b.auction db.auctions)
    pub keeps_bidder :
        (k : ℕ) (b : Bid)
        → get k db.bids ≡ some b
        → is_some (get b.bidder d.bidders) ≡ is_some (get b.bidder db.bidders)

  delete-Cleared :
      auctions_protected names db ≡ false
      → users_protected names (delete_auctions names db) ≡ false
      → Cleared (delete_users names (delete_auctions names db))
  unfolding get
  delete-Cleared free free_users =
      let no_bids = (or-false _ _ (or-false _ _ free).0).0 in
      let no_bidders = (or-false _ _ (or-false _ _ free_users).0).1 in
      record {
        no_user = any-without_rows (λ r. has_name names r.1) db.users.rows;
        keeps_auction = λ k b h. is_some-find _ _ b.auction db.auctions.rows (λ j a e.
            is_demo_seller-false b.auction a e (
              any-find (λ (x : Bid). is_demo_auction names db x.auction) k b db.bids.rows h
                no_bids));
        keeps_bidder = λ k b h. is_some-find _ _ b.bidder db.bidders.rows (λ j p e.
            is_demo_user-false b.bidder p e (
              any-find (λ (x : Bid). is_demo_bidder names db x.bidder) k b db.bids.rows h
                no_bidders));
      }

  -- Deleting the demo data either fails with a CommandError and changes nothing, or returns; then
  -- no account has a demo name, and every bid that there was has its auction and its bidder, if it
  -- had them before.
  pub clear-Cleared :
      (clear names db ≡ raised Error.command_error db)
      ⊎ ((d : Db) × (clear names db ≡ returned tt d) × Cleared d)
  unfolding clear
  clear-Cleared = elim (Bool-cases (auctions_protected names db)) [
    | inl protected ↦ inl (rw protected refl)
    | inr free ↦ elim (Bool-cases (users_protected names (delete_auctions names db))) [
      | inl protected ↦ inl (rw (free, protected) refl)
      | inr free_users ↦ inr (
        delete_users names (delete_auctions names db),
        rw (free, free_users) refl,
        delete-Cleared free free_users,
      )
    ]
  ]
