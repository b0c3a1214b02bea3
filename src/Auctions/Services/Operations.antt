-- ===== src/Auctions/Services/Operations.antt =====
-- apps/auctions/services.py: the operations built on `transition`.
use mbarara_auction.Prelude.{
  ℕ, ◌≤◌, ◌≡◌, refl, ap, ◌∙◌, ◌⊎◌, String, true, false, ◌&&◌, Option, some, arith, leb, inl, inr,
  Bool-cases,
}
use mbarara_auction.Table.{get}
use mbarara_auction.Models.{Db}
use mbarara_auction.Models.Auctions.{AuctionStatus, Auction, is_scheduled}
use mbarara_auction.Errors.{Error}
use mbarara_auction.Exec.{Result}
use mbarara_auction.Exec.Inversion.{continue-returned, returned-injective}
use mbarara_auction.Core.{Core, core}
use mbarara_auction.Auctions.Lifecycle.{is_allowed}
use mbarara_auction.Auctions.Services.{lock, with_status, transition, approve, activate_if_due}
use mbarara_auction.Auctions.Services.Transitions.{
  Moved, moved, get-moved, transition-Moved, transition-eq_returned,
}

abbrev auto_scheduled : String
auto_scheduled = "Auto-scheduled after approval"

-- approve of a SUBMITTED auction returns it as SCHEDULED, with two moves logged, by way of
-- APPROVED.
pub approve-eq_returned :
    (k : ℕ) (a : Auction) (actor : Option ℕ) (reason : String) (db : Db)
    → get k db.auctions ≡ some a
    → a.status ≡ AuctionStatus.submitted
    → (db' : Db) × (approve k actor reason db
        ≡ Result.returned (with_status AuctionStatus.scheduled db.clock a) db')
      × (core db'
          ≡ moved k
              (with_status AuctionStatus.approved db.clock a)
              AuctionStatus.scheduled
              actor
              auto_scheduled
              (moved k a AuctionStatus.approved actor reason (core db)))
unfolding approve is_allowed
approve-eq_returned k a actor reason db found submitted =
    let (d, e, c) =
      transition-eq_returned k a AuctionStatus.approved actor reason db found (rw submitted refl)
        refl in
    let a1 = with_status AuctionStatus.approved db.clock a in
    let found1 : get k d.auctions ≡ some a1 =
      ap (λ (x : Core). get k x.auctions) c
      ∙ get-moved k a AuctionStatus.approved actor reason (core db) found in
    let (db', e', c') =
      transition-eq_returned k a1 AuctionStatus.scheduled actor auto_scheduled d found1 refl refl in
    (
      db',
      rw e (
          e'
          ∙ ap (λ (x : Core). Result.returned (with_status AuctionStatus.scheduled x.clock a1) db')
              c),
      c' ∙ ap (moved k a1 AuctionStatus.scheduled actor auto_scheduled) c,
    )

-- approve of an auction that may not become APPROVED raises InvalidTransition and leaves the
-- database as it was.
pub approve-raises :
    (k : ℕ) (a : Auction) (actor : Option ℕ) (reason : String) (db : Db)
    → get k db.auctions ≡ some a
    → is_allowed a.status AuctionStatus.approved ≡ false
    → approve k actor reason db
      ≡ Result.raised (Error.invalid_transition a.status AuctionStatus.approved) db
unfolding approve transition lock
approve-raises k a actor reason db found refused = ground arith

-- The moves that approval consists of, when it returns.
pub approve-Moved :
    (k : ℕ) (actor : Option ℕ) (reason : String) (db : Db) {a' : Auction} {db' : Db}
    → approve k actor reason db ≡ Result.returned a' db'
    → (a1 : Auction) × (d : Db) × Moved k AuctionStatus.approved actor reason db a1 d
      × Moved k AuctionStatus.scheduled actor auto_scheduled d a' db'
unfolding approve
approve-Moved k actor reason db h =
    continue-returned _ (transition k AuctionStatus.approved actor reason db) h
      λ a1 d q h. (a1, d, transition-Moved k _ actor _ db q, transition-Moved k _ actor _ d h)

-- What is due moves to LIVE; anything else is handed back unchanged.
pub activate_if_due-Moved :
    (k : ℕ) (a : Auction) (actor : Option ℕ) (db : Db) {a' : Auction} {db' : Db}
    → activate_if_due k a actor db ≡ Result.returned a' db'
    → (Moved k AuctionStatus.live actor "Auto-activated: start_time reached" db a' db'
        × (is_scheduled a.status ≡ true)
        × (a.start_time ≤ db.clock))
      ⊎ ((db' ≡ db) × (a' ≡ a))
unfolding activate_if_due
activate_if_due-Moved k a actor db h =
    elim (Bool-cases (is_scheduled a.status && leb a.start_time db.clock)) [
      | inl due ↦ inl (transition-Moved k _ actor _ db (rw due at h), ground arith, ground arith)
      | inr early ↦ let (p, q) = returned-injective (rw early at h) in inr (q, p)
    ]
