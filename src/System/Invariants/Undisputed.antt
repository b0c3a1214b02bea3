-- ===== src/System/Invariants/Undisputed.antt =====
-- Changes of auctions that have nothing to do with a dispute, and the count of active disputes.
use mbarara_auction.Prelude.{
  ℕ, ◌≡◌, refl, sym, subst, ◌∙◌, String, true, false, Option, some, arith, ◌==◌, ==_iff, inl, inr,
  Bool-cases, Option-cases,
}
use mbarara_auction.Table.{Table, get, modify, get-modify}
use mbarara_auction.Models.Auctions.{AuctionStatus, Auction, is_live, is_closed}
use mbarara_auction.Models.Bidding.{Bid}
use mbarara_auction.Models.Disputes.{Dispute}
use mbarara_auction.Core.{Core}
use mbarara_auction.Auctions.Lifecycle.{is_allowed}
use mbarara_auction.Auctions.Services.Transitions.{moved}
use mbarara_auction.Bidding.Queries.{highest_bid}
use mbarara_auction.Bidding.Close.{decide_winner, with_decision}
use mbarara_auction.Bidding.Close.Outcome.{decided}
use mbarara_auction.Payments.Outcome.{Settled}
use mbarara_auction.System.Step.{closed_core, is_plain}
use mbarara_auction.System.Invariants.Disputed.{is_disputed, IsDisputeKept}

pub record DisputeKept (c : Core) : Type 0 where
  pub agrees : IsDisputeKept c.auctions c.disputes

pub same_tables :
    {c d : Core} → d.auctions ≡ c.auctions → d.disputes ≡ c.disputes → DisputeKept c → DisputeKept d
same_tables p q s = record { agrees = rw (p, q) s.agrees }

pub modify-IsDisputeKept :
    (j : ℕ) (f : Auction → Auction) (t : Table Auction) (disputes : Table Dispute)
    → ((a : Auction) → get j t ≡ some a → is_disputed (f a).status ≡ is_disputed a.status)
    → IsDisputeKept t disputes
    → IsDisputeKept (modify j f t) disputes
modify-IsDisputeKept j f t disputes same h k a found = elim (Option-cases (get k t)) [
  | inl missing ↦ absurd (ground (arith, get-modify j k f t))
  | inr (old, e) ↦ elim (Bool-cases (j == k)) [
    | inl hit ↦ ground (arith, get-modify j k f t, h k old, same old, (==_iff j k).0 hit)
    | inr miss ↦ ground (arith, get-modify j k f t, h k old)
  ]
]

pub kept_status :
    {c d : Core} (j : ℕ) (f : Auction → Auction)
    → d.auctions ≡ modify j f c.auctions
    → d.disputes ≡ c.disputes
    → ((a : Auction) → get j c.auctions ≡ some a → is_disputed (f a).status ≡ is_disputed a.status)
    → DisputeKept c
    → DisputeKept d
kept_status {c} j f p q same s = record {
  agrees = rw (p, q) (modify-IsDisputeKept j f c.auctions c.disputes same s.agrees);
}

-- A move of an auction that is not disputed to another status than DISPUTED.
pub moved-DisputeKept :
    {c : Core} (k : ℕ) (a : Auction) (to : AuctionStatus) (actor : Option ℕ) (reason : String)
    → get k c.auctions ≡ some a
    → is_disputed a.status ≡ false
    → is_disputed to ≡ false
    → DisputeKept c
    → DisputeKept (moved k a to actor reason c)
moved-DisputeKept k a to actor reason found p q s =
    kept_status k _ refl refl (λ x e. q ∙ sym (ground arith)) s

pub plain_moves :
    (s t : AuctionStatus)
    → is_allowed s t ≡ true
    → is_plain t ≡ true
    → (is_disputed s ≡ false) × (is_disputed t ≡ false)
unfolding is_allowed
plain_moves s t allowed plain = (ground arith, ground arith)

pub live_is_undisputed : (s : AuctionStatus) → is_live s ≡ true → is_disputed s ≡ false
live_is_undisputed s h = ground arith

pub closed_is_undisputed : (s : AuctionStatus) → is_closed s ≡ true → is_disputed s ≡ false
closed_is_undisputed s h = ground arith

pub closed_core-DisputeKept :
    {c : Core} (k : ℕ) (a : Auction) (user_of : Bid → Option ℕ) (actor : Option ℕ) (reason : String)
    → get k c.auctions ≡ some a
    → is_live a.status ≡ true
    → DisputeKept c
    → DisputeKept (closed_core k a user_of actor reason c)
closed_core-DisputeKept {c} k a user_of actor reason found live s =
    let d = decide_winner a (highest_bid k c.bids.rows) user_of in
    let at_k : get k (decided k d c).auctions ≡ some (with_decision d c.clock a) =
      ground (arith, get-modify k k (with_decision d c.clock) c.auctions) in
    same_tables refl refl (
      moved-DisputeKept k (with_decision d c.clock a) AuctionStatus.closed actor reason at_k
        (live_is_undisputed a.status live) refl
        (kept_status {d = decided k d c} k (with_decision d c.clock) refl refl (λ x e. refl) s))

pub Settled-DisputeKept :
    {k : ℕ} {actor : Option ℕ} {c c' : Core} → Settled k actor c c' → DisputeKept c → DisputeKept c'
Settled-DisputeKept {k} {actor} (Settled.settled a found closed e) s = subst DisputeKept (sym e) (
    moved-DisputeKept k a AuctionStatus.settled actor _ found (closed_is_undisputed a.status closed)
      refl s)
Settled-DisputeKept (Settled.left_alone a found other e) s = subst DisputeKept (sym e) s
