-- ===== src/System/Invariants/Reopened.antt =====
-- What a resolution does to the auctions.
use mbarara_auction.Prelude.{
  ℕ, ◌≡◌, refl, sym, subst, String, Bool, true, false, Option, some, arith, ◌==◌, inl, inr,
  Bool-cases, ◌⊎◌,
}
use mbarara_auction.Table.{get, get-modify}
use mbarara_auction.Models.Auctions.{AuctionStatus, Auction}
use mbarara_auction.Models.Disputes.{Dispute}
use mbarara_auction.Core.{Core}
use mbarara_auction.Auctions.Services.{with_status}
use mbarara_auction.Auctions.Services.Transitions.{moved}
use mbarara_auction.Disputes.Services.{resolved_reason}
use mbarara_auction.Disputes.Services.Results.{Restored}
use mbarara_auction.System.Invariants.Disputed.{is_disputed}

pub record Reopened (k : ℕ) (c c' : Core) : Type 0 where
  pub before : Auction
  pub at_key : get k c.auctions ≡ some before
  pub auctions :
      (j : ℕ) (x : Auction)
      → get j c'.auctions ≡ some x
      → (((k == j) ≡ true) × (is_disputed x.status ≡ false))
        ⊎ (((k == j) ≡ false) × (get j c.auctions ≡ some x))
  pub disputes : c'.disputes ≡ c.disputes

pub moved-Reopened :
    {c : Core} (k : ℕ) (a : Auction) (to : AuctionStatus) (actor : Option ℕ) (reason : String)
    → get k c.auctions ≡ some a
    → is_disputed to ≡ false
    → Reopened k c (moved k a to actor reason c)
moved-Reopened {c} k a to actor reason found other = record {
  before = a;
  at_key = found;
  auctions = λ j x e. elim (Bool-cases (k == j)) [
    | inl hit ↦ inl (hit, ground (arith, get-modify k j (with_status to c.clock) c.auctions))
    | inr miss ↦ inr (miss, ground (arith, get-modify k j (with_status to c.clock) c.auctions))
  ];
  disputes = refl;
}

pub again-Reopened :
    {c c' : Core} (k : ℕ) (a : Auction) (to : AuctionStatus) (actor : Option ℕ) (reason : String)
    → is_disputed to ≡ false
    → Reopened k c c'
    → Reopened k c (moved k a to actor reason c')
again-Reopened {c} {c'} k a to actor reason other r = record {
  before = r.before;
  at_key = r.at_key;
  auctions = λ j x e. elim (Bool-cases (k == j)) [
    | inl hit ↦ inl (hit, ground (arith, get-modify k j (with_status to c'.clock) c'.auctions))
    | inr miss ↦
        r.auctions j x (ground (arith, get-modify k j (with_status to c'.clock) c'.auctions))
  ];
  disputes = r.disputes;
}

pub Restored-Reopened :
    {key : ℕ} {d : Dispute} {refund : Bool} {actor : Option ℕ} {c c' : Core}
    → Restored key d refund actor c c'
    → Reopened d.auction c c'
Restored-Reopened {d = d} {actor = actor} {c} (Restored.to_closed a stays found allowed e) =
    subst (Reopened d.auction c) (sym e)
      (moved-Reopened d.auction a AuctionStatus.closed actor _ found refl)
Restored-Reopened {key} {d} {actor = actor} {c} (Restored.to_settled a on found allowed e) =
    subst (Reopened d.auction c) (sym e) (
      again-Reopened d.auction (with_status AuctionStatus.closed c.clock a) AuctionStatus.settled
        actor _ refl
        (moved-Reopened d.auction a AuctionStatus.closed actor (resolved_reason key) found refl))
