-- ===== src/System/Invariants/Statuses.antt =====
-- apps/auctions/services.py: ALLOWED_TRANSITIONS, against the statuses of an auction along steps.
use mbarara_auction.Prelude.{
  ℕ, ◌≡◌, refl, sym, ap, subst, ◌∙◌, String, Bool, true, Option, some, arith, ◌==◌, ==_iff, inl,
  inr, Bool-cases,
}
use mbarara_auction.Table.{Table, get, modify, create, get-modify, get-create}
use mbarara_auction.Table.Keys.{IsKeyed, get-next}
use mbarara_auction.Models.Auctions.{AuctionStatus, Auction, is_live, is_closed}
use mbarara_auction.Core.{Core}
use mbarara_auction.Auctions.Lifecycle.{is_allowed}
use mbarara_auction.Auctions.Services.{with_status}
use mbarara_auction.Auctions.Services.Transitions.{moved}
use mbarara_auction.Bidding.Close.Outcome.{closed_row, decided, sold}
use mbarara_auction.Payments.Outcome.{Settled}
use mbarara_auction.Models.Disputes.{Dispute}
use mbarara_auction.Bidding.Close.{Decision, with_decision}
use mbarara_auction.Disputes.Access.{is_disputable}
use mbarara_auction.Disputes.Services.Results.{Refunds, Restored}
use mbarara_auction.System.Step.{Step}

-- A path of allowed transitions.
pub data Follows (s : AuctionStatus) : AuctionStatus → Type 0 where
  stay : Follows s s
  go : {t u : AuctionStatus} → Follows s t → is_allowed t u ≡ true → Follows s u

pub trans : {s t u : AuctionStatus} → Follows s t → Follows t u → Follows s u
trans f Follows.stay = f
trans f (Follows.go g h) = Follows.go (trans f g) h

-- Every auction is still there, and its status has followed a path.
pub record Kept (t u : Table Auction) : Type 0 where
  pub later :
      (k : ℕ) (a : Auction)
      → get k t ≡ some a
      → (a' : Auction) × (get k u ≡ some a') × Follows a.status a'.status

kept : {t : Table Auction} → Kept t t
kept = record { later = λ k a found. (a, found, Follows.stay) }

Kept-trans : {t u v : Table Auction} → Kept t u → Kept u v → Kept t v
Kept-trans f g = record {
  later = λ k a found.
      let (b, at_b, p) = f.later k a found in
      let (c, at_c, q) = g.later k b at_b in (c, at_c, trans p q);
}

Kept-modify :
    (k : ℕ) (a : Auction) (f : Auction → Auction) (t : Table Auction)
    → get k t ≡ some a
    → Follows a.status (f a).status
    → Kept t (modify k f t)
Kept-modify k a f t found path = record {
  later = λ j x at_j. elim (Bool-cases (k == j)) [
    | inl hit ↦
        let same : a ≡ x = ground (arith, (==_iff k j).0 hit) in
        (
          f x,
          ground (arith, get-modify k j f t),
          subst (λ (y : Auction). Follows y.status (f y).status) same path,
        )
    | inr miss ↦ (x, ground (arith, get-modify k j f t), Follows.stay)
  ];
}

Kept-status :
    (k : ℕ) (a : Auction) (to : AuctionStatus) (now : ℕ) (t : Table Auction)
    → get k t ≡ some a
    → is_allowed a.status to ≡ true
    → Kept t (modify k (with_status to now) t)
Kept-status k a to now t found allowed =
    Kept-modify k a (with_status to now) t found (Follows.go Follows.stay allowed)

live_closes : (s : AuctionStatus) → is_live s ≡ true → is_allowed s AuctionStatus.closed ≡ true
unfolding is_allowed
live_closes s h = ground arith

closed_settles :
    (s : AuctionStatus) → is_closed s ≡ true → is_allowed s AuctionStatus.settled ≡ true
unfolding is_allowed
closed_settles s h = ground arith

disputable_disputes :
    (s : AuctionStatus) → is_disputable s ≡ true → is_allowed s AuctionStatus.disputed ≡ true
unfolding is_allowed
disputable_disputes s h = ground arith

settling_allowed : is_allowed AuctionStatus.closed AuctionStatus.settled ≡ true
unfolding is_allowed
settling_allowed = refl

Kept-Settled :
    {k : ℕ} {actor : Option ℕ} {c c' : Core} → Settled k actor c c' → Kept c.auctions c'.auctions
Kept-Settled {k} {actor} {c} (Settled.settled a found closed e) =
    subst (λ (x : Core). Kept c.auctions x.auctions) (sym e)
      (Kept-status k a AuctionStatus.settled c.clock c.auctions found
        (closed_settles a.status closed))
Kept-Settled {c = c} (Settled.left_alone a found other e) =
    subst (λ (x : Core). Kept c.auctions x.auctions) (sym e) kept

pub Refunds-auctions :
    {k : ℕ} {actor : Option ℕ} {reason : String} {c c' : Core} {refund : Bool}
    → Refunds k actor reason c c' refund
    → c'.auctions ≡ c.auctions
Refunds-auctions (Refunds.no_refund not_asked e) = ap (λ (x : Core). x.auctions) e
Refunds-auctions (Refunds.refunds key p asked found paid e) = ap (λ (x : Core). x.auctions) e

Kept-Restored :
    {key : ℕ} {d : Dispute} {refund : Bool} {actor : Option ℕ} {c c' : Core}
    → Restored key d refund actor c c'
    → Kept c.auctions c'.auctions
Kept-Restored {key} {d} {actor = actor} {c} (Restored.to_closed a stays found allowed e) =
    subst (λ (x : Core). Kept c.auctions x.auctions) (sym e)
      (Kept-status d.auction a AuctionStatus.closed c.clock c.auctions found allowed)
Kept-Restored {key} {d} {actor = actor} {c} (Restored.to_settled a on found allowed e) =
    subst (λ (x : Core). Kept c.auctions x.auctions) (sym e)
      (Kept-trans (Kept-status d.auction a AuctionStatus.closed c.clock c.auctions found allowed) (
        Kept-status d.auction (with_status AuctionStatus.closed c.clock a) AuctionStatus.settled
          c.clock _
          (ground (
            arith,
            get-modify d.auction d.auction (with_status AuctionStatus.closed c.clock) c.auctions,
          ))
          settling_allowed))

Kept-create : (a : Auction) (t : Table Auction) → IsKeyed t → Kept t (create a t)
Kept-create a t keyed = record {
  later = λ k x found. elim (Bool-cases (t.next == k)) [
    | inl hit ↦ absurd (ground (arith, (==_iff t.next k).0 hit, get-next t keyed))
    | inr miss ↦ (x, ground (arith, get-create a k t), Follows.stay)
  ];
}

Kept-close :
    (k : ℕ) (a : Auction) (d : Decision) (actor : Option ℕ) (reason : String) (c : Core)
    → get k c.auctions ≡ some a
    → is_live a.status ≡ true
    → Kept c.auctions
        (sold k (closed_row d c.clock a) (
          moved k
            (with_decision d c.clock a)
            AuctionStatus.closed
            actor
            reason
            (decided k d c))).auctions
Kept-close k a d actor reason c found live =
    Kept-trans (Kept-modify k a (with_decision d c.clock) c.auctions found Follows.stay) (
      Kept-status k (with_decision d c.clock a) AuctionStatus.closed c.clock _
        (ground (arith, get-modify k k (with_decision d c.clock) c.auctions))
        (live_closes a.status live))

pub Step-Kept : {c d : Core} → Step c d → IsKeyed c.auctions → Kept c.auctions d.auctions
Step-Kept {c} (Step.move k a to actor reason found allowed plain) keyed =
    Kept-status k a to c.clock c.auctions found allowed
Step-Kept {c} (Step.bid k a bidder amount found live open_now enough positive) keyed =
    Kept-modify k a _ _ found Follows.stay
Step-Kept (Step.invalidate k a key b actor reason found at_key its reasoned) keyed =
    Kept-modify k a _ _ found Follows.stay
Step-Kept {c} (Step.close k a user_of actor reason found live) keyed =
    Kept-close k a _ actor reason c found live
Step-Kept (Step.schedule k a start end found may) keyed = Kept-modify k a _ _ found Follows.stay
Step-Kept (Step.pay key p actor method reference notes found pending s) keyed = Kept-Settled s
Step-Kept (Step.fail_payment key p actor reason found pending) keyed = kept
Step-Kept (Step.refund key p actor notes found paid) keyed = kept
Step-Kept {c} (Step.dispute k user a category description reason found disputable inactive) keyed =
    Kept-status k a AuctionStatus.disputed c.clock c.auctions found
      (disputable_disputes a.status disputable)
Step-Kept (Step.take key d actor found opened) keyed = kept
Step-Kept (Step.resolve key d actor outcome reason notes refund refunded restored found active r s)
      keyed =
    subst (λ t. Kept t restored.auctions) (Refunds-auctions r) (Kept-Restored s)
Step-Kept {c} (Step.list_auction a draft) keyed = Kept-create a c.auctions keyed
Step-Kept (Step.edit_listing k a a' found draft draft' same) keyed =
    Kept-modify k a _ _ found (subst (λ s. Follows a.status s) (draft ∙ sym draft') Follows.stay)
Step-Kept (Step.people users sellers bidders) keyed = kept
Step-Kept (Step.pass_time now later) keyed = kept
