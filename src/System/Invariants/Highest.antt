-- ===== src/System/Invariants/Highest.antt =====
-- `Auction.current_highest_bid` and the bids, over any sequence of steps.
use mbarara_auction.Prelude.{
  ℕ, ◌≡◌, refl, sym, subst, String, Bool, Option, none, some, List, [], ◌∷◌, arith, ◌==◌, ==_iff,
  inl, inr, Bool-cases,
}
use mbarara_auction.Table.{get, modify, create, get-modify, get-create}
use mbarara_auction.Table.References.{RefersBelow}
use mbarara_auction.Models.Auctions.{AuctionStatus, Auction}
use mbarara_auction.Models.Bidding.{Bid}
use mbarara_auction.Models.Disputes.{Dispute}
use mbarara_auction.Core.{Core}
use mbarara_auction.Auctions.Services.Transitions.{moved}
use mbarara_auction.Bidding.Close.{decide_winner, with_decision}
use mbarara_auction.Bidding.Close.Outcome.{decided}
use mbarara_auction.Payments.Outcome.{Settled}
use mbarara_auction.Bidding.Queries.{highest_bid}
use mbarara_auction.Bidding.Place.{with_bid, new_end}
use mbarara_auction.Bidding.Invalidate.{as_invalidated}
use mbarara_auction.Bidding.Highest.{
  IsInSync, modify-IsInSync, create-IsInSync, recompute-IsInSync, max_accepted,
  highest_amount-eq-max,
}
use mbarara_auction.Disputes.Services.{resolved_reason}
use mbarara_auction.Disputes.Services.Results.{Refunds, Restored}
use mbarara_auction.System.Step.{Step, Steps, closed_core}
use mbarara_auction.System.Invariants.Keys.{Steps-IsSound}
use mbarara_auction.System.Invariants.Sound.{IsSound}

record InSync (c : Core) : Type 0 where
  pub agrees : IsInSync c.auctions c.bids

same_tables : {c d : Core} → d.auctions ≡ c.auctions → d.bids ≡ c.bids → InSync c → InSync d
same_tables p q s = record { agrees = rw (p, q) s.agrees }

kept_highest :
    {c d : Core} (j : ℕ) (f : Auction → Auction)
    → d.auctions ≡ modify j f c.auctions
    → d.bids ≡ c.bids
    → ((a : Auction) → (f a).current_highest_bid ≡ a.current_highest_bid)
    → InSync c
    → InSync d
kept_highest {c} j f p q same s = record {
  agrees = rw (p, q) (modify-IsInSync j f c.auctions c.bids same s.agrees);
}

moved-InSync :
    {c : Core} (k : ℕ) (a : Auction) (to : AuctionStatus) (actor : Option ℕ) (reason : String)
    → InSync c
    → InSync (moved k a to actor reason c)
moved-InSync k a to actor reason s = kept_highest k _ refl refl (λ x. refl) s

Settled-InSync :
    {k : ℕ} {actor : Option ℕ} {c c' : Core} → Settled k actor c c' → InSync c → InSync c'
Settled-InSync {k} {actor} (Settled.settled a found closed e) s =
    subst InSync (sym e) (moved-InSync k a _ actor _ s)
Settled-InSync (Settled.left_alone a found other e) s = subst InSync (sym e) s

Refunds-InSync :
    {k : ℕ} {actor : Option ℕ} {reason : String} {c c' : Core} {refund : Bool}
    → Refunds k actor reason c c' refund
    → InSync c
    → InSync c'
Refunds-InSync (Refunds.no_refund not_asked e) s = subst InSync (sym e) s
Refunds-InSync (Refunds.refunds key p asked found paid e) s =
    subst InSync (sym e) (same_tables refl refl s)

Restored-InSync :
    {key : ℕ} {d : Dispute} {refund : Bool} {actor : Option ℕ} {c c' : Core}
    → Restored key d refund actor c c'
    → InSync c
    → InSync c'
Restored-InSync {d = d} (Restored.to_closed a stays found allowed e) s =
    subst InSync (sym e) (kept_highest d.auction _ refl refl (λ x. refl) s)
Restored-InSync {key} {d} {actor = actor} {c} (Restored.to_settled a on found allowed e) s =
    subst InSync (sym e) (
      kept_highest d.auction _ refl refl (λ x. refl)
        (moved-InSync d.auction a AuctionStatus.closed actor (resolved_reason key) s))

max_accepted-RefersBelow :
    (k : ℕ) (rows : List (ℕ × Bid))
    → RefersBelow (λ (b : Bid). b.auction) rows k
    → max_accepted k rows ≡ none
max_accepted-RefersBelow k [] known = refl
max_accepted-RefersBelow k ((i, b) ∷ rows) known =
    ground (arith, known.0, max_accepted-RefersBelow k rows known.1)

new-InSync :
    (c : Core) (a : Auction)
    → IsSound c
    → a.current_highest_bid ≡ none
    → InSync c
    → InSync (record c { auctions = create a c.auctions })
new-InSync c a sound no_bid s = record {
  agrees = λ k x found. elim (Bool-cases (c.auctions.next == k)) [
    | inl hit ↦ ground (
      arith,
      get-create a k c.auctions,
      (==_iff c.auctions.next k).0 hit,
      highest_amount-eq-max k c.bids.rows,
      max_accepted-RefersBelow c.auctions.next c.bids.rows sound.bids_known,
    )
    | inr miss ↦ ground (arith, get-create a k c.auctions, s.agrees k x)
  ];
}

-- An edit of a listing leaves the stored highest bid alone.
edited-InSync :
    (c : Core) (k : ℕ) (a a' : Auction)
    → get k c.auctions ≡ some a
    → a'.current_highest_bid ≡ a.current_highest_bid
    → InSync c
    → InSync (record c { auctions = modify k (λ _. a') c.auctions })
edited-InSync c k a a' found same s = record {
  agrees = λ j x at_j. elim (Bool-cases (k == j)) [
    | inl hit ↦
        ground (arith, get-modify k j (λ _. a') c.auctions, s.agrees k a found, (==_iff k j).0 hit)
    | inr miss ↦ ground (arith, get-modify k j (λ _. a') c.auctions, s.agrees j x)
  ];
}

closed_core-InSync :
    {c : Core} (k : ℕ) (a : Auction) (user_of : Bid → Option ℕ) (actor : Option ℕ) (reason : String)
    → InSync c
    → InSync (closed_core k a user_of actor reason c)
closed_core-InSync {c} k a user_of actor reason s =
    let d = decide_winner a (highest_bid k c.bids.rows) user_of in
    same_tables refl refl (
      moved-InSync k (with_decision d c.clock a) AuctionStatus.closed actor reason
        (kept_highest {d = decided k d c} k (with_decision d c.clock) refl refl (λ x. refl) s))

Step-InSync : {c d : Core} → Step c d → IsSound c → InSync c → InSync d
Step-InSync (Step.move k a to actor reason found allowed plain) sound s =
    moved-InSync k a to actor reason s
Step-InSync {c} (Step.bid k a bidder amount found live open_now enough positive) sound s = record {
  agrees =
      create-IsInSync k _ (with_bid amount (new_end a c.clock) c.clock) c.auctions c.bids found refl
        refl enough (λ x. refl) s.agrees;
}
Step-InSync {c} (Step.invalidate k a key b actor reason found at_key its reasoned) sound s =
    record {
      agrees =
          recompute-IsInSync k key (as_invalidated actor reason c.clock) b _ c.auctions c.bids
            (λ x. refl) sound.bids_keyed at_key its (λ x. refl) s.agrees;
    }
Step-InSync (Step.close k a user_of actor reason found live) sound s =
    closed_core-InSync k a user_of actor reason s
Step-InSync (Step.schedule k a start end found may) sound s =
    kept_highest k _ refl refl (λ x. refl) s
Step-InSync (Step.pay key p actor method reference notes found pending w) sound s =
    Settled-InSync w (same_tables refl refl s)
Step-InSync (Step.fail_payment key p actor reason found pending) sound s = same_tables refl refl s
Step-InSync (Step.refund key p actor notes found paid) sound s = same_tables refl refl s
Step-InSync (Step.dispute k user a category description reason found disputable inactive) sound s =
    moved-InSync k a AuctionStatus.disputed (some user) reason (same_tables refl refl s)
Step-InSync (Step.take key d actor found opened) sound s = same_tables refl refl s
Step-InSync
      (Step.resolve key d actor outcome reason notes refund refunded restored found active r w)
      sound s =
    same_tables refl refl (Restored-InSync w (Refunds-InSync r s))
Step-InSync {c} (Step.list_auction a draft) sound s = new-InSync c a sound draft.no_bid s
Step-InSync {c} (Step.edit_listing k a a' found draft draft' same) sound s =
    edited-InSync c k a a' found same s
Step-InSync (Step.people users sellers bidders) sound s = same_tables refl refl s
Step-InSync (Step.pass_time now later) sound s = same_tables refl refl s

Steps-InSync : {c d : Core} → Steps c d → IsSound c → InSync c → InSync d
Steps-InSync Steps.here sound s = s
Steps-InSync (Steps.then t u) sound s =
    Step-InSync u (Steps-IsSound t sound) (Steps-InSync t sound s)

-- Let the stored highest bid of every auction be the largest amount of its accepted bids, in
-- tables whose keys are sound. Then it is so after any sequence of steps of the platform.
pub Steps-IsInSync :
    {c d : Core} → Steps c d → IsSound c → IsInSync c.auctions c.bids → IsInSync d.auctions d.bids
Steps-IsInSync steps sound h = (Steps-InSync steps sound (record { agrees = h })).agrees
