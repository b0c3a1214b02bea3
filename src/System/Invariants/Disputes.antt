-- ===== src/System/Invariants/Disputes.antt =====
-- DISPUTED auctions and active disputes, over one step and over many.
use mbarara_auction.Prelude.{
  ℕ, ◌≡◌, refl, sym, ap, subst, ◌∙◌, String, Bool, true, false, Option, some, arith, ◌==◌, ==_iff,
  inl, inr, Bool-cases, Option-cases, any,
}
use mbarara_auction.Table.{Table, get, modify, create, change, get-modify, get-create}
use mbarara_auction.Table.Keys.{IsKeyed}
use mbarara_auction.Models.Auctions.{AuctionStatus, Auction}
use mbarara_auction.Models.Disputes.{Category, Outcome, Dispute, is_active, is_open}
use mbarara_auction.Core.{Core}
use mbarara_auction.Auctions.Services.{with_status}
use mbarara_auction.Auctions.Services.Transitions.{moved}
use mbarara_auction.Disputes.Access.{is_active_on}
use mbarara_auction.Disputes.Services.{new_dispute, as_taken, as_resolved}
use mbarara_auction.Disputes.Services.Results.{Refunds, resolved_core}
use mbarara_auction.Disputes.Services.Opening.{disputed_core, taken}
use mbarara_auction.System.Step.{Step, Steps}
use mbarara_auction.System.Invariants.Keys.{Steps-IsSound}
use mbarara_auction.System.Invariants.Sound.{IsSound}
use mbarara_auction.System.Invariants.Disputed.{
  active_count, IsDisputeKept, active_count-none, active_count-RefersBelow, active_count-change,
}
use mbarara_auction.System.Invariants.Reopened.{Reopened, Restored-Reopened}
use mbarara_auction.System.Invariants.Undisputed.{
  DisputeKept, same_tables, kept_status, moved-DisputeKept, plain_moves, closed_core-DisputeKept,
  Settled-DisputeKept,
}

-- The first dispute: its auction was not disputed, and now is.
opened-DisputeKept :
    {c : Core} (k user : ℕ) (a : Auction) (category : Category) (description reason : String)
    → any (is_active_on k) c.disputes.rows ≡ false
    → DisputeKept c
    → DisputeKept (
        moved k a AuctionStatus.disputed
          (some user)
          reason
          (disputed_core (new_dispute k user category description a.status c.clock) c))
unfolding create
opened-DisputeKept {c} k user a category description reason inactive s = record {
  agrees = λ j x found. elim (Option-cases (get j c.auctions)) [
    | inl missing ↦
        absurd
          (ground (arith, get-modify k j (with_status AuctionStatus.disputed c.clock) c.auctions))
    | inr (old, e) ↦ elim (Bool-cases (k == j)) [
      | inl hit ↦ ground (
        arith,
        get-modify k j (with_status AuctionStatus.disputed c.clock) c.auctions,
        active_count-none k c.disputes.rows,
        (==_iff k j).0 hit,
      )
      | inr miss ↦ ground (
        arith,
        get-modify k j (with_status AuctionStatus.disputed c.clock) c.auctions,
        s.agrees j old,
      )
    ]
  ];
}

-- An open dispute that is taken for review is active before and after.
taken-DisputeKept :
    {c : Core} (key : ℕ) (d : Dispute) (actor : Option ℕ)
    → IsSound c
    → get key c.disputes ≡ some d
    → is_open d.status ≡ true
    → DisputeKept c
    → DisputeKept (taken key actor c)
unfolding get modify
taken-DisputeKept {c} key d actor sound found opened s = record {
  agrees = λ j x at_j.
      let same =
        active_count-change j key c.disputes.next (as_taken actor c.clock) d c.disputes.rows
          sound.disputes_keyed found in
      ground (arith, s.agrees j x);
}

Refunds-DisputeKept :
    {k : ℕ} {actor : Option ℕ} {reason : String} {c c' : Core} {refund : Bool}
    → Refunds k actor reason c c' refund
    → DisputeKept c × IsSound c
    → DisputeKept c' × (c'.disputes ≡ c.disputes)
Refunds-DisputeKept (Refunds.no_refund not_asked e) (s, sound) =
    (subst DisputeKept (sym e) s, ap (λ (x : Core). x.disputes) e)
Refunds-DisputeKept (Refunds.refunds key p asked found paid e) (s, sound) =
    (subst DisputeKept (sym e) (same_tables refl refl s), ap (λ (x : Core). x.disputes) e)

-- The only active dispute is resolved, and its auction leaves DISPUTED.
resolved-DisputeKept :
    {c c' : Core} (key : ℕ) (d : Dispute) (actor : Option ℕ) (outcome : Outcome) (notes : String)
    (refund : Bool)
    → IsKeyed c.disputes
    → get key c.disputes ≡ some d
    → is_active d.status ≡ true
    → Reopened d.auction c c'
    → DisputeKept c
    → DisputeKept (resolved_core key actor outcome notes refund c')
unfolding get modify
resolved-DisputeKept {c} {c'} key d actor outcome notes refund keyed found active r s = record {
  agrees = λ j x at_j.
      let f = as_resolved actor outcome notes refund c'.clock in
      let count = active_count-change j key c.disputes.next f d c.disputes.rows keyed found in
      let before = s.agrees d.auction r.before r.at_key in
      let rows = ap (λ (t : Table Dispute). active_count j (change key f t.rows)) r.disputes in
      rows ∙ elim (r.auctions j x at_j) [
        | inl (hit, closed) ↦ ground (arith, (==_iff d.auction j).0 hit)
        | inr (miss, at_j') ↦ ground (arith, s.agrees j x)
      ];
}

new-DisputeKept :
    (c : Core) (a : Auction)
    → IsSound c
    → a.status ≡ AuctionStatus.draft
    → DisputeKept c
    → DisputeKept (record c { auctions = create a c.auctions })
new-DisputeKept c a sound draft s = record {
  agrees = λ k x found. elim (Bool-cases (c.auctions.next == k)) [
    | inl hit ↦ ground (
      arith,
      get-create a k c.auctions,
      (==_iff c.auctions.next k).0 hit,
      active_count-RefersBelow c.auctions.next c.disputes.rows sound.disputes_known,
    )
    | inr miss ↦ ground (arith, get-create a k c.auctions, s.agrees k x)
  ];
}

Step-DisputeKept : {c d : Core} → Step c d → IsSound c → DisputeKept c → DisputeKept d
Step-DisputeKept (Step.move k a to actor reason found allowed plain) sound s =
    let (p, q) = plain_moves a.status to allowed plain in
    moved-DisputeKept k a to actor reason found p q s
Step-DisputeKept (Step.bid k a bidder amount found live open_now enough positive) sound s =
    kept_status k _ refl refl (λ x e. refl) s
Step-DisputeKept (Step.invalidate k a key b actor reason found at_key its reasoned) sound s =
    kept_status k _ refl refl (λ x e. refl) s
Step-DisputeKept (Step.close k a user_of actor reason found live) sound s =
    closed_core-DisputeKept k a user_of actor reason found live s
Step-DisputeKept (Step.schedule k a start end found may) sound s =
    kept_status k _ refl refl (λ x e. refl) s
Step-DisputeKept (Step.pay key p actor method reference notes found pending w) sound s =
    Settled-DisputeKept w (same_tables refl refl s)
Step-DisputeKept (Step.fail_payment key p actor reason found pending) sound s =
    same_tables refl refl s
Step-DisputeKept (Step.refund key p actor notes found paid) sound s = same_tables refl refl s
Step-DisputeKept (Step.dispute k user a category description reason found disputable inactive) sound
      s =
    opened-DisputeKept k user a category description reason inactive s
Step-DisputeKept (Step.take key d actor found opened) sound s =
    taken-DisputeKept key d actor sound found opened s
Step-DisputeKept
      (Step.resolve key d actor outcome reason notes refund refunded restored found active r w)
      sound s =
    let (s', same) = Refunds-DisputeKept r (s, sound) in
    resolved-DisputeKept key d actor outcome notes refund
      (subst IsKeyed (sym same) sound.disputes_keyed) (ap (get key) same ∙ found) active
      (Restored-Reopened w) s'
Step-DisputeKept {c} (Step.list_auction a draft) sound s = new-DisputeKept c a sound draft.draft s
Step-DisputeKept (Step.edit_listing k a a' found draft draft' same) sound s =
    kept_status k _ refl refl (λ x e. ground arith) s
Step-DisputeKept (Step.people users sellers bidders) sound s = same_tables refl refl s
Step-DisputeKept (Step.pass_time now later) sound s = same_tables refl refl s

Steps-DisputeKept : {c d : Core} → Steps c d → IsSound c → DisputeKept c → DisputeKept d
Steps-DisputeKept Steps.here sound s = s
Steps-DisputeKept (Steps.then t u) sound s =
    Step-DisputeKept u (Steps-IsSound t sound) (Steps-DisputeKept t sound s)

-- Let the number of active disputes about every auction be one if the auction is DISPUTED and zero
-- if not, in tables whose keys are sound. Then it is so after any sequence of steps of the
-- platform.
pub Steps-IsDisputeKept :
    {c d : Core}
    → Steps c d
    → IsSound c
    → IsDisputeKept c.auctions c.disputes
    → IsDisputeKept d.auctions d.disputes
Steps-IsDisputeKept steps sound h = (Steps-DisputeKept steps sound (record { agrees = h })).agrees
