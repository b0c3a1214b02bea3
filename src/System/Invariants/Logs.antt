-- ===== src/System/Invariants/Logs.antt =====
-- The log of transitions that `transition` of apps/auctions/services.py writes, against the status of
-- each auction.
use mbarara_auction.Prelude.{
  ℕ, ◌≡◌, refl, sym, subst, String, Bool, Option, some, List, [], ◌∷◌, arith, ◌==◌, ==_iff,
  if◌then◌else◌, inl, inr, Bool-cases, Option-cases,
}
use mbarara_auction.Table.{Table, get, modify, create, get-modify, get-create}
use mbarara_auction.Table.References.{RefersBelow}
use mbarara_auction.Models.Auctions.{AuctionStatus, Auction, AuctionStatusLog}
use mbarara_auction.Models.Bidding.{Bid}
use mbarara_auction.Models.Disputes.{Dispute}
use mbarara_auction.Core.{Core}
use mbarara_auction.Auctions.Services.{with_status}
use mbarara_auction.Auctions.Services.Transitions.{moved}
use mbarara_auction.Bidding.Queries.{highest_bid}
use mbarara_auction.Bidding.Close.{decide_winner, with_decision}
use mbarara_auction.Bidding.Close.Outcome.{decided}
use mbarara_auction.Payments.Outcome.{Settled}
use mbarara_auction.Disputes.Services.Results.{Refunds, Restored}
use mbarara_auction.System.Step.{Step, Steps, closed_core}
use mbarara_auction.System.Invariants.Keys.{Steps-IsSound}
use mbarara_auction.System.Invariants.Sound.{IsSound}

-- The status that an auction has according to its newest log row, DRAFT if it has none.
abbrev pub logged_status : ℕ → List (ℕ × AuctionStatusLog) → AuctionStatus
logged_status k [] = AuctionStatus.draft
logged_status k ((_, l) ∷ rows) = if l.auction == k then l.to_status else logged_status k rows

abbrev pub IsLogged : Table Auction → Table AuctionStatusLog → Type 0
IsLogged auctions logs =
    (k : ℕ) (a : Auction) → get k auctions ≡ some a → a.status ≡ logged_status k logs.rows

record Logged (c : Core) : Type 0 where
  pub agrees : IsLogged c.auctions c.status_logs

modify-IsLogged :
    (j : ℕ) (f : Auction → Auction) (t : Table Auction) (logs : Table AuctionStatusLog)
    → ((a : Auction) → get j t ≡ some a → (f a).status ≡ a.status)
    → IsLogged t logs
    → IsLogged (modify j f t) logs
modify-IsLogged j f t logs same h k a found = elim (Option-cases (get k t)) [
  | inl missing ↦ absurd (ground (arith, get-modify j k f t))
  | inr (old, e) ↦ elim (Bool-cases (j == k)) [
    | inl hit ↦ ground (arith, get-modify j k f t, h k old, same old, (==_iff j k).0 hit)
    | inr miss ↦ ground (arith, get-modify j k f t, h k old)
  ]
]

moved-Logged :
    {c : Core} (k : ℕ) (a : Auction) (to : AuctionStatus) (actor : Option ℕ) (reason : String)
    → Logged c
    → Logged (moved k a to actor reason c)
unfolding create
moved-Logged {c} k a to actor reason s = record {
  agrees = λ j x found. elim (Option-cases (get j c.auctions)) [
    | inl missing ↦ absurd (ground (arith, get-modify k j (with_status to c.clock) c.auctions))
    | inr (old, e) ↦
        ground (arith, get-modify k j (with_status to c.clock) c.auctions, s.agrees j old)
  ];
}

same_tables :
    {c d : Core} → d.auctions ≡ c.auctions → d.status_logs ≡ c.status_logs → Logged c → Logged d
same_tables p q s = record { agrees = rw (p, q) s.agrees }

kept_status :
    {c d : Core} (j : ℕ) (f : Auction → Auction)
    → d.auctions ≡ modify j f c.auctions
    → d.status_logs ≡ c.status_logs
    → ((a : Auction) → get j c.auctions ≡ some a → (f a).status ≡ a.status)
    → Logged c
    → Logged d
kept_status {c} j f p q same s = record {
  agrees = rw (p, q) (modify-IsLogged j f c.auctions c.status_logs same s.agrees);
}

logged_status-RefersBelow :
    (k : ℕ) (rows : List (ℕ × AuctionStatusLog))
    → RefersBelow (λ (l : AuctionStatusLog). l.auction) rows k
    → logged_status k rows ≡ AuctionStatus.draft
logged_status-RefersBelow k [] known = refl
logged_status-RefersBelow k ((i, l) ∷ rows) known =
    ground (arith, known.0, logged_status-RefersBelow k rows known.1)

Settled-Logged :
    {k : ℕ} {actor : Option ℕ} {c c' : Core} → Settled k actor c c' → Logged c → Logged c'
Settled-Logged {k} {actor} (Settled.settled a found closed e) s =
    subst Logged (sym e) (moved-Logged k a _ actor _ s)
Settled-Logged (Settled.left_alone a found other e) s = subst Logged (sym e) s

Refunds-Logged :
    {k : ℕ} {actor : Option ℕ} {reason : String} {c c' : Core} {refund : Bool}
    → Refunds k actor reason c c' refund
    → Logged c
    → Logged c'
Refunds-Logged (Refunds.no_refund not_asked e) s = subst Logged (sym e) s
Refunds-Logged (Refunds.refunds key p asked found paid e) s =
    subst Logged (sym e) (same_tables refl refl s)

Restored-Logged :
    {key : ℕ} {d : Dispute} {refund : Bool} {actor : Option ℕ} {c c' : Core}
    → Restored key d refund actor c c'
    → Logged c
    → Logged c'
Restored-Logged {d = d} {actor = actor} (Restored.to_closed a stays found allowed e) s =
    subst Logged (sym e) (moved-Logged d.auction a _ actor _ s)
Restored-Logged {d = d} {actor = actor} {c} (Restored.to_settled a on found allowed e) s =
    subst Logged (sym e) (
      moved-Logged d.auction (with_status AuctionStatus.closed c.clock a) _ actor _
        (moved-Logged d.auction a _ actor _ s))

new-Logged :
    (c : Core) (a : Auction)
    → IsSound c
    → a.status ≡ AuctionStatus.draft
    → Logged c
    → Logged (record c { auctions = create a c.auctions })
new-Logged c a sound draft s = record {
  agrees = λ k x found. elim (Bool-cases (c.auctions.next == k)) [
    | inl hit ↦ ground (
      arith,
      get-create a k c.auctions,
      (==_iff c.auctions.next k).0 hit,
      logged_status-RefersBelow c.auctions.next c.status_logs.rows sound.logs_known,
    )
    | inr miss ↦ ground (arith, get-create a k c.auctions, s.agrees k x)
  ];
}

closed_core-Logged :
    {c : Core} (k : ℕ) (a : Auction) (user_of : Bid → Option ℕ) (actor : Option ℕ) (reason : String)
    → Logged c
    → Logged (closed_core k a user_of actor reason c)
closed_core-Logged {c} k a user_of actor reason s =
    let d = decide_winner a (highest_bid k c.bids.rows) user_of in
    same_tables refl refl (
      moved-Logged k (with_decision d c.clock a) AuctionStatus.closed actor reason
        (kept_status {d = decided k d c} k (with_decision d c.clock) refl refl (λ x e. refl) s))

Step-Logged : {c d : Core} → Step c d → IsSound c → Logged c → Logged d
Step-Logged (Step.move k a to actor reason found allowed plain) sound s =
    moved-Logged k a to actor reason s
Step-Logged (Step.bid k a bidder amount found live open_now enough positive) sound s =
    kept_status k _ refl refl (λ x e. refl) s
Step-Logged (Step.invalidate k a key b actor reason found at_key its reasoned) sound s =
    kept_status k _ refl refl (λ x e. refl) s
Step-Logged (Step.close k a user_of actor reason found live) sound s =
    closed_core-Logged k a user_of actor reason s
Step-Logged (Step.schedule k a start end found may) sound s =
    kept_status k _ refl refl (λ x e. refl) s
Step-Logged (Step.pay key p actor method reference notes found pending w) sound s =
    Settled-Logged w (same_tables refl refl s)
Step-Logged (Step.fail_payment key p actor reason found pending) sound s = same_tables refl refl s
Step-Logged (Step.refund key p actor notes found paid) sound s = same_tables refl refl s
Step-Logged (Step.dispute k user a category description reason found disputable inactive) sound s =
    moved-Logged k a AuctionStatus.disputed (some user) reason (same_tables refl refl s)
Step-Logged (Step.take key d actor found opened) sound s = same_tables refl refl s
Step-Logged
      (Step.resolve key d actor outcome reason notes refund refunded restored found active r w)
      sound s =
    same_tables refl refl (Restored-Logged w (Refunds-Logged r s))
Step-Logged {c} (Step.list_auction a draft) sound s = new-Logged c a sound draft.draft s
Step-Logged (Step.edit_listing k a a' found draft draft' same) sound s =
    kept_status k _ refl refl (λ x e. ground arith) s
Step-Logged (Step.people users sellers bidders) sound s = same_tables refl refl s
Step-Logged (Step.pass_time now later) sound s = same_tables refl refl s

Steps-Logged : {c d : Core} → Steps c d → IsSound c → Logged c → Logged d
Steps-Logged Steps.here sound s = s
Steps-Logged (Steps.then t u) sound s =
    Step-Logged u (Steps-IsSound t sound) (Steps-Logged t sound s)

-- Let the newest log row of every auction have its status as the new status, where an auction
-- without log rows is a DRAFT, in tables whose keys are sound. Then it is so after any sequence of
-- steps of the platform.
pub Steps-IsLogged :
    {c d : Core}
    → Steps c d
    → IsSound c
    → IsLogged c.auctions c.status_logs
    → IsLogged d.auctions d.status_logs
Steps-IsLogged steps sound h = (Steps-Logged steps sound (record { agrees = h })).agrees
