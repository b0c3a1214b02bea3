-- ===== src/System/Reachable.antt =====
-- Everything that the platform can reach from an empty database.
use mbarara_auction.Prelude.{ℕ, ◌≤◌, [], arith}
use mbarara_auction.Table.{Table, get}
use mbarara_auction.Core.{Core}
use mbarara_auction.Bidding.Highest.{IsInSync}
use mbarara_auction.System.Step.{Steps}
use mbarara_auction.System.Invariants.Sound.{IsSound}
use mbarara_auction.System.Invariants.Keys.{Steps-IsSound}
use mbarara_auction.System.Invariants.Highest.{Steps-IsInSync}
use mbarara_auction.System.Invariants.Logs.{IsLogged, Steps-IsLogged}
use mbarara_auction.System.Invariants.Disputed.{IsDisputeKept}
use mbarara_auction.System.Invariants.Disputes.{Steps-IsDisputeKept}
use mbarara_auction.System.Invariants.Payments.{payment_count, Steps-payment_count}

abbrev no_rows : {A : Type 0} → Table A
no_rows = record { rows = []; next = 0 }

abbrev pub empty_core : ℕ → Core
empty_core now = record {
  users = no_rows;
  sellers = no_rows;
  bidders = no_rows;
  auctions = no_rows;
  status_logs = no_rows;
  bids = no_rows;
  payments = no_rows;
  disputes = no_rows;
  clock = now;
}

pub record IsConsistent (c : Core) : Type 0 where
  pub sound : IsSound c
  pub in_sync : IsInSync c.auctions c.bids
  pub logged : IsLogged c.auctions c.status_logs
  pub dispute_kept : IsDisputeKept c.auctions c.disputes
  pub paid_once : (k : ℕ) → payment_count k c.payments.rows ≤ 1

empty_core-IsConsistent : (now : ℕ) → IsConsistent (empty_core now)
unfolding get
empty_core-IsConsistent now = record {
  sound = record {
    auctions_keyed = tt;
    bids_keyed = tt;
    disputes_keyed = tt;
    bids_known = tt;
    disputes_known = tt;
    logs_known = tt;
  };
  in_sync = λ k a found. absurd (ground arith);
  logged = λ k a found. absurd (ground arith);
  dispute_kept = λ k a found. absurd (ground arith);
  paid_once = λ k. omega arith;
}

-- In everything that steps of the platform reach from an empty database, keys are sound, the
-- stored highest bid of every auction is the largest amount of its accepted bids, its newest log
-- row has its status, it has one active dispute if it is DISPUTED and none if not, and at most one
-- payment.
pub Steps-IsConsistent : (now : ℕ) {c : Core} → Steps (empty_core now) c → IsConsistent c
Steps-IsConsistent now steps =
    let e = empty_core-IsConsistent now in
    record {
      sound = Steps-IsSound steps e.sound;
      in_sync = Steps-IsInSync steps e.sound e.in_sync;
      logged = Steps-IsLogged steps e.sound e.logged;
      dispute_kept = Steps-IsDisputeKept steps e.sound e.dispute_kept;
      paid_once = Steps-payment_count steps e.paid_once;
    }
