-- ===== src/System/Invariants/Sound.antt =====
-- Sound keys: fresh keys are new, and the bids, disputes and status logs refer to auctions that were
-- created. Each kind of write by itself.
use mbarara_auction.Prelude.{ℕ, ◌<◌, ◌≡◌}
use mbarara_auction.Table.{Table, modify, create}
use mbarara_auction.Table.Keys.{IsKeyed, modify-IsKeyed, create-IsKeyed}
use mbarara_auction.Table.References.{RefersBelow, RefersBelow-suc, RefersBelow-change}
use mbarara_auction.Models.Auctions.{Auction, AuctionStatusLog}
use mbarara_auction.Models.Bidding.{Bid}
use mbarara_auction.Models.Disputes.{Dispute}
use mbarara_auction.Models.Accounts.{User, SellerProfile, BidderProfile}
use mbarara_auction.Models.Payments.{Payment}
use mbarara_auction.Core.{Core}

pub record IsSound (c : Core) : Type 0 where
  pub auctions_keyed : IsKeyed c.auctions
  pub bids_keyed : IsKeyed c.bids
  pub disputes_keyed : IsKeyed c.disputes
  pub bids_known : RefersBelow (λ (b : Bid). b.auction) c.bids.rows c.auctions.next
  pub disputes_known : RefersBelow (λ (d : Dispute). d.auction) c.disputes.rows c.auctions.next
  pub logs_known :
      RefersBelow (λ (l : AuctionStatusLog). l.auction) c.status_logs.rows c.auctions.next

module _ {c : Core} (s : IsSound c) where
  pub on_auctions :
      (k : ℕ) (f : Auction → Auction) → IsSound (record c { auctions = modify k f c.auctions })
  unfolding modify
  on_auctions k f = record {
    auctions_keyed = modify-IsKeyed k f c.auctions s.auctions_keyed;
    bids_keyed = s.bids_keyed;
    disputes_keyed = s.disputes_keyed;
    bids_known = s.bids_known;
    disputes_known = s.disputes_known;
    logs_known = s.logs_known;
  }

  pub on_log :
      (l : AuctionStatusLog)
      → l.auction < c.auctions.next
      → IsSound (record c { status_logs = create l c.status_logs })
  unfolding create
  on_log l known = record {
    auctions_keyed = s.auctions_keyed;
    bids_keyed = s.bids_keyed;
    disputes_keyed = s.disputes_keyed;
    bids_known = s.bids_known;
    disputes_known = s.disputes_known;
    logs_known = (known, s.logs_known);
  }

  pub on_new_bid :
      (b : Bid) → b.auction < c.auctions.next → IsSound (record c { bids = create b c.bids })
  unfolding create
  on_new_bid b known = record {
    auctions_keyed = s.auctions_keyed;
    bids_keyed = create-IsKeyed b c.bids s.bids_keyed;
    disputes_keyed = s.disputes_keyed;
    bids_known = (known, s.bids_known);
    disputes_known = s.disputes_known;
    logs_known = s.logs_known;
  }

  pub on_bids :
      (key : ℕ) (f : Bid → Bid)
      → ((b : Bid) → (f b).auction ≡ b.auction)
      → IsSound (record c { bids = modify key f c.bids })
  unfolding modify
  on_bids key f same = record {
    auctions_keyed = s.auctions_keyed;
    bids_keyed = modify-IsKeyed key f c.bids s.bids_keyed;
    disputes_keyed = s.disputes_keyed;
    bids_known = RefersBelow-change _ key f c.bids.rows _ same s.bids_known;
    disputes_known = s.disputes_known;
    logs_known = s.logs_known;
  }

  pub on_new_dispute :
      (d : Dispute)
      → d.auction < c.auctions.next
      → IsSound (record c { disputes = create d c.disputes })
  unfolding create
  on_new_dispute d known = record {
    auctions_keyed = s.auctions_keyed;
    bids_keyed = s.bids_keyed;
    disputes_keyed = create-IsKeyed d c.disputes s.disputes_keyed;
    bids_known = s.bids_known;
    disputes_known = (known, s.disputes_known);
    logs_known = s.logs_known;
  }

  pub on_disputes :
      (key : ℕ) (f : Dispute → Dispute)
      → ((d : Dispute) → (f d).auction ≡ d.auction)
      → IsSound (record c { disputes = modify key f c.disputes })
  unfolding modify
  on_disputes key f same = record {
    auctions_keyed = s.auctions_keyed;
    bids_keyed = s.bids_keyed;
    disputes_keyed = modify-IsKeyed key f c.disputes s.disputes_keyed;
    bids_known = s.bids_known;
    disputes_known = RefersBelow-change _ key f c.disputes.rows _ same s.disputes_known;
    logs_known = s.logs_known;
  }

  pub on_new_auction : (a : Auction) → IsSound (record c { auctions = create a c.auctions })
  unfolding create
  on_new_auction a = record {
    auctions_keyed = create-IsKeyed a c.auctions s.auctions_keyed;
    bids_keyed = s.bids_keyed;
    disputes_keyed = s.disputes_keyed;
    bids_known = RefersBelow-suc _ c.bids.rows _ s.bids_known;
    disputes_known = RefersBelow-suc _ c.disputes.rows _ s.disputes_known;
    logs_known = RefersBelow-suc _ c.status_logs.rows _ s.logs_known;
  }

  -- the tables that the invariant does not speak of
  pub on_rest :
      (users : Table User) (sellers : Table SellerProfile) (bidders : Table BidderProfile)
      (payments : Table Payment) (clock : ℕ)
      → IsSound (record c {
        users = users;
        sellers = sellers;
        bidders = bidders;
        payments = payments;
        clock = clock;
      })
  on_rest users sellers bidders payments clock = record {
    auctions_keyed = s.auctions_keyed;
    bids_keyed = s.bids_keyed;
    disputes_keyed = s.disputes_keyed;
    bids_known = s.bids_known;
    disputes_known = s.disputes_known;
    logs_known = s.logs_known;
  }
