-- ===== src/Tests/Data.antt =====
-- A small database: a seller (user 0), two bidders (users 1 and 2) and an officer (user 3); auction
-- 0 is live with one bid, auction 1 is scheduled.
use mbarara_auction.Prelude.{ℕ, String, true, false, none, some, [], ◌∷◌}
use mbarara_auction.Table.{Table}
use mbarara_auction.Models.{Db}
use mbarara_auction.Models.Accounts.{
  Role, User, VerificationStatus, SellerProfile, AccountStatus, BidderProfile,
}
use mbarara_auction.Models.Auctions.{AuctionStatus, Auction}
use mbarara_auction.Models.Bidding.{BidStatus, Bid}
use mbarara_auction.Models.Payments.{Payment}
use mbarara_auction.Models.Disputes.{Category, Dispute}
use mbarara_auction.Payments.{new_payment}
use mbarara_auction.Disputes.Services.{new_dispute}
use mbarara_auction.Bidding.Amount.{RawAmount, pos}

abbrev user_named : String → Role → User
user_named name role = record {
  username = name;
  email = "";
  role = role;
  phone_number = "";
  is_verified = true;
  is_staff = false;
  is_superuser = false;
  is_active = true;
}

abbrev pub alice : User
alice = user_named "alice" Role.bidder

abbrev pub bob : User
bob = user_named "bob" Role.bidder

abbrev pub seller : User
seller = user_named "seller" Role.seller

abbrev pub officer : User
officer = user_named "officer" Role.officer

abbrev seller_row : SellerProfile
seller_row = record {
  user = 0;
  phone = "";
  verification_status = VerificationStatus.verified;
  verified_at = none;
  verified_by = none;
  updated_at = 0;
}

abbrev pub bidder_row : ℕ → BidderProfile
bidder_row user = record {
  user = user;
  phone = "";
  verification_status = VerificationStatus.verified;
  account_status = AccountStatus.active;
  verified_at = none;
  verified_by = none;
  updated_at = 0;
}

-- It starts at 1 minute and ends at 60 minutes; the anti-sniping window is 5 minutes.
abbrev pub cow : Auction
cow = record {
  seller = 0;
  category = 0;
  title = "Cow";
  description = "";
  location = "Mbarara";
  starting_price = 10000;
  reserve_price = some 15000;
  min_increment = 1000;
  current_highest_bid = some 10000;
  start_time = 60_000_000;
  end_time = 3_600_000_000;
  extension_minutes = 5;
  status = AuctionStatus.live;
  winner = none;
  final_price = none;
  reserve_met = none;
  created_at = 0;
  updated_at = 0;
}

abbrev pub goat : Auction
goat = record cow { title = "Goat"; current_highest_bid = none; status = AuctionStatus.scheduled }

abbrev pub first_bid : Bid
first_bid = record {
  auction = 0;
  bidder = 0;
  amount = 10000;
  sequence_no = 1;
  status = BidStatus.accepted;
  invalidated_reason = "";
  invalidated_by = none;
  invalidated_at = none;
  created_at = 120_000_000;
}

abbrev empty : {A : Type 0} → Table A
empty = record { rows = []; next = 0 }

-- Two minutes before the end of the auctions.
abbrev pub market : Db
market = record {
  users = record { rows = (3, officer) ∷ (2, bob) ∷ (1, alice) ∷ (0, seller) ∷ []; next = 4 };
  sellers = record { rows = (0, seller_row) ∷ []; next = 1 };
  bidders = record { rows = (1, bidder_row 2) ∷ (0, bidder_row 1) ∷ []; next = 2 };
  auctions = record { rows = (1, goat) ∷ (0, cow) ∷ []; next = 2 };
  status_logs = empty;
  bids = record { rows = (0, first_bid) ∷ []; next = 1 };
  payments = empty;
  disputes = empty;
  notifications = empty;
  audit_logs = empty;
  deliveries = [];
  clock = 3_480_000_000;
}

-- 120.00, as `Decimal("120")`
abbrev pub bid_of_120 : RawAmount
bid_of_120 = RawAmount.decimal false 120 (pos 0)

-- The cow's auction, closed and sold to bob for 150.00.
abbrev pub sold_cow : Auction
sold_cow = record cow {
  current_highest_bid = some 15000;
  status = AuctionStatus.closed;
  winner = some 2;
  final_price = some 15000;
  reserve_met = some true;
}

abbrev pub due : Payment
due = new_payment 0 15000 0

abbrev pub sale : Db
sale = record market {
  auctions = record { rows = (0, sold_cow) ∷ []; next = 1 };
  payments = record { rows = (0, due) ∷ []; next = 1 };
}

abbrev pub complaint : Dispute
complaint = new_dispute 0 2 Category.not_delivered "No cow came" AuctionStatus.closed 0

abbrev pub disputed_sale : Db
disputed_sale = record sale {
  auctions = record {
    rows = (0, record sold_cow { status = AuctionStatus.disputed }) ∷ [];
    next = 1;
  };
  disputes = record { rows = (0, complaint) ∷ []; next = 1 };
}

abbrev pub submitted_cow : Auction
submitted_cow = record cow { current_highest_bid = none; status = AuctionStatus.submitted }

abbrev pub review : Db
review = record market { auctions = record { rows = (0, submitted_cow) ∷ []; next = 1 } }

abbrev pub draft_cow : Auction
draft_cow = record cow { current_highest_bid = none; status = AuctionStatus.draft }

abbrev pub drafts : Db
drafts = record market { auctions = record { rows = (0, draft_cow) ∷ []; next = 1 } }

-- The cow's listing was rejected; the goat's is scheduled.
abbrev pub rejected_cow : Auction
rejected_cow = record cow { current_highest_bid = none; status = AuctionStatus.rejected }

abbrev pub after_review : Db
after_review = record market {
  auctions = record { rows = (1, goat) ∷ (0, rejected_cow) ∷ []; next = 2 };
}

-- Alice has bid 160.00 for the cow, over the reserve price.
abbrev pub high_bid : Bid
high_bid = record first_bid { amount = 16000 }

abbrev pub busy_cow : Auction
busy_cow = record cow { current_highest_bid = some 16000 }

abbrev pub busy : Db
busy = record market {
  auctions = record { rows = (0, busy_cow) ∷ []; next = 1 };
  bids = record { rows = (0, high_bid) ∷ []; next = 1 };
}
