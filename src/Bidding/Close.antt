-- ===== src/Bidding/Close.antt =====
-- apps/bidding/services.py: `close_auction`
pub mod Outcome
pub mod Sale
use mbarara_auction.Prelude.{
  ℕ, String, Bool, true, false, not, Option, none, some, List, [], ◌∷◌, leb, if◌then◌else◌,
}
use mbarara_auction.Table.{Table, get, modify}
use mbarara_auction.Models.{Db}
use mbarara_auction.Models.Auctions.{AuctionStatus, Auction, is_live}
use mbarara_auction.Models.Bidding.{Bid}
use mbarara_auction.Models.Records.{Action, Value}
use mbarara_auction.Errors.{Error, ValueError}
use mbarara_auction.Exec.{Exec, pure, gets, raise_if, effect, atomic, ◌>>=◌, ◌>>◌}
use mbarara_auction.Audit.{audit}
use mbarara_auction.Notifications.Events.{notify_auction_won, notify_auction_closed_no_winner}
use mbarara_auction.Notifications.Recipients.{bidder_user}
use mbarara_auction.Auctions.Services.{auction_object, lock, transition}
use mbarara_auction.Payments.{create_pending_payment}
use mbarara_auction.Bidding.Queries.{highest_bid}

pub record Decision : Type 0 where
  pub reserve_met : Option Bool
  pub winner : Option ℕ
  pub final_price : Option ℕ

abbrev meets_reserve : Option ℕ → ℕ → Bool
meets_reserve none amount = true
meets_reserve (some reserve) amount = leb reserve amount

-- Who wins, for what, and whether the reserve was met: None where there is no bid.
unfoldable pub decide_winner : Auction → Option (ℕ × Bid) → (Bid → Option ℕ) → Decision
unfolding meets_reserve
decide_winner a none user_of = record { reserve_met = none; winner = none; final_price = none }
decide_winner a (some (_, b)) user_of =
    if meets_reserve a.reserve_price b.amount
    then record { reserve_met = some true; winner = user_of b; final_price = some b.amount }
    else record { reserve_met = some false; winner = none; final_price = none }

abbrev pub with_decision : Decision → ℕ → Auction → Auction
with_decision d now a = record a {
  winner = d.winner;
  final_price = d.final_price;
  reserve_met = d.reserve_met;
  updated_at = now;
}

unfoldable pub save_decision : ℕ → Decision → Db → Db
save_decision k d db = record db { auctions = modify k (with_decision d db.clock) db.auctions }

abbrev winner_metadata : ℕ → Option ℕ → List (String × Value)
winner_metadata winner none = ("winner_id", Value.key_of winner) ∷ []
winner_metadata winner (some price) =
    ("winner_id", Value.key_of winner) ∷ ("final_price", Value.money price) ∷ []

unfoldable pub congratulate : ℕ → ℕ → Auction → Option ℕ → Db → Db
unfolding audit notify_auction_won
congratulate winner k a actor db = notify_auction_won k a (
    audit actor Action.winner_determined (auction_object k) ""
      (winner_metadata winner a.final_price) db)

-- The winner hears of it, and a payment is due; or the seller hears that there is no winner.
unfoldable pub announce_to : Option ℕ → ℕ → Auction → Option ℕ → Exec (Unit {0})
announce_to (some winner) k a actor = do
  effect (congratulate winner k a actor)
  payment ← create_pending_payment k a
  pure tt
announce_to none k a actor = effect (notify_auction_closed_no_winner k a)

unfoldable pub announce : ℕ → Auction → Option ℕ → Exec (Unit {0})
announce k a actor = announce_to a.winner k a actor

unfoldable pub close_auction : ℕ → Option ℕ → String → Exec Auction
close_auction k actor reason = atomic do
  a ← lock k
  raise_if (not (is_live a.status)) (Error.value_error ValueError.auction_not_live)
  highest ← gets (λ db. highest_bid k db.bids.rows)
  d ← gets (λ db. decide_winner a highest (bidder_user db))
  effect (save_decision k d)
  closed ← transition k AuctionStatus.closed actor reason
  announce k closed actor
  pure closed
