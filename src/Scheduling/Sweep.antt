-- ===== src/Scheduling/Sweep.antt =====
-- Starting and closing what is due: `sweep_due` of apps/auctions/scheduling.py, and the commands
-- activate_scheduled_auctions and close_ended_auctions. Each query is made before its loop.
pub mod Closing
use mbarara_auction.Prelude.{
  ℕ, ◌+◌, String, Bool, true, false, ◌&&◌, ◌||◌, Option, none, List, [], ◌∷◌, leb,
}
use mbarara_auction.Table.{filter}
use mbarara_auction.Models.{Db}
use mbarara_auction.Models.Auctions.{Auction, is_live, is_scheduled}
use mbarara_auction.Errors.{Error, is_validation_error, is_value_error, is_invalid_transition}
use mbarara_auction.Exec.{Exec, Result, pure, gets, ◌>>=◌}
use mbarara_auction.Auctions.Services.{activate_if_due}
use mbarara_auction.Bidding.Close.{close_auction}

-- `filter(status=SCHEDULED, start_time__lte=now)`
unfoldable pub due_to_start : Db → List (ℕ × Auction)
due_to_start db = filter (λ a. is_scheduled a.status && leb a.start_time db.clock) db.auctions

-- `filter(status=LIVE, end_time__lte=now)`
unfoldable pub due_to_close : Db → List (ℕ × Auction)
due_to_close db = filter (λ a. is_live a.status && leb a.end_time db.clock) db.auctions

-- `try: …; count += 1` with `except …: pass` for the errors that `is_caught` names
abbrev pub counted : {A : Type 0} → (Error → Bool) → ℕ → Result A → Result ℕ
counted is_caught count (Result.returned _ db) = Result.returned (count + 1) db
counted is_caught count (Result.raised e db) = elim (is_caught e) [
  | true ↦ Result.returned count db
  | false ↦ Result.raised e db
]

unfoldable pub start_each : (Error → Bool) → Option ℕ → List (ℕ × Auction) → ℕ → Exec ℕ
start_each is_caught actor [] count = pure count
start_each is_caught actor ((k, a) ∷ due) count = do
  count ← (λ db. counted is_caught count (activate_if_due k a actor db))
  start_each is_caught actor due count

unfoldable pub close_each : (Error → Bool) → Option ℕ → String → List (ℕ × Auction) → ℕ → Exec ℕ
close_each is_caught actor reason [] count = pure count
close_each is_caught actor reason ((k, a) ∷ due) count = do
  count ← (λ db. counted is_caught count (close_auction k actor reason db))
  close_each is_caught actor reason due count

-- the default of `close_auction`'s reason
abbrev pub automated : String
automated = "Automated closing at end_time"

-- The closing loop's query is made after the starting loop, with the time read at the beginning.
unfoldable pub sweep_due : Option ℕ → Exec (ℕ × ℕ)
sweep_due actor = do
  due ← gets due_to_start
  started ← start_each is_validation_error actor due 0
  ended ← gets due_to_close
  closed ← close_each (λ e. is_value_error e || is_invalid_transition e) actor automated ended 0
  pure (started, closed)

abbrev pub catches_nothing : Error → Bool
catches_nothing e = false

-- The commands let every error through, and count what they have done.
unfoldable pub activate_scheduled_auctions : Exec ℕ
activate_scheduled_auctions = do due ← gets due_to_start; start_each catches_nothing none due 0

unfoldable pub close_ended_auctions : Exec ℕ
close_ended_auctions = do due ← gets due_to_close; close_each catches_nothing none automated due 0
