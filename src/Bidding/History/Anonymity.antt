-- ===== src/Bidding/History/Anonymity.antt =====
-- apps/bidding/services.py: what `get_bid_history` keeps from the viewer.
use mbarara_auction.Prelude.{ℕ, ◌≡◌, refl, Bool, true, false, not, List, [], ◌∷◌, arith, any}
use mbarara_auction.Models.{Db}
use mbarara_auction.Models.Bidding.{Bid}
use mbarara_auction.Bidding.History.{
  Label, Entry, Viewer, is_staff_viewer, add_label, entry_for, label_for, bidder_id, history_loop,
  get_bid_history,
}

-- Does the entry name a bidder, call someone else's bid the viewer's own, or not call the viewer's own
-- bid so?
abbrev pub is_revealing : Entry → Bool
is_revealing e = elim (e.label) [
  | Label.you ↦ not e.is_mine
  | Label.anonymous _ ↦ e.is_mine
  | Label.username _ ↦ true
]

entry_for-is_revealing :
    (viewer : Viewer) (b : Bid) (user : ℕ) (labels : List ℕ) (db : Db)
    → is_staff_viewer viewer ≡ false
    → is_revealing (entry_for viewer b user labels db) ≡ false
unfolding label_for
entry_for-is_revealing viewer b user labels db h = ground arith

history_loop-is_revealing :
    (viewer : Viewer) (bids : List (ℕ × Bid)) (labels : List ℕ) (db : Db)
    → is_staff_viewer viewer ≡ false
    → any is_revealing (history_loop viewer bids labels db) ≡ false
unfolding history_loop
history_loop-is_revealing viewer [] labels db h = refl
history_loop-is_revealing viewer (r ∷ bids) labels db h =
    let user = bidder_id db r.1 in
    let labels' = add_label user labels in
    let here = entry_for-is_revealing viewer r.1 user labels' db h in
    rw here (history_loop-is_revealing viewer bids labels' db h)

-- For a viewer who is not staff, no entry of an auction's bid history shows a username, and an
-- entry has the label of the viewer's own bids exactly if it is marked as the viewer's.
pub get_bid_history-is_revealing :
    (k : ℕ) (viewer : Viewer) (db : Db)
    → is_staff_viewer viewer ≡ false
    → any is_revealing (get_bid_history k viewer db) ≡ false
unfolding get_bid_history
get_bid_history-is_revealing k viewer db h = history_loop-is_revealing viewer _ [] db h
