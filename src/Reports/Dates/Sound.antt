-- ===== src/Reports/Dates/Sound.antt =====
-- apps/reports/services.py: the dates that `parse_date` reads.
use mbarara_auction.Prelude.{ℕ, ◌≤◌, List, [], ◌∷◌}

-- months of the year
abbrev AllMonths : List ℕ → Type 0
AllMonths [] = Unit {0}
AllMonths (m ∷ ms) = (1 ≤ m) × (m ≤ 12) × AllMonths ms
