-- ===== src/Bidding.antt =====
-- apps/bidding: the bidding engine.
pub mod Amount
pub mod Queries
pub mod Place
pub mod Invalidate
pub mod Close
pub mod History
pub mod Highest
pub mod Sync
