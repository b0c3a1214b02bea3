-- ===== src/Auctions.antt =====
-- apps/auctions: the life of an auction, the staff controls and the public pages.
pub mod Lifecycle
pub mod Services
