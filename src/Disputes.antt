-- ===== src/Disputes.antt =====
-- apps/disputes: complaints about a finished auction.
pub mod Access
pub mod Services
