-- ===== src/Scheduling.antt =====
-- apps/auctions/scheduling.py and the two management commands.
pub mod Controls
pub mod Sweep
