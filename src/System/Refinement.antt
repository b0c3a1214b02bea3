-- ===== src/System/Refinement.antt =====
-- The services as sequences of abstract steps.
pub mod Moves
pub mod Bids
pub mod Aftermath
pub mod Sweeping
pub mod People
