-- ===== src/System.antt =====
-- The whole platform as a transition system: abstract steps for the service calls, with
-- time passing in between, and the invariants of the database over them.
pub mod Step
pub mod Refinement
pub mod Invariants
pub mod Reachable
