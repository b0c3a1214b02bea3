-- ===== src/System/Invariants.antt =====
-- What holds of the database after any sequence of steps.
pub mod Sound
pub mod Undisputed
pub mod Reopened
pub mod Keys
pub mod Statuses
pub mod Lifecycle
pub mod Logs
pub mod Highest
pub mod Disputed
pub mod Disputes
pub mod Payments
