-- ===== src/Web.antt =====
-- The views that change something: what a POST does for a user, and which errors become messages.
pub mod Replies
pub mod Listings
pub mod Bids
pub mod Staff
pub mod Disputes
pub mod Control
pub mod ControlPages
pub mod Guards
pub mod Images
pub mod Offers
pub mod Pages
pub mod Middleware
